-- ===== src/Execution/SafeHaven/Substitution.antt =====
-- What the substitution of small safe-haven targets leaves behind.
use firstrade_platform.Prelude.{
  ◌&&◌, ◌≡◌, refl, Bool, false, List, [], ◌∷◌, Text, text_eq, text_eq_iff, Dict, get_or, get-put,
  one_of, Float, flt, IsOrdered, arith, if◌then◌else◌,
}
use firstrade_platform.Execution.SafeHaven.{is_small, zero_small_target, zero_small_targets}

module _ {F : Type 0} ⦃d : Float F⦄ (o : IsOrdered F) (threshold : F) where
  open d use {nought}

  -- what one symbol's target becomes
  abbrev settled : F → F
  settled v = if is_small threshold v then nought else v

  settled-not_small : (v : F) → is_small threshold (settled v) ≡ false
  settled-not_small v = ground (arith, o.lt_irrefl nought)

  step-get :
      (s h : Text) (acc : Dict F × Bool)
      → get_or (zero_small_target threshold h acc).0 s nought
        ≡ (if text_eq s h then settled (get_or acc.0 s nought) else get_or acc.0 s nought)
  unfolding zero_small_target
  step-get s h (targets, changed) =
      ground (arith, get-put targets h s nought, text_eq_iff s h, text_eq_iff h s)

  loop-get :
      (s : Text) (havens : List Text) (acc : Dict F × Bool)
      → get_or (zero_small_targets threshold havens acc).0 s nought
        ≡ (if one_of s havens then settled (get_or acc.0 s nought) else get_or acc.0 s nought)
  unfolding zero_small_targets one_of
  loop-get s [] acc = refl
  loop-get s (h ∷ havens) acc = ground (
    arith,
    loop-get s havens (zero_small_target threshold h acc),
    step-get s h acc,
    o.lt_irrefl nought,
  )

  -- After the loop a safe-haven symbol has no target where its target was strictly between zero and
  -- the threshold, and the target that it had otherwise; every other symbol has the target it had.
  pub no_small_haven_left :
      (s : Text) (havens : List Text) (targets : Dict F)
      → let before = get_or targets s nought in
        get_or (zero_small_targets threshold havens (targets, false)).0 s nought ≡ (
          if one_of s havens && (flt nought before && flt before threshold) then nought else before)
  no_small_haven_left s havens targets = ground (arith, loop-get s havens (targets, false))
