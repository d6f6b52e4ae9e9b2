-- ===== src/Execution/Compatibility/Raises.antt =====
-- What the small-account loop may do to a target.
use firstrade_platform.Prelude.{
  ◌≡◌, refl, true, List, [], ◌∷◌, Text, text_eq, text_eq_iff, get_or, get-put, Float, IsOrdered,
  flt, fle, fmax, le-fmax_right, arith, if◌then◌else◌,
}
use firstrade_platform.Execution.Sizing.{Ratios}
use firstrade_platform.Execution.Compatibility.{
  Candidate, Adjusted, Adjustment, leave, retain, bootstrap, Setting, may_bootstrap, adjustment,
  candidate_of, apply_adjustment, adjust_one, adjust_all,
}

module _ {F : Type 0} ⦃d : Float F⦄ where
  open d use {nought, decimal}

  -- A target is raised to the price of one share only where the account holds a share, and to the
  -- limit price only where it holds none and the buying power covers that price; in both cases the
  -- old target lies strictly between zero and the new one.
  pub adjustment_justified :
      (r : Ratios F) (symbol : Text) (c : Candidate F)
      → (adjustment r symbol c ≡ retain
          → (fle (decimal 1 0) c.held ≡ true)
            × (flt nought c.target_value ≡ true)
            × (flt c.target_value c.price ≡ true))
        × (adjustment r symbol c ≡ bootstrap
            → (fle c.held nought ≡ true)
              × (fle c.limit_price c.buying_power ≡ true)
              × (flt nought c.target_value ≡ true)
              × (flt c.target_value c.limit_price ≡ true))
  unfolding adjustment may_bootstrap
  adjustment_justified r symbol c = (λ h. ground arith, λ h. ground arith)

  module _ (o : IsOrdered F) where
    raise-le :
        (s j : Text) (v : F) (a : Adjusted F)
        → flt (fmax nought (get_or a.targets s nought)) v ≡ true
        → fle (get_or a.targets j nought) (if text_eq s j then v else get_or a.targets j nought)
          ≡ true
    raise-le s j v a h = ground (
      arith,
      text_eq_iff s j,
      le-fmax_right o nought (get_or a.targets s nought),
      o.lt_irrefl v,
      o.lt_irrefl (get_or a.targets j nought),
      o.lt_trans v (get_or a.targets s nought) v,
      o.lt_trans (fmax nought (get_or a.targets s nought)) v (get_or a.targets s nought),
    )

    apply_adjustment-le :
        (x : Adjustment) (s j : Text) (c : Candidate F) (a : Adjusted F)
        → c.target_value ≡ fmax nought (get_or a.targets s nought)
        → (x ≡ retain → flt c.target_value c.price ≡ true)
        → (x ≡ bootstrap → flt c.target_value c.limit_price ≡ true)
        → fle (get_or a.targets j nought) (get_or (apply_adjustment x s c a).targets j nought)
          ≡ true
    unfolding apply_adjustment
    apply_adjustment-le leave s j c a e p q =
        ground (arith, o.lt_irrefl (get_or a.targets j nought))
    apply_adjustment-le retain s j c a e p q =
        ground (arith, raise-le s j c.price a (rw (← e) (p refl)), get-put a.targets s j c.price)
    apply_adjustment-le bootstrap s j c a e p q = ground (
      arith,
      raise-le s j c.limit_price a (rw (← e) (q refl)),
      get-put a.targets s j c.limit_price,
    )

    adjust_one-le :
        (e : Setting F) (s j : Text) (a : Adjusted F)
        → fle (get_or a.targets j nought) (get_or (adjust_one e s a).targets j nought) ≡ true
    unfolding adjust_one candidate_of
    adjust_one-le e s j a =
        let c = candidate_of e a.targets s in
        let (kept, booted) = adjustment_justified e.ratios s c in
        apply_adjustment-le (adjustment e.ratios s c) s j c a refl (λ h. (kept h).2)
          (λ h. (booted h).3)

    -- The loop lowers no target, of any symbol.
    pub adjust_all-le :
        (e : Setting F) (symbols : List Text) (j : Text) (a : Adjusted F)
        → fle (get_or a.targets j nought) (get_or (adjust_all e symbols a).targets j nought) ≡ true
    unfolding adjust_all
    adjust_all-le e [] j a = ground (arith, o.lt_irrefl (get_or a.targets j nought))
    adjust_all-le e (s ∷ ss) j a = ground (
      arith,
      adjust_one-le e s j a,
      adjust_all-le e ss j (adjust_one e s a),
      o.le_trans (get_or a.targets j nought) (get_or (adjust_one e s a).targets j nought)
          (get_or (adjust_all e ss (adjust_one e s a)).targets j nought),
    )
