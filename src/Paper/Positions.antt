-- ===== src/Paper/Positions.antt =====
-- What the loop over the positions has found where it notes nothing.
use mathlib.Core.Option.{some-injective}
use mathlib.Core.Path.{subst}
use firstrade_platform.Prelude.{
  ap, sym, ◌∙◌, put, text_eq, text_eq_iff, get-put, fmax, fabs, flt, fle, if◌then◌else◌, ◌≡◌, refl,
  Bool, true, false, ◌||◌, Option, none, some, List, [], ◌∷◌, Text, one_of, Float, Bool-cases, inl,
  inr, get_or, arith, Dict,
}
use firstrade_platform.Paper.{
  PaperPosition, Gathered, clean_symbol, is_priced, does_disagree, gather_priced, gather_one,
  gather,
}

pub or-false : (a b : Bool) → (a || b) ≡ false → (a ≡ false) × (b ≡ false)
or-false a b h = ground arith

module _ {F : Type 0} ⦃d : Float F⦄ (quote : Text → Option F) (managed : List Text) where
  open d use {nought}

  abbrev pub tolerance : F → F
  tolerance value = fmax (d.of_ℕ 1) (d.times (fabs value) (d.decimal 5 3))

  -- The position is of a managed symbol with a positive price, its quantity and its value are known
  -- and at least -0.01, and the value is the quantity at the price, within the larger of 1 and 0.5 %.
  abbrev pub IsAgreed : PaperPosition F → Type 0
  IsAgreed p =
      (q : F) × (v : F) × (price : F) × (p.quantity ≡ some q)
      × (p.market_value ≡ some v)
      × (quote (clean_symbol p.symbol) ≡ some price)
      × (flt nought price ≡ true)
      × (one_of (clean_symbol p.symbol) managed ≡ true)
      × (fle (d.minus nought (d.decimal 1 2)) q ≡ true)
      × (fle (d.minus nought (d.decimal 1 2)) v ≡ true)
      × (fle (fabs (d.minus v (d.times q price))) (tolerance (d.times q price)) ≡ true)

  -- what a quantity is worth at a price
  abbrev quoted : Option F → Option F → F
  quoted (some q) (some price) = d.times q price
  quoted (some q) none = nought
  quoted none price = nought

  abbrev added : Text → PaperPosition F → F → F
  added s p total =
      if text_eq s (clean_symbol p.symbol)
      then d.plus total (quoted p.quantity (quote (clean_symbol p.symbol)))
      else total

  -- what the positions of one symbol are worth, one added after another
  unfoldable pub worth : Text → List (PaperPosition F) → F → F
  worth s [] total = total
  worth s (p ∷ ps) total = worth s ps (added s p total)

  abbrev pub AllAgreed : List (PaperPosition F) → Type 0
  AllAgreed [] = Unit
  AllAgreed (p ∷ ps) = IsAgreed p × AllAgreed ps

  is_priced-some :
      (o : Option F) (x : F) → is_priced o ≡ some x → (o ≡ some x) × (flt nought x ≡ true)
  is_priced-some none x h = absurd (ground arith)
  is_priced-some (some y) x h = elim (Bool-cases (flt nought y)) [
    | inl positive ↦
        let same : some y ≡ some x = rw positive at h in
        (same, rw (← some-injective y x same) positive)
    | inr other ↦ absurd (ground arith)
  ]

  put-added :
      (held : Dict F) (k s : Text) (x : F)
      → get_or (put held k (d.plus (get_or held k nought) x)) s nought
        ≡ (if text_eq s k then d.plus (get_or held s nought) x else get_or held s nought)
  put-added held k s x =
      ground (
        arith,
        get-put held k s (d.plus (get_or held k nought) x),
        text_eq_iff s k,
        text_eq_iff k s,
      )

  -- The position agrees, nothing was noted before it, and its worth is added to that of its symbol.
  abbrev IsAdded : PaperPosition F → Gathered F → Gathered F → Type 0
  IsAdded p before after =
      IsAgreed p
      × (before.mismatch ≡ false)
      × ((s : Text)
          → get_or after.current_values s nought
            ≡ added s p (get_or before.current_values s nought))

  priced-IsAdded :
      (p : PaperPosition F) (q v price : Option F) (g : Gathered F)
      → p.quantity ≡ q
      → p.market_value ≡ v
      → is_priced (quote (clean_symbol p.symbol)) ≡ price
      → one_of (clean_symbol p.symbol) managed ≡ true
      → (gather_priced (clean_symbol p.symbol) q v price g).mismatch ≡ false
      → IsAdded p g (gather_priced (clean_symbol p.symbol) q v price g)
  unfolding gather_priced does_disagree
  priced-IsAdded p none v price g a b c m h = absurd (ground arith)
  priced-IsAdded p (some q) none price g a b c m h = absurd (ground arith)
  priced-IsAdded p (some q) (some v) none g a b c m h = absurd (ground arith)
  priced-IsAdded p (some q) (some v) (some price) g a b c m h =
      let (priced, positive) = is_priced-some (quote (clean_symbol p.symbol)) price c in
      (
        (q, v, price, a, b, priced, positive, m, ground arith, ground arith, ground arith),
        ground arith,
        λ s.
            rw (a, priced) (put-added g.current_values (clean_symbol p.symbol) s (d.times q price)),
      )

  gather_one-priced :
      (p : PaperPosition F) (g : Gathered F)
      → one_of (clean_symbol p.symbol) managed ≡ true
      → gather_one quote managed p g
        ≡ gather_priced
            (clean_symbol p.symbol)
            p.quantity
            p.market_value
            (is_priced (quote (clean_symbol p.symbol)))
            g
  unfolding gather_one
  gather_one-priced p g known = rw known refl

  one-IsAdded :
      (p : PaperPosition F) (g : Gathered F)
      → (gather_one quote managed p g).mismatch ≡ false
      → IsAdded p g (gather_one quote managed p g)
  unfolding gather_one
  one-IsAdded p g h = elim (Bool-cases (one_of (clean_symbol p.symbol) managed)) [
    | inl known ↦
        subst (IsAdded p g) (sym (gather_one-priced p g known))
          (priced-IsAdded p _ _ _ g refl refl refl known (rw known at h))
    | inr unknown ↦ absurd (ground arith)
  ]

  -- All positions agree, nothing was noted before them, and each symbol has their worth.
  abbrev pub AreAdded : List (PaperPosition F) → Gathered F → Gathered F → Type 0
  AreAdded ps before after =
      AllAgreed ps
      × (before.mismatch ≡ false)
      × ((s : Text)
          → get_or after.current_values s nought
            ≡ worth s ps (get_or before.current_values s nought))

  pub gather-AreAdded :
      (ps : List (PaperPosition F)) (g : Gathered F)
      → (gather quote managed ps g).mismatch ≡ false
      → AreAdded ps g (gather quote managed ps g)
  unfolding gather worth
  gather-AreAdded [] g h = (tt, h, λ s. refl)
  gather-AreAdded (p ∷ ps) g h =
      let (rest, between, later) = gather-AreAdded ps (gather_one quote managed p g) h in
      let (first, before, now) = one-IsAdded p g between in
      ((first, rest), before, λ s. later s ∙ ap (worth s ps) (now s))
