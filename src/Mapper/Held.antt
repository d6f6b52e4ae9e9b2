-- ===== src/Mapper/Held.antt =====
-- Decisions that are not to be executed.
use firstrade_platform.Prelude.{
  not, ◌&&◌, is_empty, ◌≡◌, refl, ◌⊎◌, inl, inr, Bool, true, false, ◌||◌, none, List, [], ◌∷◌, ◌++◌,
  Text, text_eq, ap, insert_sorted, text_eq_refl, text_eq_iff, Dict, keys, get, get_or, map, one_of,
  sorted_set, unique, unique_from, Float, All, arith, if◌then◌else◌,
}
use firstrade_platform.Mapper.{
  no_execute, PositionTarget, StrategyDecision, PortfolioInputs, MapperKit, weight, held_target,
  zero_target, build_hold_current_value_decision, build_zero_equity_no_execute_decision,
  translate_weights, normalize_mode, normalize_to_value_decision,
}

unique_from-one_of :
    (x : Text) (seen xs : List Text)
    → (one_of x seen || one_of x (unique_from seen xs)) ≡ (one_of x seen || one_of x xs)
unfolding unique_from one_of
unique_from-one_of x seen [] = refl
unique_from-one_of x seen (y ∷ ys) =
    ground
      (arith, unique_from-one_of x seen ys, unique_from-one_of x (y ∷ seen) ys, text_eq_iff x y)

one_of-append_last : (x : Text) (xs : List Text) → one_of x (xs ++ x ∷ []) ≡ true
unfolding one_of
one_of-append_last x [] = ground (arith, text_eq_refl x)
one_of-append_last x (y ∷ ys) = ground (arith, one_of-append_last x ys)

insert_sorted-one_of :
    (s x : Text) (xs : List Text) → one_of s (insert_sorted x xs) ≡ (text_eq s x || one_of s xs)
unfolding insert_sorted one_of
insert_sorted-one_of s x [] = refl
insert_sorted-one_of s x (y ∷ ys) =
    ground (arith, insert_sorted-one_of s x ys, text_eq_iff x y, text_eq_iff s x, text_eq_iff s y)

sorted_set-one_of : (s : Text) (xs : List Text) → one_of s (sorted_set xs) ≡ one_of s xs
unfolding sorted_set one_of
sorted_set-one_of s [] = refl
sorted_set-one_of s (x ∷ xs) =
    ground (arith, sorted_set-one_of s xs, insert_sorted-one_of s x (sorted_set xs))

-- A list whose members another one has.
All-one_of :
    (xs ys : List Text)
    → ((s : Text) → one_of s xs ≡ true → one_of s ys ≡ true)
    → All (λ s. one_of s ys ≡ true) xs
unfolding one_of
All-one_of [] ys h = tt
All-one_of (x ∷ xs) ys h =
    (h x (ground (arith, text_eq_refl x)), All-one_of xs ys (λ s e. h s (ground arith)))

module _ {F : Type 0} ⦃d : Float F⦄ where
  open d use {nought}

  abbrev symbol_of : PositionTarget F → Text
  symbol_of p = p.symbol

  -- the target of a symbol is what is held of it
  abbrev pub IsHeld : Dict F → PositionTarget F → Type 0
  IsHeld market_values p = p.amount ≡ get_or market_values p.symbol nought

  -- The decision has the flag, its targets are what is held of their symbols, and each of the names
  -- has one.
  abbrev pub HoldsAll : PortfolioInputs F → List Text → StrategyDecision F → Type 0
  HoldsAll inputs names decision =
      (one_of no_execute decision.risk_flags ≡ true)
      × All (IsHeld inputs.market_values) decision.positions
      × All (λ s. one_of s (map symbol_of decision.positions) ≡ true) names

  -- The symbols that are held; those of the decision where nothing is held and it has no flag.
  abbrev pub names_of : Bool → PortfolioInputs F → StrategyDecision F → List Text
  names_of flagged inputs decision =
      if not flagged && is_empty inputs.market_values
      then map symbol_of decision.positions
      else keys inputs.market_values

  -- The decision has the flag already, or its weights have no equity to be taken of.
  abbrev pub IsRefused : MapperKit F → StrategyDecision F → PortfolioInputs F → Bool → Type 0
  IsRefused kit decision inputs cash_only =
      (one_of no_execute decision.risk_flags ≡ true)
      ⊎ ((kit.target_mode decision ≡ weight)
          × ((kit.translation_equity inputs cash_only).blocked ≡ true))

  targets_kept :
      (market_values : Dict F) (symbols : List Text)
      → All (IsHeld market_values) (map (held_target market_values) symbols)
  targets_kept market_values [] = tt
  targets_kept market_values (s ∷ symbols) = (refl, targets_kept market_values symbols)

  held-symbols :
      (market_values : Dict F) (symbols : List Text)
      → map symbol_of (map (held_target market_values) symbols) ≡ symbols
  held-symbols market_values [] = refl
  held-symbols market_values (s ∷ symbols) = ap (λ t. s ∷ t) (held-symbols market_values symbols)

  hold-HoldsAll :
      (inputs : PortfolioInputs F)
      → HoldsAll inputs (keys inputs.market_values) (build_hold_current_value_decision inputs)
  unfolding build_hold_current_value_decision one_of
  hold-HoldsAll inputs = (
    ground (arith, text_eq_refl no_execute),
    targets_kept inputs.market_values (sorted_set (keys inputs.market_values)),
    All-one_of (keys inputs.market_values) _ (λ s h.
        rw
          (
            held-symbols inputs.market_values (sorted_set (keys inputs.market_values)),
            sorted_set-one_of s (keys inputs.market_values),
          )
          h),
  )

  zero-symbols :
      (positions : List (PositionTarget F))
      → map symbol_of (map zero_target positions) ≡ map symbol_of positions
  zero-symbols [] = refl
  zero-symbols (p ∷ positions) = ap (λ t. p.symbol ∷ t) (zero-symbols positions)

  zero-All : (positions : List (PositionTarget F)) → All (IsHeld []) (map zero_target positions)
  unfolding get
  zero-All [] = tt
  zero-All (p ∷ positions) = (refl, zero-All positions)

  zero_equity-HoldsAll :
      (decision : StrategyDecision F) (market_values : Dict F) (total cash : F)
      → let inputs : PortfolioInputs F = record {
        market_values = market_values;
        total_equity = total;
        liquid_cash = cash;
      } in
        HoldsAll inputs
          (names_of false inputs decision)
          (build_zero_equity_no_execute_decision decision inputs)
  unfolding build_zero_equity_no_execute_decision unique one_of keys
  zero_equity-HoldsAll decision [] total cash = (
    ground (
      arith,
      unique_from-one_of no_execute [] (decision.risk_flags ++ no_execute ∷ []),
      one_of-append_last no_execute decision.risk_flags,
    ),
    zero-All decision.positions,
    rw (zero-symbols decision.positions)
        (All-one_of (map symbol_of decision.positions) _ (λ s h. h)),
  )
  zero_equity-HoldsAll decision (entry ∷ rest) total cash =
      hold-HoldsAll
        (record { market_values = entry ∷ rest; total_equity = total; liquid_cash = cash })

  flagged-HoldsAll :
      (kit : MapperKit F) (decision : StrategyDecision F) (inputs : PortfolioInputs F)
      (cash_only flagged : Bool)
      → (flagged ≡ true)
        ⊎ ((kit.target_mode decision ≡ weight)
            × ((kit.translation_equity inputs cash_only).blocked ≡ true))
      → HoldsAll inputs
          (names_of flagged inputs decision)
          (if flagged
            then (build_hold_current_value_decision inputs, none)
            else normalize_mode kit decision inputs cash_only (kit.target_mode decision)).0
  unfolding normalize_mode translate_weights
  flagged-HoldsAll kit decision inputs cash_only true h = hold-HoldsAll inputs
  flagged-HoldsAll kit decision inputs cash_only false (inl h) = cc
  flagged-HoldsAll kit decision inputs cash_only false (inr h) =
      simp (h.0, h.1)
        (zero_equity-HoldsAll decision inputs.market_values inputs.total_equity inputs.liquid_cash)

  -- A decision that carries the flag `no_execute`, or whose weights have no equity to be taken of,
  -- is mapped to one that carries the flag, whose targets are what is held of their symbols, and that
  -- has a target for every symbol that is held, or for every symbol of the decision where nothing is
  -- held and it has no flag.
  pub normalize_to_value_decision-HoldsAll :
      (kit : MapperKit F) (decision : StrategyDecision F) (inputs : PortfolioInputs F)
      (cash_only : Bool)
      → IsRefused kit decision inputs cash_only
      → HoldsAll inputs
          (names_of (one_of no_execute decision.risk_flags) inputs decision)
          (normalize_to_value_decision kit decision inputs cash_only).0
  unfolding normalize_to_value_decision
  normalize_to_value_decision-HoldsAll kit decision inputs cash_only h =
      flagged-HoldsAll kit decision inputs cash_only (one_of no_execute decision.risk_flags) h
