-- ===== src/Execution/SafeHaven.antt =====
-- application/execution_service.py: the safe-haven symbols of a plan, small safe-haven targets that
-- are left as cash, and the targets that drift notes are measured against.
pub mod Substitution
use firstrade_platform.Prelude.{
  Bool, true, false, not, ◌&&◌, ◌||◌, Option, none, some, List, [], ◌∷◌, ◌++◌, map, Text, Dict, get,
  put, get_or, keys, values, has_key, rekey, unique, symbol_key, one_of, Float, flt, fle, fmax,
  keep, is_empty, if◌then◌else◌,
}
use firstrade_platform.Execution.Plan.{Allocation, Portfolio, Plan}

-- the symbols of a list, normalized, the empty ones left out
unfoldable pub symbol_keys : List Text → List Text
unfolding symbol_key
symbol_keys symbols = keep (λ s. not (is_empty s)) (map symbol_key symbols)

module _ {F : Type 0} where
  unfoldable pub safe_haven_cash_symbols : Portfolio F → Allocation F → List Text
  unfolding symbol_keys unique
  safe_haven_cash_symbols portfolio allocation =
      unique (
        symbol_keys allocation.safe_haven_symbols ++ symbol_keys (portfolio.cash_sweep_symbol ∷ []))

  -- the risk and income symbols of a plan, each once
  unfoldable pub listed_candidates : Allocation F → List Text
  unfolding symbol_keys unique
  listed_candidates allocation =
      unique (symbol_keys (allocation.risk_symbols ++ allocation.income_symbols))

  -- With no symbol listed, every target that is no safe haven is a candidate.
  unfoldable pub reference_candidates : Allocation F → Portfolio F → Dict F → List Text
  unfolding listed_candidates safe_haven_cash_symbols keys one_of
  reference_candidates allocation portfolio targets =
      let listed = listed_candidates allocation in
      let havens = safe_haven_cash_symbols portfolio allocation in
      if is_empty listed then keep (λ s. not (one_of s havens)) (keys targets) else listed

module _ {F : Type 0} ⦃d : Float F⦄ where
  open d use {nought, plus}

  -- `{symbol: targets.get(symbol, 0.0) for symbol in candidates if symbol in targets}`
  unfoldable pub restrict_targets : Dict F → List Text → Dict F
  unfolding put get has_key
  restrict_targets targets [] = []
  restrict_targets targets (s ∷ ss) =
      let rest = restrict_targets targets ss in
      if has_key targets s then (s, get_or targets s nought) ∷ rest else rest

  unfoldable pub small_account_drift_reference_targets : Allocation F → Portfolio F → Dict F
  unfolding reference_candidates restrict_targets rekey symbol_key
  small_account_drift_reference_targets allocation portfolio =
      let targets = rekey symbol_key allocation.targets in
      restrict_targets targets (reference_candidates allocation portfolio targets)

  unfoldable pub positive_total_from : F → List F → F
  unfolding fmax
  positive_total_from total [] = total
  positive_total_from total (v ∷ vs) = positive_total_from (plus total (fmax nought v)) vs

  unfoldable pub positive_target_total : Dict F → F
  unfolding positive_total_from values
  positive_target_total targets = positive_total_from nought (values targets)

  -- `0.0 < target_value < threshold`
  abbrev pub is_small : F → F → Bool
  is_small threshold target = flt nought target && flt target threshold

  -- One round of the loop of `substitute_small_safe_haven_targets_with_cash`: the targets, and
  -- `changed`.
  unfoldable pub zero_small_target : F → Text → Dict F × Bool → Dict F × Bool
  zero_small_target threshold s (targets, changed) =
      if is_small threshold (get_or targets s nought)
      then (put targets s nought, true)
      else (targets, changed)

  unfoldable pub zero_small_targets : F → List Text → Dict F × Bool → Dict F × Bool
  zero_small_targets threshold [] acc = acc
  zero_small_targets threshold (s ∷ ss) acc =
      zero_small_targets threshold ss (zero_small_target threshold s acc)

  unfoldable pub with_targets : Plan F → Dict F → Plan F
  with_targets plan targets = record plan {
    allocation = record (plan.allocation) { targets = targets };
  }

  unfoldable pub substitute_small_safe_haven_targets_with_cash : Plan F → F → Plan F
  unfolding zero_small_targets zero_small_target with_targets safe_haven_cash_symbols rekey
      symbol_key fmax
  substitute_small_safe_haven_targets_with_cash plan threshold_usd =
      let threshold = fmax nought threshold_usd in
      let havens = safe_haven_cash_symbols plan.portfolio plan.allocation in
      let (targets, changed) =
        zero_small_targets threshold havens (rekey symbol_key plan.allocation.targets, false) in
      if fle threshold nought then plan else if changed then with_targets plan targets else plan
