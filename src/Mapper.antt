-- ===== src/Mapper.antt =====
-- decision_mapper.py: from the decision of a strategy to the value targets and the cash of a plan.
-- The functions of the shared kits are the fields of `MapperKit`.
pub mod Reserve
pub mod Held
mod Tests
use firstrade_platform.Prelude.{
  Bool, true, false, not, ◌&&◌, Option, none, some, List, [], ◌∷◌, ◌++◌, Text, codes, text_eq,
  symbol_key, Dict, keys, get_or, map, one_of, sorted_set, unique, is_empty, or_default, Float,
  fmin, fmax, or_num, if◌then◌else◌,
}

abbrev pub no_execute : Text
no_execute = codes "no_execute"

unfoldable pub symbol_role : Text → Option Text
symbol_role symbol =
    let normalized = symbol_key symbol in
    if one_of normalized (codes "BOXX" ∷ codes "BIL" ∷ [])
    then some (codes "safe_haven")
    else if one_of normalized (codes "QQQI" ∷ codes "SPYI" ∷ [])
    then some (codes "income")
    else none

-- `PositionTarget`; `amount` is the target value, or the weight of a decision in weights.
pub record PositionTarget (F : Type 0) : Type 0 where
  pub symbol : Text
  pub amount : F
  pub role : Option Text
  pub order_preference : Option Text

-- The fields of `StrategyDecision` that the mapper reads, besides its diagnostics.
pub record StrategyDecision (F : Type 0) : Type 0 where
  pub positions : List (PositionTarget F)
  pub risk_flags : List Text

pub record PortfolioInputs (F : Type 0) : Type 0 where
  pub market_values : Dict F
  pub total_equity : F
  pub liquid_cash : F

-- The amounts of `ValueTargetExecutionSemantics`.
pub record Semantics (F : Type 0) : Type 0 where
  pub trade_threshold_value : F
  pub reserved_cash : Option F
  pub current_min_trade : Option F
  pub investable_cash : Option F

-- `firstrade_execution_policy` of the runtime metadata.
pub record ExecutionPolicy (F : Type 0) : Type 0 where
  pub reserved_cash_floor_usd : Option F
  pub reserved_cash_ratio : Option F
  pub cash_only_execution : Bool

pub data TargetMode : Type 0 where
  value weight other : TargetMode

-- The annotations of a decision, the lack of a threshold, or another violation of the contract.
pub data Split (F : Type 0) : Type 0 where
  parts : Semantics F → Split F
  no_threshold : Split F
  invalid : Split F

-- The equity that weights are taken of, and whether execution is blocked.
pub record TranslationEquity (F : Type 0) : Type 0 where
  pub total_equity : F
  pub blocked : Bool
  pub deleverage : Bool

pub record MapperKit (F : Type 0) : Type 0 where
  pub target_mode : StrategyDecision F → TargetMode
  pub translation_equity : PortfolioInputs F → Bool → TranslationEquity F
  pub translate : StrategyDecision F → Bool → F → StrategyDecision F
  pub split : StrategyDecision F → Option F → Split F

abbrev pub or_role : Option Text → Text → Option Text
or_role none symbol = symbol_role symbol
or_role (some role) symbol = if is_empty role then symbol_role symbol else some role

module _ {F : Type 0} ⦃d : Float F⦄ where
  open d use {nought, decimal, plus, minus, times}

  unfoldable pub default_threshold_value : F → F
  default_threshold_value total_equity = fmax (decimal 100 0) (times total_equity (decimal 1 2))

  unfoldable pub resolve_platform_reserved_cash : F → Option (ExecutionPolicy F) → F
  resolve_platform_reserved_cash total_equity none = nought
  resolve_platform_reserved_cash total_equity (some policy) =
      let floor = fmax nought (or_num policy.reserved_cash_floor_usd nought) in
      let ratio = fmax nought (fmin (decimal 1 0) (or_num policy.reserved_cash_ratio nought)) in
      fmax floor (times (fmax nought total_equity) ratio)

  -- The cash before the policy of the platform.
  unfoldable pub base_investable_cash : Semantics F → PortfolioInputs F → F
  base_investable_cash s inputs =
      or_default s.investable_cash
        (fmax nought (minus inputs.liquid_cash (or_num s.reserved_cash nought)))

  unfoldable pub reserved_cash_of : Semantics F → PortfolioInputs F → Option (ExecutionPolicy F) → F
  reserved_cash_of s inputs policy =
      fmax (or_num s.reserved_cash nought)
        (resolve_platform_reserved_cash inputs.total_equity policy)

  unfoldable pub apply_reserved_cash_policy :
      Semantics F → PortfolioInputs F → Option (ExecutionPolicy F) → Semantics F
  apply_reserved_cash_policy s inputs policy =
      let reserved = reserved_cash_of s inputs policy in
      record s {
        reserved_cash = some reserved;
        investable_cash = some (
            fmin (fmax nought (base_investable_cash s inputs))
              (fmax nought (minus inputs.liquid_cash reserved)));
      }

  abbrev pub held_target : Dict F → Text → PositionTarget F
  held_target market_values symbol = record {
    symbol = symbol;
    amount = get_or market_values symbol nought;
    role = symbol_role symbol;
    order_preference = none;
  }

  unfoldable pub build_hold_current_value_decision : PortfolioInputs F → StrategyDecision F
  build_hold_current_value_decision inputs = record {
    positions = map (held_target inputs.market_values) (sorted_set (keys inputs.market_values));
    risk_flags = no_execute ∷ [];
  }

  abbrev pub zero_target : PositionTarget F → PositionTarget F
  zero_target p = record p { amount = nought; role = or_role p.role p.symbol }

  unfoldable pub build_zero_equity_no_execute_decision :
      StrategyDecision F → PortfolioInputs F → StrategyDecision F
  build_zero_equity_no_execute_decision decision inputs =
      if not (is_empty inputs.market_values)
      then build_hold_current_value_decision inputs
      else record {
        positions = map zero_target decision.positions;
        risk_flags = unique (decision.risk_flags ++ no_execute ∷ []);
      }

  -- The amounts of `_build_weight_translation_annotations`.
  unfoldable pub weight_semantics : F → F → Semantics F
  weight_semantics total_equity liquid_cash = record {
    trade_threshold_value = default_threshold_value total_equity;
    reserved_cash = some nought;
    current_min_trade = some (default_threshold_value total_equity);
    investable_cash = some (fmax nought liquid_cash);
  }

  unfoldable pub translate_weights :
      MapperKit F
      → StrategyDecision F
      → PortfolioInputs F
      → TranslationEquity F
      → StrategyDecision F × Option (Semantics F)
  translate_weights kit decision inputs e =
      if e.blocked
      then (
        build_zero_equity_no_execute_decision decision inputs,
        some (weight_semantics inputs.total_equity inputs.liquid_cash),
      )
      else (
        kit.translate decision e.deleverage e.total_equity,
        some (weight_semantics e.total_equity inputs.liquid_cash),
      )

  unfoldable pub normalize_mode :
      MapperKit F
      → StrategyDecision F
      → PortfolioInputs F
      → Bool
      → TargetMode
      → StrategyDecision F × Option (Semantics F)
  normalize_mode kit decision inputs cash_only value = (decision, none)
  normalize_mode kit decision inputs cash_only weight =
      translate_weights kit decision inputs (kit.translation_equity inputs cash_only)
  normalize_mode kit decision inputs cash_only other =
      (build_hold_current_value_decision inputs, none)

  unfoldable pub normalize_to_value_decision :
      MapperKit F
      → StrategyDecision F
      → PortfolioInputs F
      → Bool
      → StrategyDecision F × Option (Semantics F)
  normalize_to_value_decision kit decision inputs cash_only =
      if one_of no_execute decision.risk_flags
      then (build_hold_current_value_decision inputs, none)
      else normalize_mode kit decision inputs cash_only (kit.target_mode decision)

  abbrev pub or_value : Option F → F → Option F
  or_value none x = some x
  or_value (some x) y = some x

  unfoldable pub with_defaults : PortfolioInputs F → Semantics F → Semantics F
  with_defaults inputs s = record s {
    current_min_trade = or_value s.current_min_trade s.trade_threshold_value;
    investable_cash =
        or_value s.investable_cash
          (fmax nought (minus inputs.liquid_cash (or_default s.reserved_cash nought)));
  }

  -- The second reading, with the default threshold; nothing where it raises.
  unfoldable pub second_split : PortfolioInputs F → Split F → Option (Semantics F)
  second_split inputs (parts s) = some (with_defaults inputs s)
  second_split inputs no_threshold = none
  second_split inputs invalid = none

  unfoldable pub first_split :
      MapperKit F → StrategyDecision F → PortfolioInputs F → Split F → Option (Semantics F)
  first_split kit decision inputs (parts s) = some (with_defaults inputs s)
  first_split kit decision inputs no_threshold =
      second_split inputs (kit.split decision (some (default_threshold_value inputs.total_equity)))
  first_split kit decision inputs invalid = none

  unfoldable pub build_annotations :
      MapperKit F → StrategyDecision F → PortfolioInputs F → Option (Semantics F)
  build_annotations kit decision inputs = first_split kit decision inputs (kit.split decision none)

  abbrev pub annotated :
      MapperKit F
      → StrategyDecision F
      → PortfolioInputs F
      → Option (Semantics F)
      → Option (Semantics F)
  annotated kit decision inputs none = build_annotations kit decision inputs
  annotated kit decision inputs (some s) = some s

  abbrev pub is_cash_only : Option (ExecutionPolicy F) → Bool
  is_cash_only none = true
  is_cash_only (some policy) = policy.cash_only_execution

  abbrev pub reserved :
      PortfolioInputs F
      → Option (ExecutionPolicy F)
      → StrategyDecision F
      → Option (Semantics F)
      → Option (StrategyDecision F × Semantics F)
  reserved inputs policy decision none = none
  reserved inputs policy decision (some s) =
      some (decision, apply_reserved_cash_policy s inputs policy)

  -- The decision and the amounts that `map_strategy_decision_to_plan` builds the plan of; nothing
  -- where it raises.
  unfoldable pub map_strategy_decision :
      MapperKit F
      → StrategyDecision F
      → PortfolioInputs F
      → Option (ExecutionPolicy F)
      → Option (StrategyDecision F × Semantics F)
  map_strategy_decision kit decision inputs policy =
      let (normalized, translated) =
        normalize_to_value_decision kit decision inputs (is_cash_only policy) in
      reserved inputs policy normalized (annotated kit normalized inputs translated)
