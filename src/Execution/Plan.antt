-- ===== src/Execution/Plan.antt =====
-- The plan that `execute_value_target_plan` reads, field by field, and the result that it returns.
-- Numbers are of a type `F` of floats; a number that the plan may leave out is an `Option`.
use firstrade_platform.Prelude.{Bool, List, Option, Text, Dict}

-- A note of the shared kit, which this code only carries.
abbrev pub Note : Type 0
Note = Text

-- `plan["allocation"]`
pub record Allocation (F : Type 0) : Type 0 where
  pub targets : Dict F
  pub risk_symbols : List Text
  pub income_symbols : List Text
  pub safe_haven_symbols : List Text
  pub whole_share_cash_notes : List Note
  pub whole_share_substituted : List Text
  pub safe_haven_substituted : List Text
  pub whole_share_retained : List Text
  pub whole_share_bootstrap : List Text

-- `plan["portfolio"]`
pub record Portfolio (F : Type 0) : Type 0 where
  pub market_values : Dict F
  pub sellable_quantities : Dict F
  pub quantities : Dict F
  pub liquid_cash : Option F
  pub cash_sweep_symbol : Text
  pub total_equity : Option F
  pub total_strategy_equity : Option F

-- `plan["execution"]`
pub record Execution (F : Type 0) : Type 0 where
  pub current_min_trade : Option F
  pub trade_threshold_value : Option F
  pub investable_cash : Option F
  pub reserved_cash : Option F

pub record Plan (F : Type 0) : Type 0 where
  pub allocation : Allocation F
  pub portfolio : Portfolio F
  pub execution : Execution F

-- The keyword arguments of the cycle that are plain values. A premium table that is missing or no
-- dict is the empty one.
pub record Config (F : Type 0) : Type 0 where
  pub dry_run_only : Bool
  pub limit_sell_discount : F
  pub limit_buy_premium : F
  pub limit_buy_premium_by_symbol : Dict F
  pub max_order_notional_usd : Option F
  pub safe_haven_cash_substitute_threshold_usd : F
  pub cash_only_execution : Bool
  pub notional_buy_execution : Bool
