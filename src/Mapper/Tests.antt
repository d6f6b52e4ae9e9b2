-- ===== src/Mapper/Tests.antt =====
-- The theorems on mapped decisions at one small account.
use firstrade_platform.Prelude.{
  ℕ, ◌≡◌, refl, inl, Bool, true, false, none, some, List, [], ◌∷◌, Text, codes, ℤ, cents_float,
  Cents-IsOrdered,
}
use firstrade_platform.Mapper.{
  StrategyDecision, PortfolioInputs, Semantics, ExecutionPolicy, TargetMode, MapperKit, Split,
  apply_reserved_cash_policy, normalize_to_value_decision,
}
use firstrade_platform.Mapper.Reserve.{IsReserved, apply_reserved_cash_policy-IsReserved}
use firstrade_platform.Mapper.Held.{HoldsAll, normalize_to_value_decision-HoldsAll}

abbrev dollars_of : ℕ → ℤ
dollars_of n = cents_float.of_ℕ n

abbrev small_inputs : PortfolioInputs ℤ
small_inputs = record {
  market_values = (codes "SOXX", dollars_of 200) ∷ (codes "BOXX", dollars_of 50) ∷ [];
  total_equity = dollars_of 500;
  liquid_cash = dollars_of 250;
}

abbrev small_semantics : Semantics ℤ
small_semantics = record {
  trade_threshold_value = dollars_of 100;
  reserved_cash = some (dollars_of 10);
  current_min_trade = none;
  investable_cash = none;
}

abbrev tenth_reserved : ExecutionPolicy ℤ
tenth_reserved = record {
  reserved_cash_floor_usd = some (dollars_of 20);
  reserved_cash_ratio = some (cents_float.decimal 1 1);
  cash_only_execution = true;
}

apply_reserved_cash_policy-IsReserved_example :
    IsReserved Cents-IsOrdered small_semantics small_inputs
      (some tenth_reserved)
      (apply_reserved_cash_policy small_semantics small_inputs (some tenth_reserved)).reserved_cash
      (apply_reserved_cash_policy small_semantics small_inputs
        (some tenth_reserved)).investable_cash
apply_reserved_cash_policy-IsReserved_example =
    apply_reserved_cash_policy-IsReserved Cents-IsOrdered small_semantics small_inputs
      (some tenth_reserved)

abbrev small_kit : MapperKit ℤ
small_kit = record {
  target_mode = λ decision. TargetMode.value;
  translation_equity = λ inputs cash_only. record {
    total_equity = inputs.total_equity;
    blocked = false;
    deleverage = false;
  };
  translate = λ decision deleverage equity. decision;
  split = λ decision threshold. Split.parts small_semantics;
}

abbrev refused_decision : StrategyDecision ℤ
refused_decision = record {
  positions =
      record {
        symbol = codes "SOXX";
        amount = dollars_of 500;
        role = none;
        order_preference = none;
      }
      ∷ [];
  risk_flags = codes "no_execute" ∷ [];
}

normalize_to_value_decision-HoldsAll_example :
    HoldsAll small_inputs
      (codes "SOXX" ∷ codes "BOXX" ∷ [])
      (normalize_to_value_decision small_kit refused_decision small_inputs true).0
unfolding firstrade_platform.Prelude.one_of firstrade_platform.Prelude.keys
    firstrade_platform.Prelude.text_eq
normalize_to_value_decision-HoldsAll_example =
    normalize_to_value_decision-HoldsAll small_kit refused_decision small_inputs true (inl refl)
