-- ===== src/Execution/Tests.antt =====
-- A small account over whole cents: the cycle run on it, and the theorems at it.
use firstrade_platform.Prelude.{
  get, text_eq, ℕ, ◌<◌, ◌≡◌, refl, ◌⊎◌, arith, Bool, true, false, Option, none, some, List, [], ◌∷◌,
  Text, codes, Dict, ℤ, pos, cents_float, Cents-IsOrdered, fmax, ◌-ℤ◌, ◌+ℤ◌, get_or, one_of, flt,
  fle,
}
use firstrade_platform.Execution.Plan.{Plan, Config}
use firstrade_platform.Execution.Sizing.{
  Ratios, BuyRequest, at_least_nought, sell_budget, planned_buy_order_quantity, floor_quantity,
  should_top_up_existing_whole_share_buy,
}
use firstrade_platform.Execution.Sizing.Bounds.{UnderCap, sell_budget-bounds, planned_buy_cases}
use firstrade_platform.Execution.SafeHaven.{zero_small_targets}
use firstrade_platform.Execution.SafeHaven.Substitution.{no_small_haven_left}
use firstrade_platform.Execution.Compatibility.{
  Candidate, Adjusted, Setting, adjustment, retain, bootstrap, adjust_all,
}
use firstrade_platform.Execution.Compatibility.Raises.{adjustment_justified, adjust_all-le}
use firstrade_platform.Execution.Orders.{Intent, Report}
use firstrade_platform.Execution.Submission.{Event, Flow, Ports, state_of}
use firstrade_platform.Execution.Submission.Rules.{Ensures}
use firstrade_platform.Execution.Submission.Claims.{
  IsClaimed, IsClaimedResult, IsUnclaimed, IsUnclaimedResult,
}
use firstrade_platform.Execution.Submission.Unknown.{AllAccepted, IsReconcilable, IsReported}
use firstrade_platform.Execution.Cycle.{execute_value_target_plan}
use firstrade_platform.Execution.Cycle.Precedence.{SellsFirst, sells_precede_buys}
use firstrade_platform.Execution.Cycle.Safety.{
  execute_value_target_plan-IsClaimed, dry_run_asks_no_claim, unknown_order_is_last,
  cycle_done_exactly,
}

abbrev dollars_of : ℕ → ℤ
dollars_of n = cents_float.of_ℕ n

abbrev pub small_plan : Plan ℤ
small_plan = record {
  allocation = record {
    targets = (codes "SOXX", dollars_of 250) ∷ (codes "QQQ", dollars_of 0) ∷ [];
    risk_symbols = codes "SOXX" ∷ codes "QQQ" ∷ [];
    income_symbols = [];
    safe_haven_symbols = codes "BOXX" ∷ [];
    whole_share_cash_notes = [];
    whole_share_substituted = [];
    safe_haven_substituted = [];
    whole_share_retained = [];
    whole_share_bootstrap = [];
  };
  portfolio = record {
    market_values = (codes "QQQ", dollars_of 200) ∷ [];
    sellable_quantities = (codes "QQQ", dollars_of 2) ∷ [];
    quantities = (codes "QQQ", dollars_of 2) ∷ [];
    liquid_cash = some (dollars_of 300);
    cash_sweep_symbol = [];
    total_equity = some (dollars_of 500);
    total_strategy_equity = none;
  };
  execution = record {
    current_min_trade = some (dollars_of 5);
    trade_threshold_value = none;
    investable_cash = none;
    reserved_cash = none;
  };
}

abbrev pub config_of : Bool → Config ℤ
config_of dry = record {
  dry_run_only = dry;
  limit_sell_discount = cents_float.decimal 995 3;
  limit_buy_premium = dollars_of 1;
  limit_buy_premium_by_symbol = [];
  max_order_notional_usd = none;
  safe_haven_cash_substitute_threshold_usd = dollars_of 1000;
  cash_only_execution = true;
  notional_buy_execution = false;
}

-- A broker that answers every request with one status.
abbrev answering : Text → List (Event ℤ) → Intent ℤ → Option (Report ℤ)
answering status before i = some (record {
  symbol = i.symbol;
  side = i.side;
  quantity = pos 0;
  status = status;
  broker_order_id = codes "1";
  raw_payload = [];
})

abbrev pub ports_of : Text → Ports ℤ
ports_of status = record {
  get_quote = λ symbol. some (dollars_of 100);
  submit_order = answering status;
  before_live_submission = some (λ events. some true);
  ratios = record { retention_symbols = []; kit_retention_ratio = []; kit_bootstrap_ratio = [] };
  cash_compatibility = λ targets prices candidates havens. record {
    targets = targets;
    whole_share_substituted_symbols = [];
    safe_haven_cash_substituted_symbols = [];
    cash_substitution_notes = [];
  };
  confirmed_sell_release_value = λ orders. pos 0;
  drift_notes = λ targets values quantities prices orders total cash. [];
}

abbrev live_run : Flow ℤ
live_run = execute_value_target_plan (config_of false) (ports_of (codes "Filled")) small_plan

abbrev dry_run : Flow ℤ
dry_run = execute_value_target_plan (config_of true) (ports_of (codes "Previewed")) small_plan

-- An order whose outcome the broker leaves open.
abbrev open_run : Flow ℤ
open_run = execute_value_target_plan (config_of false) (ports_of (codes "timeout")) small_plan

execute_value_target_plan-IsClaimed_example :
    Ensures (λ s. ⊥) IsClaimedResult (λ s. IsClaimed s.events) live_run
execute_value_target_plan-IsClaimed_example =
    execute_value_target_plan-IsClaimed (config_of false) (ports_of (codes "Filled")) small_plan
      refl

dry_run_asks_no_claim_example :
    Ensures (λ s. ⊥) IsUnclaimedResult (λ s. IsUnclaimed s.events) dry_run
dry_run_asks_no_claim_example =
    dry_run_asks_no_claim (config_of true) (ports_of (codes "Previewed")) small_plan refl

unknown_order_is_last_example :
    Ensures (λ s. ⊥) (λ r s. IsReconcilable r) (λ s. AllAccepted s.submitted) open_run
unknown_order_is_last_example =
    unknown_order_is_last (config_of false) (ports_of (codes "timeout")) small_plan

sell_budget-bounds_example :
    let b =
      sell_budget
        (dollars_of 300)
        (dollars_of 0)
        (dollars_of 2)
        (dollars_of 100)
        (some (dollars_of 150)) in
    ((fle b (cents_float.times (at_least_nought (dollars_of 2)) (at_least_nought (dollars_of 100)))
        ≡ true)
      ⊎ (b ≡ pos 0))
    × UnderCap (some (dollars_of 150)) b
    × (fle (pos 0) b ≡ true)
sell_budget-bounds_example =
    sell_budget-bounds Cents-IsOrdered (dollars_of 300) (dollars_of 0) (dollars_of 2)
      (dollars_of 100) (some (dollars_of 150))

-- A share is held, and the target is worth almost two.
abbrev top_up : BuyRequest ℤ
top_up = record {
  target_value = dollars_of 190;
  current_value = dollars_of 100;
  quantity = dollars_of 1;
  buy_budget = dollars_of 90;
  available_buying_power = dollars_of 120;
  limit_price = dollars_of 100;
  allow_top_up = true;
}

top_up-quantity : planned_buy_order_quantity top_up ≡ 1
unfolding planned_buy_order_quantity at_least_nought floor_quantity
    should_top_up_existing_whole_share_buy fmax ◌-ℤ◌ ◌+ℤ◌
top_up-quantity = refl

top_up-planned : 0 < planned_buy_order_quantity top_up
top_up-planned = omega (arith, top_up-quantity)

planned_buy_cases_example :
    let paid_for = cents_float.whole (cents_float.over (dollars_of 90) (dollars_of 100)) in
    (flt (pos 0) (dollars_of 100) ≡ true)
    × ((planned_buy_order_quantity top_up ≡ paid_for)
        ⊎ ((planned_buy_order_quantity top_up ≡ 1)
            × (paid_for ≡ 0)
            × (true ≡ true)
            × (fle (dollars_of 100) (dollars_of 120) ≡ true)
            × (fle (dollars_of 1) (dollars_of 1) ≡ true)
            × (0 < cents_float.whole (dollars_of 1))
            × (flt (pos 0) (dollars_of 90) ≡ true)
            × (flt (dollars_of 90) (dollars_of 100) ≡ true)
            × (fle
                  (cents_float.plus (dollars_of 1) (cents_float.decimal 5 1))
                  (cents_float.over (dollars_of 190) (dollars_of 100))
                ≡ true)))
unfolding fmax ◌-ℤ◌
planned_buy_cases_example = planned_buy_cases top_up top_up-planned

abbrev haven_targets : Dict ℤ
haven_targets = (codes "BOXX", dollars_of 400) ∷ (codes "SOXX", dollars_of 900) ∷ []

no_small_haven_left_example :
    get_or
      (zero_small_targets (dollars_of 1000) (codes "BOXX" ∷ []) (haven_targets, false)).0
      (codes "BOXX")
      (pos 0)
    ≡ pos 0
unfolding one_of text_eq get
no_small_haven_left_example =
    no_small_haven_left Cents-IsOrdered (dollars_of 1000) (codes "BOXX") (codes "BOXX" ∷ [])
      haven_targets

abbrev no_ratios : Ratios ℤ
no_ratios = record { retention_symbols = []; kit_retention_ratio = []; kit_bootstrap_ratio = [] }

abbrev held_candidate : Candidate ℤ
held_candidate = record {
  target_value = dollars_of 95;
  price = dollars_of 100;
  limit_price = dollars_of 101;
  held = dollars_of 1;
  buying_power = dollars_of 500;
}

adjustment_justified_example :
    (adjustment no_ratios (codes "SOXX") held_candidate ≡ retain
      → (fle (dollars_of 1) (dollars_of 1) ≡ true)
        × (flt (pos 0) (dollars_of 95) ≡ true)
        × (flt (dollars_of 95) (dollars_of 100) ≡ true))
    × (adjustment no_ratios (codes "SOXX") held_candidate ≡ bootstrap
        → (fle (dollars_of 1) (pos 0) ≡ true)
          × (fle (dollars_of 101) (dollars_of 500) ≡ true)
          × (flt (pos 0) (dollars_of 95) ≡ true)
          × (flt (dollars_of 95) (dollars_of 101) ≡ true))
adjustment_justified_example = adjustment_justified no_ratios (codes "SOXX") held_candidate

abbrev small_setting : Setting ℤ
small_setting = record {
  ratios = no_ratios;
  premium = dollars_of 1;
  premium_by_symbol = [];
  prices = (codes "SOXX", dollars_of 100) ∷ [];
  quantities = (codes "SOXX", dollars_of 1) ∷ [];
  buying_power = dollars_of 500;
}

abbrev before_loop : Adjusted ℤ
before_loop = record {
  targets = (codes "SOXX", dollars_of 95) ∷ [];
  retained_symbols = [];
  bootstrap_symbols = [];
}

adjust_all-le_example :
    fle (get_or (before_loop.targets) (codes "SOXX") (pos 0)) (
      get_or
        (adjust_all small_setting (codes "SOXX" ∷ []) before_loop).targets
        (codes "SOXX")
        (pos 0))
    ≡ true
adjust_all-le_example =
    adjust_all-le Cents-IsOrdered small_setting (codes "SOXX" ∷ []) (codes "SOXX") before_loop

cycle_done_exactly_example :
    Ensures (λ s. ⊥) (λ r s. IsReported r) (λ s. AllAccepted s.submitted) live_run
cycle_done_exactly_example =
    cycle_done_exactly (config_of false) (ports_of (codes "Filled")) small_plan

sells_precede_buys_example : SellsFirst (state_of live_run).events
sells_precede_buys_example =
    sells_precede_buys (config_of false) (ports_of (codes "Filled")) small_plan
