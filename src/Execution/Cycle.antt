-- ===== src/Execution/Cycle.antt =====
-- application/execution_service.py: `execute_value_target_plan`, phase by phase.
pub mod Phases
pub mod Safety
pub mod Precedence
use firstrade_platform.Prelude.{
  ℕ, Bool, true, false, not, ◌&&◌, ◌||◌, Option, none, some, List, [], ◌∷◌, ◌++◌, Text, codes,
  text_eq, sorted_set, upper, symbol_key, Dict, get, get_or, put, keys, rekey, Float, flt, fle,
  fmin, fmax, fabs, or_num, any, keep, is_empty, ltb, if◌then◌else◌,
}
use firstrade_platform.Execution.Plan.{Note, Allocation, Portfolio, Plan, Config}
use firstrade_platform.Execution.Sizing.{
  limit_buy_price, floor_quantity, sell_budget, planned_buy_order_quantity, BuyRequest, quote_price,
  apply_notional_cash_buffer, min_notional_buy_usd, at_least_nought,
}
use firstrade_platform.Execution.SafeHaven.{
  small_account_drift_reference_targets, substitute_small_safe_haven_targets_with_cash,
}
use firstrade_platform.Execution.Compatibility.{apply_small_account_whole_share_compatibility}
use firstrade_platform.Execution.Orders.{
  Side, Amount, shares, dollars, Order, Skip, below_trade_threshold, quote_unavailable,
  sell_quantity_zero, pending_sell_release, negative_cash, buy_notional_below_minimum,
  insufficient_cash_for_whole_share, buy_quantity_zero, CycleResult, is_broker_rejection,
  cycle_pending, cycle_done,
}
use firstrade_platform.Execution.Submission.{
  Delta, Cycle, Flow, go, give, raise, Ports, after, each, submit_order_intent,
  submit_notional_buy_intent, attempt,
}

-- The local variables of the function that its loops only read.
pub record Facts (F : Type 0) : Type 0 where
  pub targets : Dict F
  pub market_values : Dict F
  pub sellable_quantities : Dict F
  pub current_quantities : Dict F
  pub threshold : F
  pub base_cash : F
  pub raw_liquid_cash : F
  pub order_notional_cap : Option F
  pub notes : List Note
  pub reference_targets : Dict F
  pub total_value : F

module _ {F : Type 0} ⦃d : Float F⦄ where
  open d use {nought, round, plus, minus, times, over, of_ℕ}

  unfoldable pub prepared_plan : Config F → Ports F → Plan F → Plan F
  prepared_plan cfg p plan =
      let substituted =
        substitute_small_safe_haven_targets_with_cash plan
          cfg.safe_haven_cash_substitute_threshold_usd in
      if cfg.notional_buy_execution
      then substituted
      else apply_small_account_whole_share_compatibility p.cash_compatibility p.ratios p.get_quote
          cfg.limit_buy_premium cfg.limit_buy_premium_by_symbol substituted

  -- `max(0.0, cap)` of a positive cap
  unfoldable pub order_notional_cap_of : Option F → Option F
  order_notional_cap_of none = none
  order_notional_cap_of (some cap) = if flt nought cap then some (fmax nought cap) else none

  unfoldable pub facts_of : Config F → Ports F → Plan F → Facts F
  facts_of cfg p plan =
      let adjusted = prepared_plan cfg p plan in
      let substituted =
        substitute_small_safe_haven_targets_with_cash plan
          cfg.safe_haven_cash_substitute_threshold_usd in
      let portfolio = adjusted.portfolio in
      let sellable = rekey upper portfolio.sellable_quantities in
      let cash = or_num portfolio.liquid_cash nought in
      record {
        targets = rekey upper adjusted.allocation.targets;
        market_values = rekey upper portfolio.market_values;
        sellable_quantities = sellable;
        current_quantities =
            rekey upper (if is_empty portfolio.quantities then sellable else portfolio.quantities);
        threshold =
            or_num adjusted.execution.current_min_trade
              (or_num adjusted.execution.trade_threshold_value nought);
        base_cash = or_num adjusted.execution.investable_cash cash;
        raw_liquid_cash = cash;
        order_notional_cap = order_notional_cap_of cfg.max_order_notional_usd;
        notes = adjusted.allocation.whole_share_cash_notes;
        reference_targets =
            small_account_drift_reference_targets substituted.allocation plan.portfolio;
        total_value = or_num portfolio.total_equity (or_num portfolio.total_strategy_equity nought);
      }

  unfoldable pub initial : Facts F → Cycle F
  initial f = record {
    submitted = [];
    skipped = [];
    reference_prices = [];
    tradable_deltas = [];
    pending_sell_release_symbols = [];
    submitted_sell_orders = [];
    sell_submitted = false;
    investable_cash = fmax nought f.base_cash;
    events = [];
  }

  -- The first loop: one symbol is below the threshold, without a quote, or tradable.
  unfoldable pub classify : Ports F → Facts F → Text → Cycle F → Cycle F
  classify p f symbol s =
      let delta_value =
        minus (get_or f.targets symbol nought) (get_or f.market_values symbol nought) in
      if flt (fabs delta_value) f.threshold
      then record s {
        skipped = s.skipped ++ below_trade_threshold symbol (round delta_value 2) ∷ [];
      }
      else elim (quote_price p.get_quote symbol) [
        | none ↦ record s { skipped = s.skipped ++ quote_unavailable symbol ∷ [] }
        | some price ↦ record s {
          reference_prices = put s.reference_prices symbol price;
          tradable_deltas =
              s.tradable_deltas
              ++ record { symbol = symbol; value = delta_value; price = price } ∷ [];
        }
      ]

  unfoldable pub classify_all : Ports F → Facts F → List Text → Cycle F → Cycle F
  classify_all p f [] s = s
  classify_all p f (x ∷ xs) s = classify_all p f xs (classify p f x s)

  unfoldable pub traded_symbols : Facts F → List Text
  traded_symbols f = sorted_set (keys f.targets ++ keys f.market_values)

  unfoldable pub sell_quantity : Facts F → Delta F → ℕ
  sell_quantity f x = floor_quantity (
      over
        (sell_budget x.value (get_or f.targets x.symbol nought)
          (get_or f.sellable_quantities x.symbol nought) x.price f.order_notional_cap)
        x.price)

  -- the cap as a skip shows it
  abbrev pub rounded_cap : Option F → Option F
  rounded_cap none = none
  rounded_cap (some cap) = some (round cap 2)

  abbrev pub await_release : Text → Cycle F → Cycle F
  await_release symbol s = record s {
    pending_sell_release_symbols = s.pending_sell_release_symbols ++ symbol ∷ [];
  }

  -- The body of the sell loop.
  unfoldable pub sell_step : Config F → Ports F → Facts F → Delta F → Cycle F → Flow F
  sell_step cfg p f x s =
      let quantity = sell_quantity f x in
      if not (ltb 0 quantity)
      then go (record (await_release x.symbol s) {
        skipped = s.skipped ++ sell_quantity_zero x.symbol (rounded_cap f.order_notional_cap) ∷ [];
      })
      else attempt cfg p f.notes (await_release x.symbol)
          (λ order t. record t {
            submitted_sell_orders = t.submitted_sell_orders ++ order ∷ [];
            sell_submitted = true;
          })
          x.symbol
          (submit_order_intent x.symbol quantity (times x.price cfg.limit_sell_discount) Side.sell
            cfg.max_order_notional_usd)
          s

  unfoldable pub negative_deltas : List (Delta F) → List (Delta F)
  negative_deltas = keep (λ x. flt x.value nought)

  unfoldable pub positive_deltas : List (Delta F) → List (Delta F)
  positive_deltas = keep (λ x. flt nought x.value)

  unfoldable pub sell_phase : Config F → Ports F → Facts F → Cycle F → Flow F
  sell_phase cfg p f s = each (sell_step cfg p f) (negative_deltas s.tradable_deltas) s

  -- The cash with the confirmed releases of the sells.
  unfoldable pub release_cash : Ports F → Facts F → Cycle F → Cycle F
  release_cash p f s = record s {
    investable_cash =
        fmax nought (plus f.base_cash (p.confirmed_sell_release_value s.submitted_sell_orders));
  }

  -- `min(delta, investable cash, cap)`
  unfoldable pub buy_budget_of : Facts F → Delta F → F → F
  buy_budget_of f x cash =
      let budget = fmin x.value cash in
      elim f.order_notional_cap [ none ↦ budget | some cap ↦ fmin budget cap ]

  -- what limits a top-up: the cash, and the cap where there is one
  unfoldable pub buying_power_of : Facts F → F → F
  buying_power_of f cash = elim f.order_notional_cap [ none ↦ cash | some cap ↦ fmin cash cap ]

  abbrev pub limit_price_of : Config F → Delta F → F
  limit_price_of cfg x =
      limit_buy_price x.symbol x.price cfg.limit_buy_premium cfg.limit_buy_premium_by_symbol

  unfoldable pub buy_request : Config F → Facts F → Delta F → F → F → Bool → BuyRequest F
  buy_request cfg f x target cash sell_submitted = record {
    target_value = target;
    current_value = get_or f.market_values x.symbol nought;
    quantity = get_or f.current_quantities x.symbol nought;
    buy_budget = buy_budget_of f x cash;
    available_buying_power = buying_power_of f cash;
    limit_price = limit_price_of cfg x;
    allow_top_up = sell_submitted;
  }

  -- One round of the estimate: the cost so far, and whether a buy needs a pending sell's release.
  unfoldable pub estimate_buy : Config F → Facts F → Cycle F → Delta F → F × Bool → F × Bool
  estimate_buy cfg f s x (cost, needs) =
      let cash = s.investable_cash in
      let budget = buy_budget_of f x cash in
      let buffered = apply_notional_cash_buffer budget cash in
      let target = plus x.value (get_or f.market_values x.symbol nought) in
      let quantity =
        planned_buy_order_quantity (buy_request cfg f x target cash s.sell_submitted) in
      let price = limit_price_of cfg x in
      if cfg.notional_buy_execution
      then (if fle min_notional_buy_usd buffered
          then (plus cost buffered, needs)
          else if fle min_notional_buy_usd x.value
          then (cost, true)
          else (cost, needs))
      else if ltb 0 quantity
      then (plus cost (times (of_ℕ quantity) price), needs)
      else if flt nought x.value && flt (fmax nought budget) price
      then (cost, true)
      else (cost, needs)

  unfoldable pub estimate_buys : Config F → Facts F → Cycle F → List (Delta F) → F × Bool → F × Bool
  estimate_buys cfg f s [] acc = acc
  estimate_buys cfg f s (x ∷ xs) acc = estimate_buys cfg f s xs (estimate_buy cfg f s x acc)

  -- Whether the buys wait for the release of the pending sells.
  unfoldable pub buys_wait_for_release : Config F → Facts F → Cycle F → List (Delta F) → Bool
  buys_wait_for_release cfg f s buys =
      let (cost, needs) = estimate_buys cfg f s buys (nought, false) in
      flt s.investable_cash cost || needs

  unfoldable pub skip_all : (Text → Skip F) → List (Delta F) → Cycle F → Cycle F
  skip_all skip [] s = s
  skip_all skip (x ∷ xs) s =
      skip_all skip xs (record s { skipped = s.skipped ++ skip x.symbol ∷ [] })

  -- The buys that are left after the cash guards, and the state with the others skipped.
  unfoldable pub guard_buys :
      Config F → Facts F → List (Delta F) → Cycle F → List (Delta F) × Cycle F
  guard_buys cfg f buys s =
      if cfg.cash_only_execution
        && not (is_empty buys)
        && not (is_empty s.pending_sell_release_symbols)
      then (if buys_wait_for_release cfg f s buys
          then (
            [],
            skip_all (λ symbol. pending_sell_release symbol s.pending_sell_release_symbols) buys s,
          )
          else (buys, s))
      else if cfg.cash_only_execution && not (is_empty buys) && flt f.raw_liquid_cash nought
      then ([], skip_all (λ symbol. negative_cash symbol (round f.raw_liquid_cash 2)) buys s)
      else (buys, s)

  -- `max(0.0, investable_cash - cost)`
  abbrev pub spend : F → Cycle F → Cycle F
  spend cost t = record t { investable_cash = fmax nought (minus t.investable_cash cost) }

  unfoldable pub notional_buy_step : Config F → Ports F → Facts F → Delta F → Cycle F → Flow F
  notional_buy_step cfg p f x s =
      let budget =
        apply_notional_cash_buffer (buy_budget_of f x s.investable_cash) s.investable_cash in
      if flt budget min_notional_buy_usd
      then go (record s {
        skipped =
            s.skipped
            ++ buy_notional_below_minimum x.symbol (round budget 2) min_notional_buy_usd ∷ [];
      })
      else attempt cfg p f.notes (λ t. t) (λ order t. spend budget t) x.symbol
          (submit_notional_buy_intent x.symbol budget cfg.max_order_notional_usd) s

  -- why no share can be bought
  unfoldable pub buy_skip : Config F → Facts F → Delta F → F → Skip F
  buy_skip cfg f x cash =
      let price = limit_price_of cfg x in
      elim f.order_notional_cap [
        | none ↦
            if flt cash price
            then insufficient_cash_for_whole_share x.symbol (round price 2) (round cash 2)
                (round price 2)
            else buy_quantity_zero x.symbol none
        | some cap ↦ buy_quantity_zero x.symbol (rounded_cap (some cap))
      ]

  unfoldable pub share_buy_step : Config F → Ports F → Facts F → Delta F → Cycle F → Flow F
  share_buy_step cfg p f x s =
      let cash = s.investable_cash in
      let target = get_or f.targets x.symbol nought in
      let quantity =
        planned_buy_order_quantity (buy_request cfg f x target cash s.sell_submitted) in
      let price = limit_price_of cfg x in
      if not (ltb 0 quantity)
      then go (record s { skipped = s.skipped ++ buy_skip cfg f x cash ∷ [] })
      else attempt cfg p f.notes (λ t. t) (λ order t. spend (times (of_ℕ quantity) price) t)
          x.symbol (submit_order_intent x.symbol quantity price Side.buy cfg.max_order_notional_usd)
          s

  unfoldable pub buy_step : Config F → Ports F → Facts F → Delta F → Cycle F → Flow F
  buy_step cfg p f x s =
      if cfg.notional_buy_execution
      then notional_buy_step cfg p f x s
      else share_buy_step cfg p f x s

  unfoldable pub buy_phase : Config F → Ports F → Facts F → Cycle F → Flow F
  buy_phase cfg p f s =
      let (buys, guarded) = guard_buys cfg f (positive_deltas s.tradable_deltas) s in
      each (buy_step cfg p f) buys guarded

  -- `_orders_for_allocation_drift`: a dollar order counts as the shares that it pays for.
  unfoldable pub drift_order : Dict F → Order F → Order F
  drift_order prices order =
      let price = get_or prices (symbol_key order.symbol) nought in
      elim order.amount [
        | shares n limit ↦ order
        | dollars usd ↦
            if flt nought usd && flt nought price
            then record order { quantity = over usd price }
            else order
      ]

  unfoldable pub orders_for_allocation_drift : Dict F → List (Order F) → List (Order F)
  orders_for_allocation_drift prices [] = []
  orders_for_allocation_drift prices (o ∷ os) =
      drift_order prices o ∷ orders_for_allocation_drift prices os

  unfoldable pub notes_of_drift : Ports F → Facts F → Cycle F → List Note
  notes_of_drift p f s =
      if any is_broker_rejection s.skipped
      then []
      else p.drift_notes f.reference_targets f.market_values f.current_quantities s.reference_prices
          (orders_for_allocation_drift s.reference_prices s.submitted) f.total_value
          f.raw_liquid_cash

  -- The result of a cycle that came to its end.
  unfoldable pub finish : Ports F → Facts F → Cycle F → CycleResult F
  finish p f s = record {
    submitted_orders = s.submitted;
    skipped_orders = s.skipped;
    action_done = cycle_done s.submitted;
    broker_submission_done = cycle_pending s.submitted;
    pending_reconciliation = cycle_pending s.submitted;
    execution_notes = f.notes ++ notes_of_drift p f s;
    idempotency_blocked = false;
  }

  unfoldable pub run_cycle : Config F → Ports F → Facts F → Flow F
  run_cycle cfg p f =
      after (sell_phase cfg p f (classify_all p f (traded_symbols f) (initial f)))
        (λ sold. after (buy_phase cfg p f (release_cash p f sold)) (λ s. give (finish p f s) s))

  unfoldable pub execute_value_target_plan : Config F → Ports F → Plan F → Flow F
  execute_value_target_plan cfg p plan = run_cycle cfg p (facts_of cfg p plan)
