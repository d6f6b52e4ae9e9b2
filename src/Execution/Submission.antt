-- ===== src/Execution/Submission.antt =====
-- application/execution_service.py: the state of one cycle, and how a single order passes the claim
-- callback, goes to the broker and is recorded.
-- `events` is the trace of the outside world, the latest first: each answer of the claim callback
-- and each request that reached the broker.
pub mod Rules
pub mod Claims
pub mod Unknown
pub mod Keeps
use firstrade_platform.Prelude.{
  ℕ, Bool, true, false, not, ◌&&◌, Option, none, some, List, [], ◌∷◌, ◌++◌, Text, Dict, Float, any,
  if◌then◌else◌,
}
use firstrade_platform.Execution.Plan.{Note, Config}
use firstrade_platform.Execution.Sizing.{Ratios}
use firstrade_platform.Execution.Compatibility.{CashCompatibility}
use firstrade_platform.Execution.Orders.{
  Side, Amount, shares, dollars, Intent, Report, Order, Skip, duplicate_live_strategy_run,
  CycleResult, order_submission_accepted, order_submission_unknown, record_order_result,
}

pub data Event (F : Type 0) : Type 0 where
  claimed : Bool → Event F
  sent : Intent F → Event F

-- a symbol to trade: target less current value, and its quote
pub record Delta (F : Type 0) : Type 0 where
  pub symbol : Text
  pub value : F
  pub price : F

pub record Cycle (F : Type 0) : Type 0 where
  pub submitted : List (Order F)
  pub skipped : List (Skip F)
  pub reference_prices : Dict F
  pub tradable_deltas : List (Delta F)
  pub pending_sell_release_symbols : List Text
  pub submitted_sell_orders : List (Order F)
  pub sell_submitted : Bool
  pub investable_cash : F
  pub events : List (Event F)

-- A step goes on, returns the cycle's result early, or raises.
pub data Flow (F : Type 0) : Type 0 where
  go : Cycle F → Flow F
  give : CycleResult F → Cycle F → Flow F
  raise : Cycle F → Flow F

-- The ports of the cycle and the functions of the shared kit. The broker and the claim callback may
-- answer by all that happened before; `none` is an exception of the broker, of the callback or of
-- the quote.
pub record Ports (F : Type 0) : Type 0 where
  pub get_quote : Text → Option F
  pub submit_order : List (Event F) → Intent F → Option (Report F)
  pub before_live_submission : Option (List (Event F) → Option Bool)
  pub ratios : Ratios F
  pub cash_compatibility : Dict F → Dict F → List Text → List Text → CashCompatibility F
  pub confirmed_sell_release_value : List (Order F) → F
  pub drift_notes : Dict F → Dict F → Dict F → Dict F → List (Order F) → F → F → List Note

-- The claim is granted, refused, or there is an exception: of the callback, or for the lack of one.
pub data Permission (F : Type 0) : Type 0 where
  granted : List (Event F) → Permission F
  denied : List (Event F) → Permission F
  unconfigured : Permission F

module _ {F : Type 0} where
  unfoldable pub state_of : Flow F → Cycle F
  state_of (go s) = s
  state_of (give r s) = s
  state_of (raise s) = s

  unfoldable pub after : Flow F → (Cycle F → Flow F) → Flow F
  after (go s) k = k s
  after (give r s) k = give r s
  after (raise s) k = raise s

  -- a `for` loop whose body may return or raise
  unfoldable pub each {κ} : {A : Type κ} → (A → Cycle F → Flow F) → List A → Cycle F → Flow F
  each f [] s = go s
  each f (x ∷ xs) s = after (f x s) (λ t. each f xs t)

  -- the callback's answer, which becomes an event
  unfoldable pub answer : Option Bool → List (Event F) → Permission F
  answer none events = unconfigured
  answer (some true) events = granted (claimed true ∷ events)
  answer (some false) events = denied (claimed false ∷ events)

  unfoldable pub ask_claim : Option (List (Event F) → Option Bool) → List (Event F) → Permission F
  ask_claim none events = unconfigured
  ask_claim (some ask) events = answer (ask events) events

  -- `_may_submit_live_order`
  unfoldable pub may_submit_live_order : Bool → Ports F → List (Event F) → Permission F
  may_submit_live_order true p events = granted events
  may_submit_live_order false p events = ask_claim p.before_live_submission events

  -- `_submission_claim_unavailable`
  unfoldable pub submission_claim_unavailable : List Note → Text → Cycle F → Flow F
  submission_claim_unavailable notes symbol s =
      let skipped = s.skipped ++ duplicate_live_strategy_run symbol ∷ [] in
      give
        (record {
          submitted_orders = s.submitted;
          skipped_orders = skipped;
          action_done = false;
          broker_submission_done = false;
          pending_reconciliation = false;
          execution_notes = notes;
          idempotency_blocked = true;
        })
        (record s { skipped = skipped })

  -- `_unknown_submission_result`
  unfoldable pub unknown_submission_result : List Note → Cycle F → CycleResult F
  unknown_submission_result notes s = record {
    submitted_orders = s.submitted;
    skipped_orders = s.skipped;
    action_done = false;
    broker_submission_done = any order_submission_accepted s.submitted;
    pending_reconciliation = true;
    execution_notes = notes;
    idempotency_blocked = false;
  }

module _ {F : Type 0} ⦃d : Float F⦄ where
  open d use {round}

  -- the dictionary that `_submit_order` and `_submit_notional_buy_order` return
  abbrev rounded : Amount F → Amount F
  rounded (shares n price) = shares n (round price 2)
  rounded (dollars usd) = dollars (round usd 2)

  unfoldable pub order_of : Intent F → Report F → Order F
  order_of i report = record {
    symbol = report.symbol;
    side = report.side;
    quantity = report.quantity;
    amount = i.amount;
    status = report.status;
    broker_order_id = report.broker_order_id;
    raw_payload = report.raw_payload;
  }

  unfoldable pub submit_order_intent : Text → ℕ → F → Side → Option F → Intent F
  submit_order_intent symbol quantity limit_price side cap = record {
    symbol = symbol;
    side = side;
    amount = rounded (shares quantity limit_price);
    max_notional_usd = cap;
  }

  unfoldable pub submit_notional_buy_intent : Text → F → Option F → Intent F
  submit_notional_buy_intent symbol notional_usd cap = record {
    symbol = symbol;
    side = Side.buy;
    amount = rounded (dollars notional_usd);
    max_notional_usd = cap;
  }

  -- The state with the order in its list, and with what the loop adds where it is accepted.
  unfoldable pub recorded : (Order F → Cycle F → Cycle F) → Order F → Cycle F → Cycle F
  recorded on_accepted order s =
      let (submitted, skipped, accepted) = record_order_result order s.submitted s.skipped in
      let noted = record s { submitted = submitted; skipped = skipped } in
      if accepted then on_accepted order noted else noted

  -- An outcome that is unknown ends the cycle.
  unfoldable pub settle : List Note → (Order F → Cycle F → Cycle F) → Order F → Cycle F → Flow F
  settle notes on_accepted order s =
      let noted = recorded on_accepted order s in
      if order_submission_unknown order
      then give (unknown_submission_result notes noted) noted
      else go noted

  -- What the broker answers to a request that has reached it.
  unfoldable pub receive :
      List Note
      → (Cycle F → Cycle F)
      → (Order F → Cycle F → Cycle F)
      → Intent F
      → Cycle F
      → Option (Report F)
      → Flow F
  receive notes on_sent on_accepted intent reached none = raise reached
  receive notes on_sent on_accepted intent reached (some report) =
      settle notes on_accepted (order_of intent report) (on_sent reached)

  -- The request goes to the broker; `on_sent` is what the loop writes as soon as it returns.
  unfoldable pub place :
      Ports F
      → List Note
      → (Cycle F → Cycle F)
      → (Order F → Cycle F → Cycle F)
      → Intent F
      → Cycle F
      → Flow F
  place p notes on_sent on_accepted intent s =
      receive notes on_sent on_accepted intent (record s { events = sent intent ∷ s.events })
        (p.submit_order s.events intent)

  -- The claim's answer: an exception, the early return, or the request.
  unfoldable pub proceed :
      Ports F
      → List Note
      → (Cycle F → Cycle F)
      → (Order F → Cycle F → Cycle F)
      → Text
      → Intent F
      → Cycle F
      → Permission F
      → Flow F
  proceed p notes on_sent on_accepted symbol intent s unconfigured = raise s
  proceed p notes on_sent on_accepted symbol intent s (denied events) =
      submission_claim_unavailable notes symbol (record s { events = events })
  proceed p notes on_sent on_accepted symbol intent s (granted events) =
      place p notes on_sent on_accepted intent (record s { events = events })

  -- The three places where the cycle submits an order, from the claim on.
  unfoldable pub attempt :
      Config F
      → Ports F
      → List Note
      → (Cycle F → Cycle F)
      → (Order F → Cycle F → Cycle F)
      → Text
      → Intent F
      → Cycle F
      → Flow F
  attempt cfg p notes on_sent on_accepted symbol intent s =
      proceed p notes on_sent on_accepted symbol intent s
        (may_submit_live_order cfg.dry_run_only p s.events)
