-- ===== src/Execution/Orders.antt =====
-- application/execution_service.py: orders as the broker sees them and as the cycle records them,
-- the skips, the result of a cycle, and the state that the cycle's loops pass on.
pub mod Statuses
use firstrade_platform.Prelude.{
  ℕ, Bool, true, false, not, ◌&&◌, ◌||◌, Option, none, some, List, [], ◌∷◌, ◌++◌, Text, codes,
  text_eq, strip, lower, only_alnum, one_of, Dict, put, Float, fle, flt, or_num, any, all,
  if◌then◌else◌,
}
use firstrade_platform.Execution.Plan.{Note}

pub data Side : Type 0 where
  buy sell : Side

-- A whole number of shares at a limit price, or a market order for an amount of dollars.
pub data Amount (F : Type 0) : Type 0 where
  shares : ℕ → F → Amount F
  dollars : F → Amount F

-- `OrderIntent`, the request to the broker. A day order in every case.
pub record Intent (F : Type 0) : Type 0 where
  pub symbol : Text
  pub side : Side
  pub amount : Amount F
  pub max_notional_usd : Option F

-- `ExecutionReport`, the broker's answer.
pub record Report (F : Type 0) : Type 0 where
  pub symbol : Text
  pub side : Side
  pub quantity : F
  pub status : Text
  pub broker_order_id : Text
  pub raw_payload : Dict Text

-- The dictionary that the cycle keeps of an order.
pub record Order (F : Type 0) : Type 0 where
  pub symbol : Text
  pub side : Side
  pub quantity : F
  pub amount : Amount F
  pub status : Text
  pub broker_order_id : Text
  pub raw_payload : Dict Text

pub data Rejection : Type 0 where
  broker_rejected fractional_trading_disclosure_required : Rejection

-- An entry of `skipped`, one constructor for each reason.
pub data Skip (F : Type 0) : Type 0 where
  below_trade_threshold : Text → F → Skip F
  quote_unavailable : Text → Skip F
  sell_quantity_zero : Text → Option F → Skip F
  duplicate_live_strategy_run : Text → Skip F
  pending_sell_release : Text → List Text → Skip F
  negative_cash : Text → F → Skip F
  buy_notional_below_minimum : Text → F → F → Skip F
  insufficient_cash_for_whole_share : Text → F → F → F → Skip F
  buy_quantity_zero : Text → Option F → Skip F
  rejected : Order F → Rejection → Skip F

-- `ExecutionCycleResult`
pub record CycleResult (F : Type 0) : Type 0 where
  pub submitted_orders : List (Order F)
  pub skipped_orders : List (Skip F)
  pub action_done : Bool
  pub broker_submission_done : Bool
  pub pending_reconciliation : Bool
  pub execution_notes : List Note
  pub idempotency_blocked : Bool

unfoldable pub normalized_status : Text → Text
normalized_status status = only_alnum (lower (strip status))

abbrev pub accepted_order_statuses : List Text
accepted_order_statuses =
    codes "accepted"
    ∷ codes "filled"
    ∷ codes "partiallyfilled"
    ∷ codes "previewed"
    ∷ codes "submitted"
    ∷ []

-- A `refCode` of 1219 in the broker's payload asks for a disclosure.
unfoldable pub payload_rejection : Dict Text → Rejection
payload_rejection [] = broker_rejected
payload_rejection ((key, value) ∷ rest) =
    if text_eq (only_alnum (lower key)) (codes "refcode") && text_eq (strip value) (codes "1219")
    then fractional_trading_disclosure_required
    else payload_rejection rest

module _ {F : Type 0} where
  unfoldable pub order_submission_accepted : Order F → Bool
  order_submission_accepted order = one_of (normalized_status order.status) accepted_order_statuses

  unfoldable pub order_submission_unknown : Order F → Bool
  order_submission_unknown order =
      let status = normalized_status order.status in
      not (one_of status accepted_order_statuses) && not (text_eq status (codes "rejected"))

  unfoldable pub broker_rejection_reason : Order F → Rejection
  broker_rejection_reason order = payload_rejection order.raw_payload

  -- The lists `submitted` and `skipped` after one order, and whether it was accepted.
  unfoldable pub record_order_result :
      Order F → List (Order F) → List (Skip F) → List (Order F) × List (Skip F) × Bool
  record_order_result order submitted skipped =
      if order_submission_accepted order
      then (submitted ++ order ∷ [], skipped, true)
      else if order_submission_unknown order
      then (submitted ++ order ∷ [], skipped, false)
      else (submitted, skipped ++ rejected order (broker_rejection_reason order) ∷ [], false)

  -- the reasons of `_BROKER_REJECTION_SKIP_REASONS`
  unfoldable pub is_broker_rejection : Skip F → Bool
  is_broker_rejection (rejected _ _) = true
  is_broker_rejection _ = false

  unfoldable pub has_status : List Text → Order F → Bool
  has_status statuses order = one_of (normalized_status order.status) statuses

-- The last lines of `execute_value_target_plan`.
abbrev pub pending_statuses : List Text
pending_statuses = codes "accepted" ∷ codes "submitted" ∷ codes "partiallyfilled" ∷ []

abbrev pub completed_statuses : List Text
completed_statuses = codes "previewed" ∷ codes "filled" ∷ []

module _ {F : Type 0} where
  unfoldable pub cycle_pending : List (Order F) → Bool
  cycle_pending submitted = any (has_status pending_statuses) submitted

  unfoldable pub cycle_done : List (Order F) → Bool
  cycle_done [] = false
  cycle_done (order ∷ rest) =
      let submitted = order ∷ rest in
      not (cycle_pending submitted) && all (has_status completed_statuses) submitted
