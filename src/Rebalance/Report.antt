-- ===== src/Rebalance/Report.antt =====
-- application/rebalance_service.py: what `run_strategy_cycle` reports, and the stage that it records.
use firstrade_platform.Prelude.{
  ℕ, Bool, true, false, not, ◌&&◌, ◌||◌, Option, List, [], ◌∷◌, ◌++◌, map, Text, codes, text_eq,
  upper, get, is_empty, length, if◌then◌else◌, or_default,
}
use firstrade_platform.State.Store.{Field, Payload}
use firstrade_platform.State.Runs.{text_of, or_text}
use firstrade_platform.Execution.Plan.{Note}
use firstrade_platform.Execution.Orders.{Order, Skip, CycleResult}

-- An entry of `skipped_orders`: one of the cycle, the strategy's own shortfall, or a repeated run.
pub data RunSkip (F : Type 0) : Type 0 where
  of_cycle : Skip F → RunSkip F
  insufficient_cash : RunSkip F
  duplicate_run : Text → RunSkip F

pub record RunReport (F : Type 0) : Type 0 where
  pub ok : Bool
  pub strategy_run_stage : Text
  pub strategy_run_persisted : Bool
  pub persistence_error : Bool
  pub idempotency_skipped : Bool
  pub submission_claim_blocks_repeat : Bool
  pub submitted_orders : List (Order F)
  pub skipped_orders : List (RunSkip F)
  pub execution_notes : List Note
  pub action_done : Bool
  pub broker_submission_done : Bool
  pub execution_status : Text
  pub orders_pending_count : ℕ
  pub execution_blocked : Bool
  pub execution_block_retryable : Bool
  pub execution_blocking_skips : List (RunSkip F)
  pub funding_blocked : Bool
  pub repeat_funding_blocked : Bool
  pub error : Bool

-- The functions of the shared kit that a run calls, and the JSON values that its lists become.
pub record RunKit (F : Type 0) : Type 0 where
  pub is_terminal : Text → Bool
  -- dry run, execution blocked, funding block, action done
  pub resolve_stage : Bool → Bool → Bool → Bool → Text
  pub blocking_skips : List (RunSkip F) → List (RunSkip F)
  pub is_funding_block : List (RunSkip F) → Bool
  pub portfolio : Field
  pub metadata : Field
  pub plan : Field
  pub orders : List (Order F) → Field
  pub skips : List (RunSkip F) → Field
  pub notes : List Note → Field
  pub count : ℕ → Field

abbrev pub pending_submission : Text
pending_submission = codes "PENDING_SUBMISSION"

abbrev pub stage_of : Payload → Text
stage_of latest = or_text (text_of (get latest (codes "stage"))) pending_submission

module _ {F : Type 0} where
  -- a report without orders
  unfoldable pub skipped_report : Text → Bool → Bool → Bool → List (RunSkip F) → RunReport F
  skipped_report stage claim_blocks persisted error skipped = record {
    ok = true;
    strategy_run_stage = stage;
    strategy_run_persisted = persisted;
    persistence_error = error;
    idempotency_skipped = true;
    submission_claim_blocks_repeat = claim_blocks;
    submitted_orders = [];
    skipped_orders = skipped;
    execution_notes = [];
    action_done = false;
    broker_submission_done = false;
    execution_status = [];
    orders_pending_count = 0;
    execution_blocked = false;
    execution_block_retryable = false;
    execution_blocking_skips = [];
    funding_blocked = false;
    repeat_funding_blocked = false;
    error = false;
  }

  unfoldable pub cycle_skips : CycleResult F → List (RunSkip F)
  cycle_skips r = map of_cycle r.skipped_orders

  -- The strategy's own shortfall counts only where nothing was submitted.
  unfoldable pub run_skips : Bool → CycleResult F → List (RunSkip F)
  run_skips shortfall r =
      if is_empty r.submitted_orders && shortfall
      then cycle_skips r ++ insufficient_cash ∷ []
      else cycle_skips r

  -- `funding_block`
  unfoldable pub is_terminal_funding_block : RunKit F → List (RunSkip F) → CycleResult F → Bool
  is_terminal_funding_block kit blocking r = kit.is_funding_block blocking && not r.action_done

  -- `expected_funding_skip`
  unfoldable pub is_expected_skip : RunKit F → List (RunSkip F) → CycleResult F → Bool
  is_expected_skip kit blocking r =
      is_terminal_funding_block kit blocking r
      && not r.broker_submission_done
      && is_empty r.submitted_orders
      && not r.pending_reconciliation

  unfoldable pub stage_after : RunKit F → Bool → List (RunSkip F) → CycleResult F → Text
  stage_after kit dry_run blocking r =
      if r.pending_reconciliation
      then codes "PENDING_RECONCILIATION"
      else kit.resolve_stage dry_run (not (is_empty blocking))
          (is_terminal_funding_block kit blocking r) r.action_done

  -- The report on a finished cycle. `claimed` tells whether the run holds the claim.
  unfoldable pub run_report :
      RunKit F → Bool → Bool → Option Payload → Bool → Bool → Bool → CycleResult F → RunReport F
  run_report kit dry_run shortfall existing persisted error claimed r =
      let skipped = run_skips shortfall r in
      let blocking = kit.blocking_skips skipped in
      let is_blocked = not (is_empty blocking) in
      let expected = is_expected_skip kit blocking r in
      let funding = kit.is_funding_block blocking in
      let pending = r.pending_reconciliation in
      record {
        ok = not is_blocked || expected;
        strategy_run_stage = stage_after kit dry_run blocking r;
        strategy_run_persisted = persisted;
        persistence_error = error;
        idempotency_skipped = false;
        submission_claim_blocks_repeat = false;
        submitted_orders = r.submitted_orders;
        skipped_orders = skipped;
        execution_notes = r.execution_notes;
        action_done = r.action_done;
        broker_submission_done = r.broker_submission_done;
        execution_status = if pending then codes "pending_reconciliation" else [];
        orders_pending_count = if pending then length r.submitted_orders else 0;
        execution_blocked = is_blocked;
        execution_block_retryable = is_blocked && not claimed;
        execution_blocking_skips = blocking;
        funding_blocked = funding;
        repeat_funding_blocked =
            funding
            && text_eq (upper (text_of (get (or_default existing []) (codes "stage"))))
                (codes "FUNDING_BLOCKED");
        error = is_blocked && not expected;
      }
