-- ===== src/Rebalance.antt =====
-- application/rebalance_service.py: `run_strategy_cycle` from the mapped plan on, with its bucket.
-- What is read of the settings, the account, the clock and the kit is an argument.
pub mod Report
pub mod Grants
pub mod Kept
pub mod Repeats
mod Tests
use firstrade_platform.Prelude.{
  ℕ, Bool, true, false, not, ◌&&◌, ◌||◌, Option, none, some, List, [], ◌∷◌, ◌++◌, Text, codes,
  text_eq, strip, lower, upper, get, is_empty, any, length, if◌then◌else◌, or_default, Float,
}
use firstrade_platform.State.Store.{Field, null, flag, Payload, Bucket, Result, ok, fault}
use firstrade_platform.State.Keys.{Moment}
use firstrade_platform.State.Runs.{
  RunId, text_of, claim_live_strategy_run, read_live_strategy_run_claim,
  has_effective_live_submission_claim, read_latest_strategy_run_state, is_duplicate_live_run,
  persist_strategy_run_state, Acquired, acquire_submission_claim,
}
use firstrade_platform.State.States.{StateFacts, build_strategy_run_state}
use firstrade_platform.Execution.Plan.{Note, Plan, Config}
use firstrade_platform.Execution.Orders.{Order, Skip, CycleResult}
use firstrade_platform.Execution.Submission.{
  Event, claimed, sent, Cycle, Flow, go, give, raise, Ports,
}
use firstrade_platform.Execution.SafeHaven.{substitute_small_safe_haven_targets_with_cash}
use firstrade_platform.Execution.Cycle.{execute_value_target_plan}
use firstrade_platform.Rebalance.Report.{
  RunReport, RunKit, RunSkip, duplicate_run, stage_of, cycle_skips, skipped_report, run_report,
}

-- The settings and the facts of one run that its steps read.
pub record RunSetup (F : Type 0) : Type 0 where
  pub cfg : Config F
  pub persist_strategy_runs : Bool
  pub mask : Text → Text
  pub prefix : Text
  -- the account's identifier in the keys, the profile and the period
  pub run : RunId
  pub masked_account : Text
  pub strategy_display_name : Text
  pub live_trading_enabled : Bool
  pub session_reused : Bool
  pub now : Moment
  pub insufficient_cash_diagnostic : Bool

pub data RunOutcome (F : Type 0) : Type 0 where
  reported : RunReport F → RunOutcome F
  raised : RunOutcome F

-- How a run ends: the outcome, the bucket, and what its cycle asked and sent, the latest first.
pub record Ended (F : Type 0) : Type 0 where
  pub outcome : RunOutcome F
  pub bucket : Bucket
  pub events : List (Event F)

unfoldable pub answer_of : Result Acquired → Option Bool
answer_of (ok a) = some a.answer
answer_of (fault e) = none

abbrev pub bucket_of : Bucket → Result (Bool × Bucket) → Bucket
bucket_of b (ok (_, after)) = after
bucket_of b (fault e) = b

-- A write that raises is noted, and changes nothing.
abbrev pub tried : Bucket → Result Bucket → Bool × Bucket
tried b (ok after) = (true, after)
tried b (fault e) = (false, b)

abbrev pub or_null : Option Field → Field
or_null none = null
or_null (some field) = field

module _ {F : Type 0} where
  unfoldable pub is_grant : Event F → Bool
  is_grant (claimed b) = b
  is_grant (sent i) = false

  abbrev pub stop : Bucket → List (Event F) → Ended F
  stop b events = record { outcome = raised; bucket = b; events = events }

module _ {F : Type 0} (e : RunSetup F) where
  -- The claim callback on the bucket that the cycle starts with. The closure's flag is set once a
  -- claim was granted.
  unfoldable pub claim_answer : Bucket → List (Event F) → Option Bool
  claim_answer b events = answer_of (
      acquire_submission_claim e.mask e.prefix e.run e.persist_strategy_runs e.now
        (any is_grant events) b)

  unfoldable pub bucket_after : Bucket → List (Event F) → Bucket
  bucket_after b events =
      if any is_grant events
      then bucket_of b (claim_live_strategy_run e.mask e.prefix b e.run e.now)
      else b

  unfoldable pub cycle_ports : Ports F → Bucket → Ports F
  cycle_ports p b = record p {
    before_live_submission = if e.cfg.dry_run_only then none else some (claim_answer b);
  }

  unfoldable pub try_persist : Bucket → Payload → Bool × Bucket
  try_persist b state =
      tried b (persist_strategy_run_state e.prefix b state (some e.run.account) e.now)

  -- The early return of a run whose claim was refused, with the latest state read again.
  unfoldable pub blocked :
      Bool → Bool → CycleResult F → Bucket → List (Event F) → Result (Option Payload) → Ended F
  blocked persisted error r b events (fault x) = stop b events
  blocked persisted error r b events (ok latest) = record {
    outcome =
        reported
          (skipped_report (stage_of (or_default latest [])) false persisted error (cycle_skips r));
    bucket = b;
    events = events;
  }

  abbrev pub repeated : Payload → Bool → Bool → Bool → Bucket → Ended F
  repeated latest claim_blocks persisted error b = record {
    outcome = reported (
        skipped_report (stage_of latest) claim_blocks persisted error
          (duplicate_run e.run.run_period ∷ []));
    bucket = b;
    events = [];
  }

  module _ (kit : RunKit F) where
    unfoldable pub facts_of_stage : Text → StateFacts
    facts_of_stage stage = record {
      stage = stage;
      account = e.masked_account;
      strategy_profile = e.run.strategy_profile;
      strategy_display_name = e.strategy_display_name;
      run_period = e.run.run_period;
      dry_run_only = e.cfg.dry_run_only;
      live_trading_enabled = e.live_trading_enabled;
      session_reused = e.session_reused;
      portfolio_snapshot = kit.portfolio;
      evaluation_metadata = kit.metadata;
      plan = kit.plan;
      submitted_orders = kit.orders [];
      skipped_orders = kit.skips [];
      execution_notes = kit.notes [];
      action_done = false;
      broker_submission_done = false;
      execution_status = [];
      orders_pending_count = kit.count 0;
      error = none;
    }

    -- The state of a finished run.
    unfoldable pub completed_state : RunReport F → Payload
    completed_state r =
        build_strategy_run_state e.mask
          (record (facts_of_stage r.strategy_run_stage) {
            submitted_orders = kit.orders r.submitted_orders;
            skipped_orders = kit.skips r.skipped_orders;
            execution_notes = kit.notes r.execution_notes;
            action_done = r.action_done;
            broker_submission_done = r.broker_submission_done;
            execution_status = r.execution_status;
            orders_pending_count = kit.count r.orders_pending_count;
          })
          e.now

    -- The last write replaces what was noted of the one before.
    unfoldable pub complete : RunReport F → Bucket → List (Event F) → Ended F
    complete r b events =
        let (written, after) = try_persist b (completed_state r) in
        if e.persist_strategy_runs
        then record {
          outcome = reported (record r {
            strategy_run_persisted = written;
            persistence_error = r.persistence_error || not written;
          });
          bucket = after;
          events = events;
        }
        else record { outcome = reported r; bucket = b; events = events }

    unfoldable pub settle_run :
        Option Payload → Bool → Bool → CycleResult F → Bucket → List (Event F) → Ended F
    settle_run existing persisted error r b events =
        if r.idempotency_blocked
        then blocked persisted error r b events (read_latest_strategy_run_state e.prefix b e.run)
        else complete
            (run_report kit e.cfg.dry_run_only e.insufficient_cash_diagnostic existing persisted
              error (any is_grant events) r)
            b events

    -- What follows the execution cycle; the bucket `b` is the one that the cycle started with.
    unfoldable pub after_cycle : Option Payload → Bool → Bool → Bucket → Flow F → Ended F
    after_cycle existing persisted error b (raise s) = stop (bucket_after b s.events) s.events
    after_cycle existing persisted error b (go s) = stop (bucket_after b s.events) s.events
    after_cycle existing persisted error b (give r s) =
        settle_run existing persisted error r (bucket_after b s.events) s.events

    -- The state of a repeated run.
    unfoldable pub duplicate_state : Payload → Payload
    duplicate_state latest =
        let facts = record (facts_of_stage (stage_of latest)) {
          skipped_orders = kit.skips (duplicate_run e.run.run_period ∷ []);
        } in
        build_strategy_run_state e.mask facts e.now
        ++ (codes "idempotency_skipped", flag true)
          ∷ (codes "existing_strategy_run_stage", or_null (get latest (codes "stage")))
          ∷ (codes "existing_strategy_run_as_of", or_null (get latest (codes "as_of")))
          ∷ []

    -- A repeated run: its state is written only where no claim blocks it.
    unfoldable pub duplicate : Option Payload → Bool → Bucket → Ended F
    duplicate existing claim_blocks b =
        let latest = or_default existing [] in
        let (written, after) = try_persist b (duplicate_state latest) in
        if claim_blocks
        then repeated latest true false false b
        else repeated latest false written (not written) after

module _ {F : Type 0} ⦃d : Float F⦄ (e : RunSetup F) (kit : RunKit F) (p : Ports F) where
  unfoldable pub run_cycle_on : Option Payload → Bool → Bool → Plan F → Bucket → Ended F
  run_cycle_on existing persisted error plan b =
      after_cycle e kit existing persisted error b
        (execute_value_target_plan e.cfg (cycle_ports e p b) plan)

  -- The state of the planned orders, then the cycle.
  unfoldable pub planned : Option Payload → Plan F → Bucket → Ended F
  planned existing plan b =
      let state =
        build_strategy_run_state e.mask (facts_of_stage e kit (codes "ORDERS_PLANNED")) e.now in
      let (written, after) = try_persist e b state in
      if e.persist_strategy_runs
      then run_cycle_on existing written (not written) plan after
      else run_cycle_on existing false false plan b

  -- The test for a repeated live run, on what the two reads answer.
  unfoldable pub checked :
      Plan F → Bucket → Result (Option Payload) → Result (Option Payload) → Ended F
  checked plan b (fault x) claim = stop b []
  checked plan b (ok existing) (fault x) = stop b []
  checked plan b (ok existing) (ok claim) =
      if has_effective_live_submission_claim claim || is_duplicate_live_run kit.is_terminal existing
      then duplicate e kit existing (has_effective_live_submission_claim claim) b
      else planned existing plan b

  unfoldable pub run_strategy_cycle : Plan F → Bucket → Ended F
  run_strategy_cycle mapped b =
      let plan =
        substitute_small_safe_haven_targets_with_cash mapped
          e.cfg.safe_haven_cash_substitute_threshold_usd in
      if e.persist_strategy_runs && not e.cfg.dry_run_only
      then checked plan b (read_latest_strategy_run_state e.prefix b e.run)
          (read_live_strategy_run_claim e.prefix b e.run)
      else planned none plan b
