-- ===== src/Rebalance/Kept.antt =====
-- An effective claim in the bucket, and what a whole run does to it.
use firstrade_platform.Prelude.{
  ◌≡◌, refl, ◌∙◌, Bool, true, false, not, ◌||◌, ◌&&◌, Option, none, some, List, Text, Float, any,
  either,
}
use firstrade_platform.State.Store.{Bucket, Payload, Result, ok, fault}
use firstrade_platform.State.Runs.{
  RunId, claim_live_strategy_run, read_live_strategy_run_claim, has_effective_live_submission_claim,
  read_latest_strategy_run_state, is_duplicate_live_run, persist_strategy_run_state,
}
use firstrade_platform.State.Runs.Kept.{IsPeriodSafe, persist-read, claim-read}
use firstrade_platform.Execution.Plan.{Plan}
use firstrade_platform.Execution.Orders.{CycleResult}
use firstrade_platform.Execution.Cycle.{execute_value_target_plan}
use firstrade_platform.Execution.Submission.{Event, Flow, go, give, raise, state_of, Ports}
use firstrade_platform.Rebalance.{
  RunSetup, Ended, is_grant, bucket_of, tried, bucket_after, cycle_ports, try_persist, blocked,
  complete, completed_state, settle_run, after_cycle, run_cycle_on, planned, duplicate, checked,
  run_strategy_cycle,
}
use firstrade_platform.Rebalance.Report.{RunKit, RunReport}

-- An effective claim of the run can be read.
pub record HasClaim (prefix : Text) (run : RunId) (b : Bucket) : Type 0 where
  pub claim : Payload
  pub is_read : read_live_strategy_run_claim prefix b run ≡ ok (some claim)
  pub is_effective : has_effective_live_submission_claim (some claim) ≡ true

module _ (prefix : Text) (run : RunId) (safe : IsPeriodSafe run) where
  tried-HasClaim :
      (b : Bucket) (state : Payload) (account : Option Text) (now : _) (r : Result Bucket)
      → persist_strategy_run_state prefix b state account now ≡ r
      → HasClaim prefix run b
      → HasClaim prefix run (tried b r).1
  tried-HasClaim b state account now (fault x) e h = h
  tried-HasClaim b state account now (ok after) e h = record {
    claim = h.claim;
    is_read = persist-read prefix run b state account now safe e ∙ h.is_read;
    is_effective = h.is_effective;
  }

module _ {F : Type 0} (e : RunSetup F) (run : RunId) (safe : IsPeriodSafe run) where
  abbrev Keeps : Bucket → Type 0
  Keeps = HasClaim e.prefix run

  try_persist-HasClaim : (b : Bucket) (state : Payload) → Keeps b → Keeps (try_persist e b state).1
  unfolding try_persist
  try_persist-HasClaim b state h =
      tried-HasClaim e.prefix run safe b state (some e.run.account) e.now
        (persist_strategy_run_state e.prefix b state (some e.run.account) e.now) refl h

  bucket_of-HasClaim :
      (b : Bucket) (r : Result (Bool × Bucket))
      → claim_live_strategy_run e.mask e.prefix b e.run e.now ≡ r
      → Keeps b
      → Keeps (bucket_of b r)
  bucket_of-HasClaim b (fault x) q h = h
  bucket_of-HasClaim b (ok (granted, after)) q h = record {
    claim = h.claim;
    is_read = claim-read e.prefix run e.mask e.run b e.now h.claim q h.is_read;
    is_effective = h.is_effective;
  }

  bucket_after-HasClaim :
      (b : Bucket) (events : List (Event F)) → Keeps b → Keeps (bucket_after e b events)
  unfolding bucket_after
  bucket_after-HasClaim b events h =
      either Keeps (any is_grant events) _ _
        (bucket_of-HasClaim b (claim_live_strategy_run e.mask e.prefix b e.run e.now) refl h) h

  module _ (kit : RunKit F) where
    complete-HasClaim :
        (r : RunReport F) (b : Bucket) (events : List (Event F))
        → Keeps b
        → Keeps (complete e kit r b events).bucket
    unfolding complete
    complete-HasClaim r b events h =
        either (λ (t : Ended F). Keeps t.bucket) e.persist_strategy_runs _ _
          (try_persist-HasClaim b (completed_state e kit r) h) h

    blocked-HasClaim :
        (persisted error : Bool) (r : CycleResult F) (b : Bucket) (events : List (Event F))
        (latest : Result (Option Payload))
        → Keeps b
        → Keeps (blocked e persisted error r b events latest).bucket
    unfolding blocked
    blocked-HasClaim persisted error r b events (fault x) h = h
    blocked-HasClaim persisted error r b events (ok latest) h = h

    pub settle_run-HasClaim :
        (existing : Option Payload) (persisted error : Bool) (r : CycleResult F) (b : Bucket)
        (events : List (Event F))
        → Keeps b
        → Keeps (settle_run e kit existing persisted error r b events).bucket
    unfolding settle_run
    settle_run-HasClaim existing persisted error r b events h =
        either (λ (t : Ended F). Keeps t.bucket) r.idempotency_blocked _ _
          (blocked-HasClaim persisted error r b events
            (read_latest_strategy_run_state e.prefix b e.run) h)
          (complete-HasClaim _ b events h)

    pub after_cycle-HasClaim :
        (existing : Option Payload) (persisted error : Bool) (b : Bucket) (m : Flow F)
        → Keeps (bucket_after e b (state_of m).events)
        → Keeps (after_cycle e kit existing persisted error b m).bucket
    unfolding after_cycle state_of
    after_cycle-HasClaim existing persisted error b (raise s) h = h
    after_cycle-HasClaim existing persisted error b (go s) h = h
    after_cycle-HasClaim existing persisted error b (give r s) h =
        settle_run-HasClaim existing persisted error r (bucket_after e b s.events) s.events h

    duplicate-HasClaim :
        (existing : Option Payload) (claim_blocks : Bool) (b : Bucket)
        → Keeps b
        → Keeps (duplicate e kit existing claim_blocks b).bucket
    unfolding duplicate
    duplicate-HasClaim existing true b h = h
    duplicate-HasClaim existing false b h = try_persist-HasClaim b _ h

    module _ ⦃d : Float F⦄ (p : Ports F) (plan : Plan F) where
      run_cycle_on-HasClaim :
          (existing : Option Payload) (persisted error : Bool) (b : Bucket)
          → Keeps b
          → Keeps (run_cycle_on e kit p existing persisted error plan b).bucket
      unfolding run_cycle_on
      run_cycle_on-HasClaim existing persisted error b h =
          after_cycle-HasClaim existing persisted error b
            (execute_value_target_plan e.cfg (cycle_ports e p b) plan) (bucket_after-HasClaim b _ h)

      planned-HasClaim :
          (existing : Option Payload) (b : Bucket)
          → Keeps b
          → Keeps (planned e kit p existing plan b).bucket
      unfolding planned
      planned-HasClaim existing b h =
          either (λ (t : Ended F). Keeps t.bucket) e.persist_strategy_runs _ _
            (run_cycle_on-HasClaim existing _ _ _ (try_persist-HasClaim b _ h))
            (run_cycle_on-HasClaim existing false false b h)

      checked-HasClaim :
          (b : Bucket) (latest claim : Result (Option Payload))
          → Keeps b
          → Keeps (checked e kit p plan b latest claim).bucket
      unfolding checked
      checked-HasClaim b (fault x) claim h = h
      checked-HasClaim b (ok existing) (fault x) h = h
      checked-HasClaim b (ok existing) (ok claim) h =
          let effective = has_effective_live_submission_claim claim in
          either (λ (t : Ended F). Keeps t.bucket)
            (effective || is_duplicate_live_run kit.is_terminal existing) _ _
            (duplicate-HasClaim existing effective b h) (planned-HasClaim existing b h)

    -- An effective claim that can be read is still there after a run, of whatever account, profile
    -- and period, however that run ends, if the claim's period is not spelled like the latest state.
    pub run_strategy_cycle-HasClaim :
        ⦃d : Float F⦄ (p : Ports F) (mapped : Plan F) (b : Bucket)
        → HasClaim e.prefix run b
        → HasClaim e.prefix run (run_strategy_cycle e kit p mapped b).bucket
    unfolding run_strategy_cycle
    run_strategy_cycle-HasClaim p mapped b h =
        either (λ (t : Ended F). Keeps t.bucket) (e.persist_strategy_runs && not e.cfg.dry_run_only)
          _ _ (checked-HasClaim p _ b _ _ h) (planned-HasClaim p _ none b h)
