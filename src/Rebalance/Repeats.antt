-- ===== src/Rebalance/Repeats.antt =====
-- Runs that repeat one another: what a run that sent an order leaves, and what the next one does.
use mathlib.Core.Path.{subst}
use firstrade_platform.Prelude.{
  ◌≡◌, refl, sym, ◌∙◌, ap, Bool, true, false, not, ◌||◌, ◌&&◌, Option, none, some, List, [], ◌∷◌,
  Text, Float, any, either, All,
}
use firstrade_platform.State.Store.{Bucket, Payload, Result, ok, fault}
use firstrade_platform.State.Runs.{
  RunId, claim_live_strategy_run, claim_payload, has_effective_live_submission_claim,
  read_latest_strategy_run_state, is_duplicate_live_run,
}
use firstrade_platform.State.Runs.Claim.{granted_claim_is_effective}
use firstrade_platform.State.Runs.Kept.{IsPeriodSafe}
use firstrade_platform.Execution.Plan.{Plan}
use firstrade_platform.Execution.Orders.{CycleResult}
use firstrade_platform.Execution.Cycle.{execute_value_target_plan}
use firstrade_platform.Execution.Submission.{Event, Flow, go, give, raise, state_of, Ports}
use firstrade_platform.Rebalance.{
  RunSetup, Ended, is_grant, bucket_of, bucket_after, cycle_ports, blocked, complete, settle_run,
  after_cycle, run_cycle_on, planned, duplicate, checked, run_strategy_cycle,
}
use firstrade_platform.Rebalance.Report.{RunKit}
use firstrade_platform.Rebalance.Grants.{is_sent, is_won, sent-IsWon}
use firstrade_platform.Rebalance.Kept.{HasClaim, after_cycle-HasClaim, run_strategy_cycle-HasClaim}

module _ {F : Type 0} (e : RunSetup F) (kit : RunKit F) where
  -- A request was sent, and then the claim is in the bucket.
  abbrev LeavesClaim : Ended F → Type 0
  LeavesClaim t = any is_sent t.events ≡ true → HasClaim e.prefix e.run t.bucket

  blocked-events :
      (persisted error : Bool) (r : CycleResult F) (b : Bucket) (events : List (Event F))
      (latest : Result (Option Payload))
      → (blocked e persisted error r b events latest).events ≡ events
  unfolding blocked
  blocked-events persisted error r b events (fault x) = refl
  blocked-events persisted error r b events (ok latest) = refl

  settle_run-events :
      (existing : Option Payload) (persisted error : Bool) (r : CycleResult F) (b : Bucket)
      (events : List (Event F))
      → (settle_run e kit existing persisted error r b events).events ≡ events
  unfolding settle_run complete
  settle_run-events existing persisted error r b events =
      let same : (t : Ended F) → Type 0 = λ t. t.events ≡ events in
      either same r.idempotency_blocked _ _
        (blocked-events persisted error r b events
          (read_latest_strategy_run_state e.prefix b e.run))
        (either same e.persist_strategy_runs _ _ refl refl)

  after_cycle-events :
      (existing : Option Payload) (persisted error : Bool) (b : Bucket) (m : Flow F)
      → (after_cycle e kit existing persisted error b m).events ≡ (state_of m).events
  unfolding after_cycle state_of
  after_cycle-events existing persisted error b (raise s) = refl
  after_cycle-events existing persisted error b (go s) = refl
  after_cycle-events existing persisted error b (give r s) =
      settle_run-events existing persisted error r (bucket_after e b s.events) s.events

  granted-HasClaim :
      (b : Bucket) (r : Result (Bool × Bucket))
      → claim_live_strategy_run e.mask e.prefix b e.run e.now ≡ r
      → is_won r ≡ true
      → HasClaim e.prefix e.run (bucket_of b r)
  granted-HasClaim b (fault x) q h = cc
  granted-HasClaim b (ok (false, after)) q h = cc
  granted-HasClaim b (ok (true, after)) q h =
      let found = granted_claim_is_effective e.mask e.prefix e.run b e.now q in
      record { claim = claim_payload e.mask e.run e.now; is_read = found.0; is_effective = found.1 }

  bucket_after-HasClaim :
      (b : Bucket) (events : List (Event F))
      → (any is_grant events ≡ true)
        × (is_won (claim_live_strategy_run e.mask e.prefix b e.run e.now) ≡ true)
      → HasClaim e.prefix e.run (bucket_after e b events)
  unfolding bucket_after
  bucket_after-HasClaim b events h =
      rw (h.0) (granted-HasClaim b (claim_live_strategy_run e.mask e.prefix b e.run e.now) refl h.1)

  duplicate-events :
      (existing : Option Payload) (claim_blocks : Bool) (b : Bucket)
      → (duplicate e kit existing claim_blocks b).events ≡ []
  unfolding duplicate
  duplicate-events existing true b = refl
  duplicate-events existing false b = refl

  duplicate-LeavesClaim :
      (existing : Option Payload) (claim_blocks : Bool) (b : Bucket)
      → LeavesClaim (duplicate e kit existing claim_blocks b)
  duplicate-LeavesClaim existing claim_blocks b h =
      let quiet = ap (any is_sent) (duplicate-events existing claim_blocks b) in cc

  module _ ⦃d : Float F⦄ (p : Ports F) (safe : IsPeriodSafe e.run)
      (live : e.cfg.dry_run_only ≡ false) where
    run_cycle_on-LeavesClaim :
        (plan : Plan F) (existing : Option Payload) (persisted error : Bool) (b : Bucket)
        → LeavesClaim (run_cycle_on e kit p existing persisted error plan b)
    unfolding run_cycle_on
    run_cycle_on-LeavesClaim plan existing persisted error b h =
        let m = execute_value_target_plan e.cfg (cycle_ports e p b) plan in
        let is_sent_by_cycle : any is_sent (state_of m).events ≡ true =
          ap (any is_sent) (sym (after_cycle-events existing persisted error b m)) ∙ h in
        after_cycle-HasClaim e e.run safe kit existing persisted error b m (
          bucket_after-HasClaim b (state_of m).events (sent-IsWon e p b plan live is_sent_by_cycle))

    planned-LeavesClaim :
        (plan : Plan F) (existing : Option Payload) (b : Bucket)
        → LeavesClaim (planned e kit p existing plan b)
    unfolding planned
    planned-LeavesClaim plan existing b =
        either LeavesClaim e.persist_strategy_runs _ _
          (run_cycle_on-LeavesClaim plan existing _ _ _)
          (run_cycle_on-LeavesClaim plan existing false false b)

    checked-LeavesClaim :
        (plan : Plan F) (b : Bucket) (latest claim : Result (Option Payload))
        → LeavesClaim (checked e kit p plan b latest claim)
    unfolding checked is_sent
    checked-LeavesClaim plan b (fault x) claim h = cc
    checked-LeavesClaim plan b (ok existing) (fault x) h = cc
    checked-LeavesClaim plan b (ok existing) (ok claim) h =
        let effective = has_effective_live_submission_claim claim in
        either LeavesClaim (effective || is_duplicate_live_run kit.is_terminal existing) _ _
          (duplicate-LeavesClaim existing effective b) (planned-LeavesClaim plan existing b) h

    -- After a live run that sent a request to the broker, however it ended, an effective claim of
    -- that run can be read, where the period is not spelled like the latest state.
    pub run_strategy_cycle-LeavesClaim :
        (mapped : Plan F) (b : Bucket) → LeavesClaim (run_strategy_cycle e kit p mapped b)
    unfolding run_strategy_cycle
    run_strategy_cycle-LeavesClaim mapped b =
        either LeavesClaim (e.persist_strategy_runs && not e.cfg.dry_run_only) _ _
          (checked-LeavesClaim _ b _ _) (planned-LeavesClaim _ none b)

  claimed-checked :
      ⦃d : Float F⦄ (p : Ports F) (plan : Plan F) (b : Bucket) (latest : Result (Option Payload))
      (claim : Payload)
      → has_effective_live_submission_claim (some claim) ≡ true
      → ((checked e kit p plan b latest (ok (some claim))).events ≡ [])
        × ((checked e kit p plan b latest (ok (some claim))).bucket ≡ b)
  unfolding checked duplicate
  claimed-checked p plan b (fault x) claim h = (refl, refl)
  claimed-checked p plan b (ok existing) claim h = rw h (refl, refl)

  -- Where an effective claim of the run can be read, a live run whose states are persisted sends
  -- nothing to the broker, asks for no claim, and leaves the bucket as it was, whatever the plan.
  pub claimed_run_sends_nothing :
      ⦃d : Float F⦄ (p : Ports F) (mapped : Plan F) (b : Bucket)
      → e.persist_strategy_runs ≡ true
      → e.cfg.dry_run_only ≡ false
      → HasClaim e.prefix e.run b
      → ((run_strategy_cycle e kit p mapped b).events ≡ [])
        × ((run_strategy_cycle e kit p mapped b).bucket ≡ b)
  unfolding run_strategy_cycle
  claimed_run_sends_nothing p mapped b persist live h =
      simp (persist, live, h.is_read)
        (claimed-checked p _ b (read_latest_strategy_run_state e.prefix b e.run) h.claim
          h.is_effective)

-- One request to run: its settings, its kit, its ports and its plan.
pub record Job (F : Type 0) : Type 0 where
  pub setup : RunSetup F
  pub kit : RunKit F
  pub ports : Ports F
  pub plan : Plan F

module _ {F : Type 0} ⦃d : Float F⦄ where
  abbrev pub run_job : Job F → Bucket → Ended F
  run_job j b = run_strategy_cycle j.setup j.kit j.ports j.plan b

  -- The bucket after one run after another.
  unfoldable pub run_jobs : List (Job F) → Bucket → Bucket
  run_jobs [] b = b
  run_jobs (j ∷ js) b = run_jobs js (run_job j b).bucket

  run_jobs-HasClaim :
      (prefix : Text) (run : RunId) (safe : IsPeriodSafe run) (js : List (Job F)) (b : Bucket)
      → All (λ j. j.setup.prefix ≡ prefix) js
      → HasClaim prefix run b
      → HasClaim prefix run (run_jobs js b)
  unfolding run_jobs
  run_jobs-HasClaim prefix run safe [] b same h = h
  run_jobs-HasClaim prefix run safe (j ∷ js) b same h =
      let kept =
        run_strategy_cycle-HasClaim j.setup run safe j.kit j.ports j.plan b
          (subst (λ t. HasClaim t run b) (sym same.0) h) in
      run_jobs-HasClaim prefix run safe js (run_job j b).bucket same.1
        (subst (λ t. HasClaim t run (run_job j b).bucket) same.0 kept)

  -- Once a live run has sent a request, no later live run of the same account, profile and period
  -- whose states are persisted sends one, whatever runs, of whatever accounts, came between them,
  -- and however each of them ended. All of them use one bucket with one prefix, and the period is
  -- not spelled like the latest state.
  pub no_second_submission :
      (first : Job F) (between : List (Job F)) (second : Job F) (b : Bucket)
      → IsPeriodSafe first.setup.run
      → first.setup.cfg.dry_run_only ≡ false
      → any is_sent (run_job first b).events ≡ true
      → All (λ j. j.setup.prefix ≡ first.setup.prefix) between
      → second.setup.prefix ≡ first.setup.prefix
      → second.setup.run ≡ first.setup.run
      → second.setup.persist_strategy_runs ≡ true
      → second.setup.cfg.dry_run_only ≡ false
      → (run_job second (run_jobs between (run_job first b).bucket)).events ≡ []
  no_second_submission first between second b safe live was_sent same prefix run persist again =
      let left =
        run_strategy_cycle-LeavesClaim first.setup first.kit first.ports safe live first.plan b
          was_sent in
      let last = run_jobs between (run_job first b).bucket in
      let kept =
        run_jobs-HasClaim first.setup.prefix first.setup.run safe between (run_job first b).bucket
          same left in
      let at : HasClaim second.setup.prefix second.setup.run last =
        subst (λ t. HasClaim t second.setup.run last) (sym prefix)
          (subst (λ t. HasClaim first.setup.prefix t last) (sym run) kept) in
      (claimed_run_sends_nothing second.setup second.kit second.ports second.plan last persist again
        at).0
