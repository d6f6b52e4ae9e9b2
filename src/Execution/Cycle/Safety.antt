-- ===== src/Execution/Cycle/Safety.antt =====
-- The orders of a whole cycle: their claims, and those whose outcome is unknown.
use firstrade_platform.Prelude.{◌≡◌, refl, inl, true, false, Float}
use firstrade_platform.Execution.Plan.{Plan, Config}
use firstrade_platform.Execution.Submission.{Ports, Cycle}
use firstrade_platform.Execution.Orders.Statuses.{pending-is_open, done-is_open}
use firstrade_platform.Execution.Submission.Rules.{Ensures}
use firstrade_platform.Execution.Submission.Claims.{
  IsClaimed, IsUnclaimed, IsClaimedResult, IsUnclaimedResult, attempt-IsClaimed,
  attempt-IsUnclaimed,
}
use firstrade_platform.Execution.Submission.Unknown.{
  AllAccepted, IsReconcilable, IsReported, attempt-IsReconcilable, attempt-IsReported,
}
use firstrade_platform.Execution.Cycle.{facts_of, finish, execute_value_target_plan}
use firstrade_platform.Execution.Cycle.Phases.{run_cycle-Ensures}

module _ {F : Type 0} ⦃d : Float F⦄ (cfg : Config F) (p : Ports F) (plan : Plan F) where
  -- A live cycle returns or raises. In its trace every request to the broker stands directly after
  -- a granted claim of its own; a refused claim is the last event, and the cycle returns exactly
  -- then as blocked by idempotency.
  pub execute_value_target_plan-IsClaimed :
      cfg.dry_run_only ≡ false
      → Ensures
          (λ s. ⊥)
          IsClaimedResult
          (λ s. IsClaimed s.events)
          (execute_value_target_plan cfg p plan)
  unfolding execute_value_target_plan finish
  execute_value_target_plan-IsClaimed live =
      run_cycle-Ensures cfg p (facts_of cfg p plan) (λ orders events. IsClaimed events)
        IsClaimedResult (λ s. IsClaimed s.events) (λ side. Unit)
        (λ on_sent on_accepted q r symbol i s k h.
          attempt-IsClaimed (facts_of cfg p plan).notes on_sent on_accepted q.events
            (λ o. (r o).events) cfg p symbol i s live h)
        (λ side. tt) tt (λ s h. inl (h, refl))

  -- A dry run returns or raises, asks for no claim and is never blocked by one.
  pub dry_run_asks_no_claim :
      cfg.dry_run_only ≡ true
      → Ensures
          (λ s. ⊥)
          IsUnclaimedResult
          (λ s. IsUnclaimed s.events)
          (execute_value_target_plan cfg p plan)
  unfolding execute_value_target_plan finish
  dry_run_asks_no_claim dry =
      run_cycle-Ensures cfg p (facts_of cfg p plan) (λ orders events. IsUnclaimed events)
        IsUnclaimedResult (λ s. IsUnclaimed s.events) (λ side. Unit)
        (λ on_sent on_accepted q r symbol i s k h.
          attempt-IsUnclaimed (facts_of cfg p plan).notes on_sent on_accepted q.events
            (λ o. (r o).events) cfg p symbol i s dry h)
        (λ side. tt) tt (λ s h. (h, refl))

  -- A cycle returns or raises. Every order it submitted was accepted, but for the last one, which
  -- may be unknown: then the cycle returned at once, waits for reconciliation and is not done.
  pub unknown_order_is_last :
      Ensures
        (λ s. ⊥)
        (λ r s. IsReconcilable r)
        (λ s. AllAccepted s.submitted)
        (execute_value_target_plan cfg p plan)
  unfolding execute_value_target_plan finish
  unknown_order_is_last =
      run_cycle-Ensures cfg p (facts_of cfg p plan) (λ orders events. AllAccepted orders)
        (λ r s. IsReconcilable r) (λ s. AllAccepted s.submitted) (λ side. Unit)
        (λ on_sent on_accepted q r symbol i s k h.
          attempt-IsReconcilable (facts_of cfg p plan).notes on_sent on_accepted q.submitted
            (λ o. (r o).submitted) cfg p symbol i s h)
        (λ side. tt) refl (λ s h. inl h)

  finish-IsReported :
      (s : Cycle F) → AllAccepted s.submitted → IsReported (finish p (facts_of cfg p plan) s)
  unfolding finish
  finish-IsReported s h = inl (refl, pending-is_open s.submitted h, done-is_open s.submitted h)

  -- A cycle returns or raises. Where its result is not blocked by idempotency, it waits for
  -- reconciliation exactly if some submitted order is neither previewed nor filled, and it is done
  -- exactly if it submitted orders and all of them are previewed or filled; where it is blocked, it
  -- neither waits nor is done.
  pub cycle_done_exactly :
      Ensures
        (λ s. ⊥)
        (λ r s. IsReported r)
        (λ s. AllAccepted s.submitted)
        (execute_value_target_plan cfg p plan)
  unfolding execute_value_target_plan
  cycle_done_exactly =
      run_cycle-Ensures cfg p (facts_of cfg p plan) (λ orders events. AllAccepted orders)
        (λ r s. IsReported r) (λ s. AllAccepted s.submitted) (λ side. Unit)
        (λ on_sent on_accepted q r symbol i s k h.
          attempt-IsReported (facts_of cfg p plan).notes on_sent on_accepted q.submitted
            (λ o. (r o).submitted) cfg p symbol i s h)
        (λ side. tt) refl finish-IsReported
