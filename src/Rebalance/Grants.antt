-- ===== src/Rebalance/Grants.antt =====
-- The claims that a run's cycle is granted, and the claim in the bucket.
use firstrade_platform.Prelude.{
  ◌≡◌, refl, sym, ◌∙◌, ap, Bool, true, false, Option, none, some, List, [], ◌∷◌, Float, any, arith,
  if◌then◌else◌, inl, inr,
}
use firstrade_platform.State.Store.{Bucket, Result, ok, fault, ◌>>=◌}
use firstrade_platform.State.Runs.{claim_live_strategy_run, claim_once, acquire_submission_claim}
use firstrade_platform.Execution.Plan.{Plan}
use firstrade_platform.Execution.Submission.{
  Event, claimed, sent, Flow, go, give, raise, state_of, Ports,
}
use firstrade_platform.Execution.Submission.Rules.{Ensures}
use firstrade_platform.Execution.Submission.Claims.{IsClaimed, IsRefused, IsClaimedResult}
use firstrade_platform.Execution.Submission.Keeps.{attempt-Keeps}
use firstrade_platform.Execution.Cycle.{facts_of, finish, execute_value_target_plan}
use firstrade_platform.Execution.Cycle.Phases.{run_cycle-Ensures}
use firstrade_platform.Execution.Cycle.Safety.{execute_value_target_plan-IsClaimed}
use firstrade_platform.Rebalance.{RunSetup, is_grant, answer_of, claim_answer, cycle_ports}

-- The bucket granted the claim.
abbrev pub is_won : Result (Bool × Bucket) → Bool
is_won (ok (granted, _)) = granted
is_won (fault e) = false

module _ {F : Type 0} where
  unfoldable pub is_sent : Event F → Bool
  is_sent (claimed b) = false
  is_sent (sent i) = true

  claimed-grant :
      (events : List (Event F))
      → IsClaimed events
      → any is_sent events ≡ true
      → any is_grant events ≡ true
  unfolding is_sent is_grant
  claimed-grant [] h e = e
  claimed-grant (claimed b ∷ r) h e = absurd h
  claimed-grant (sent i ∷ []) h e = absurd h
  claimed-grant (sent i ∷ sent j ∷ r) h e = absurd h
  claimed-grant (sent i ∷ claimed false ∷ r) h e = absurd h
  claimed-grant (sent i ∷ claimed true ∷ r) h e = refl

  refused-grant :
      (events : List (Event F))
      → IsRefused events
      → any is_sent events ≡ true
      → any is_grant events ≡ true
  unfolding is_sent is_grant
  refused-grant [] h e = e
  refused-grant (claimed false ∷ r) h e = claimed-grant r h e
  refused-grant (claimed true ∷ r) h e = absurd h
  refused-grant (sent i ∷ r) h e = absurd h

  flow-grant :
      (m : Flow F)
      → Ensures (λ s. ⊥) IsClaimedResult (λ s. IsClaimed s.events) m
      → any is_sent (state_of m).events ≡ true
      → any is_grant (state_of m).events ≡ true
  unfolding state_of
  flow-grant (go s) h e = absurd h
  flow-grant (give r s) (inl h) e = claimed-grant s.events h.0 e
  flow-grant (give r s) (inr h) e = refused-grant s.events h.0 e
  flow-grant (raise s) h e = claimed-grant s.events h e

module _ {F : Type 0} ⦃d : Float F⦄ (e : RunSetup F) (p : Ports F) (b : Bucket) where
  abbrev pub own_claim : Result (Bool × Bucket)
  own_claim = claim_live_strategy_run e.mask e.prefix b e.run e.now

  -- A grant in the trace was the bucket's.
  abbrev IsWon : List (Event F) → Type 0
  IsWon events = any is_grant events ≡ true → is_won own_claim ≡ true

  acquired-IsWon :
      (r : Result (Bool × Bucket))
      → answer_of (r >>= λ c. ok (record { answer = c.0; held = c.0; bucket = c.1 })) ≡ some true
      → is_won r ≡ true
  unfolding answer_of
  acquired-IsWon (ok (granted, after)) h = ground arith
  acquired-IsWon (fault x) h = cc

  once-IsWon :
      (persist held : Bool)
      → (held ≡ true → is_won own_claim ≡ true)
      → answer_of (acquire_submission_claim e.mask e.prefix e.run persist e.now held b) ≡ some true
      → is_won own_claim ≡ true
  unfolding acquire_submission_claim claim_once answer_of
  once-IsWon false held w h = cc
  once-IsWon true true w h = w refl
  once-IsWon true false w h = acquired-IsWon own_claim h

  claim-IsWon :
      (granted : Bool) (events : List (Event F))
      → claim_answer e b events ≡ some granted
      → IsWon events
      → IsWon (claimed granted ∷ events)
  unfolding claim_answer is_grant
  claim-IsWon false events h w = w
  claim-IsWon true events h w = λ g. once-IsWon e.persist_strategy_runs (any is_grant events) w h

  configured :
      (dry : Bool) (ask : List (Event F) → Option Bool)
      → (if dry then none else some (claim_answer e b)) ≡ some ask
      → ask ≡ claim_answer e b
  configured true ask h = cc
  configured false ask h = cc

  ports-IsWon :
      (granted : Bool) (events : List (Event F)) (ask : List (Event F) → Option Bool)
      → (cycle_ports e p b).before_live_submission ≡ some ask
      → ask events ≡ some granted
      → IsWon events
      → IsWon (claimed granted ∷ events)
  unfolding cycle_ports
  ports-IsWon granted events ask same h w =
      claim-IsWon granted events
        (ap (λ (f : List (Event F) → Option Bool). f events)
            (sym (configured e.cfg.dry_run_only ask same))
          ∙ h)
        w

  flow-IsWon :
      (m : Flow F)
      → Ensures (λ s. ⊥) (λ r s. IsWon s.events) (λ s. IsWon s.events) m
      → IsWon (state_of m).events
  unfolding state_of
  flow-IsWon (go s) h = absurd h
  flow-IsWon (give r s) h = h
  flow-IsWon (raise s) h = h

  -- Where the cycle was granted a claim, the bucket that it starts with grants it.
  pub cycle-IsWon :
      (plan : Plan F)
      → IsWon (state_of (execute_value_target_plan e.cfg (cycle_ports e p b) plan)).events
  unfolding execute_value_target_plan finish is_grant
  cycle-IsWon plan =
      let q = cycle_ports e p b in
      let f = facts_of e.cfg q plan in
      flow-IsWon (execute_value_target_plan e.cfg q plan) (
        run_cycle-Ensures e.cfg q f (λ orders events. IsWon events) (λ r s. IsWon s.events)
          (λ s. IsWon s.events) (λ side. Unit)
          (λ on_sent on_accepted quiet r symbol i s k h.
            attempt-Keeps q IsWon IsWon (λ l w. w) ports-IsWon e.cfg f.notes on_sent on_accepted
              quiet.events (λ o. (r o).events) symbol i s (λ l w. w) h)
          (λ side. tt) (λ x. cc) (λ s h. h))

  -- A live cycle that sent a request was granted its claim.
  pub sent-IsWon :
      (plan : Plan F)
      → e.cfg.dry_run_only ≡ false
      → any is_sent (state_of (execute_value_target_plan e.cfg (cycle_ports e p b) plan)).events
        ≡ true
      → (any is_grant (state_of (execute_value_target_plan e.cfg (cycle_ports e p b) plan)).events
          ≡ true)
        × (is_won own_claim ≡ true)
  sent-IsWon plan live h =
      let flow = execute_value_target_plan e.cfg (cycle_ports e p b) plan in
      let grant =
        flow-grant flow (execute_value_target_plan-IsClaimed e.cfg (cycle_ports e p b) plan live)
          h in
      (grant, cycle-IsWon plan grant)
