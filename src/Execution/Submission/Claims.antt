-- ===== src/Execution/Submission/Claims.antt =====
-- Live orders and claims: what one attempt does to the trace of events.
use firstrade_platform.Prelude.{
  ◌≡◌, refl, ◌⊎◌, inl, inr, Bool, true, false, Option, none, some, List, [], ◌∷◌, Text, Float,
  Bool-cases,
}
use firstrade_platform.Execution.Plan.{Note, Config}
use firstrade_platform.Execution.Orders.{
  Intent, Order, Report, CycleResult, record_order_result, order_submission_unknown,
}
use firstrade_platform.Execution.Submission.{
  Event, claimed, sent, Cycle, Flow, go, give, raise, Ports, may_submit_live_order,
  submission_claim_unavailable, unknown_submission_result, Permission, granted, denied,
  unconfigured, ask_claim, receive, proceed, recorded, settle, place, attempt, answer, order_of,
}
use firstrade_platform.Execution.Submission.Rules.{Ensures}

module _ {F : Type 0} where
  -- Every request stands directly after a granted claim of its own, and nothing else happened.
  abbrev pub IsClaimed : List (Event F) → Type 0
  IsClaimed [] = Unit
  IsClaimed (claimed b ∷ r) = ⊥
  IsClaimed (sent i ∷ []) = ⊥
  IsClaimed (sent i ∷ sent j ∷ r) = ⊥
  IsClaimed (sent i ∷ claimed false ∷ r) = ⊥
  IsClaimed (sent i ∷ claimed true ∷ r) = IsClaimed r

  -- Nothing but requests happened.
  abbrev pub IsUnclaimed : List (Event F) → Type 0
  IsUnclaimed [] = Unit
  IsUnclaimed (claimed b ∷ r) = ⊥
  IsUnclaimed (sent i ∷ r) = IsUnclaimed r

  -- the trace ends with a refused claim
  abbrev pub IsRefused : List (Event F) → Type 0
  IsRefused (claimed false ∷ r) = IsClaimed r
  IsRefused _ = ⊥

  -- how a live cycle may return
  abbrev pub IsClaimedResult : CycleResult F → Cycle F → Type 0
  IsClaimedResult r s =
      (IsClaimed s.events × (r.idempotency_blocked ≡ false))
      ⊎ (IsRefused s.events × (r.idempotency_blocked ≡ true))

  abbrev pub IsUnclaimedResult : CycleResult F → Cycle F → Type 0
  IsUnclaimedResult r s = IsUnclaimed s.events × (r.idempotency_blocked ≡ false)

-- what a live claim may answer after the events `before`
abbrev IsAnswer : {F : Type 0} → List (Event F) → Permission F → Type 0
IsAnswer before (granted events) = events ≡ claimed true ∷ before
IsAnswer before (denied events) = events ≡ claimed false ∷ before
IsAnswer before unconfigured = Unit

answer-IsAnswer :
    {F : Type 0} (b : Option Bool) (before : List (Event F)) → IsAnswer before (answer b before)
unfolding answer
answer-IsAnswer none before = tt
answer-IsAnswer (some true) before = refl
answer-IsAnswer (some false) before = refl

ask_claim-IsAnswer :
    {F : Type 0} (o : Option (List (Event F) → Option Bool)) (before : List (Event F))
    → IsAnswer before (ask_claim o before)
unfolding ask_claim
ask_claim-IsAnswer none before = tt
ask_claim-IsAnswer (some ask) before = answer-IsAnswer (ask before) before

weaken :
    {F : Type 0} (m : Flow F)
    → Ensures
        (λ t. IsClaimed t.events)
        (λ r t. IsClaimed t.events × (r.idempotency_blocked ≡ false))
        (λ t. IsClaimed t.events)
        m
    → Ensures (λ t. IsClaimed t.events) IsClaimedResult (λ t. IsClaimed t.events) m
weaken (go s) h = h
weaken (give r s) h = inl h
weaken (raise s) h = h

-- The loops' own bookkeeping writes no events.
abbrev pub KeepsEvents : {F : Type 0} → (Cycle F → Cycle F) → Type 0
KeepsEvents {F} f = (s : Cycle F) → (f s).events ≡ s.events

module _ {F : Type 0} ⦃d : Float F⦄ (notes : List Note) (on_sent : Cycle F → Cycle F)
    (on_accepted : Order F → Cycle F → Cycle F) (sent_keeps : KeepsEvents on_sent)
    (accepted_keeps : (order : Order F) → KeepsEvents (on_accepted order)) where
  recorded-events :
      (order : Order F) (s : Cycle F) → (recorded on_accepted order s).events ≡ s.events
  unfolding recorded
  recorded-events order s =
      let (submitted, skipped, accepted) = record_order_result order s.submitted s.skipped in
      elim (Bool-cases accepted) [
        | inl yes_accepted ↦ rw yes_accepted (accepted_keeps order _)
        | inr not_accepted ↦ rw not_accepted
      ]

  settle-events :
      (P : List (Event F) → Type 0) (order : Order F) (s : Cycle F)
      → P s.events
      → Ensures
          (λ t. P t.events)
          (λ r t. P t.events × (r.idempotency_blocked ≡ false))
          (λ t. P t.events)
          (settle notes on_accepted order s)
  unfolding settle unknown_submission_result
  settle-events P order s h =
      let e : P (recorded on_accepted order s).events = rw recorded-events h in
      elim (Bool-cases (order_submission_unknown order)) [
        | inl unknown ↦ rw unknown (e, refl)
        | inr known ↦ rw known e
      ]

  receive-events :
      (P : List (Event F) → Type 0) (i : Intent F) (s : Cycle F) (reply : Option (Report F))
      → P s.events
      → Ensures
          (λ t. P t.events)
          (λ r t. P t.events × (r.idempotency_blocked ≡ false))
          (λ t. P t.events)
          (receive notes on_sent on_accepted i s reply)
  unfolding receive
  receive-events P i s none h = h
  receive-events P i s (some report) h =
      settle-events P (order_of i report) (on_sent s) (rw sent_keeps h)

  pub place-events :
      (P : List (Event F) → Type 0) (p : Ports F) (i : Intent F) (s : Cycle F)
      → P (sent i ∷ s.events)
      → Ensures
          (λ t. P t.events)
          (λ r t. P t.events × (r.idempotency_blocked ≡ false))
          (λ t. P t.events)
          (place p notes on_sent on_accepted i s)
  unfolding place
  place-events P p i s h =
      receive-events P i (record s { events = sent i ∷ s.events }) (p.submit_order s.events i) h

  proceed-IsClaimed :
      (p : Ports F) (symbol : Text) (i : Intent F) (s : Cycle F) (m : Permission F)
      → IsClaimed s.events
      → IsAnswer s.events m
      → Ensures
          (λ t. IsClaimed t.events)
          IsClaimedResult
          (λ t. IsClaimed t.events)
          (proceed p notes on_sent on_accepted symbol i s m)
  unfolding proceed submission_claim_unavailable
  proceed-IsClaimed p symbol i s unconfigured h e = h
  proceed-IsClaimed p symbol i s (denied events) h e = inr (rw e h, refl)
  proceed-IsClaimed p symbol i s (granted events) h e =
      let t = record s { events = events } in
      weaken (place p notes on_sent on_accepted i t) (place-events IsClaimed p i t (rw e h))

  -- One attempt of a live cycle adds a granted claim and a request, or a refused claim with which
  -- the cycle returns, or nothing where no claim callback is configured.
  pub attempt-IsClaimed :
      (cfg : Config F) (p : Ports F) (symbol : Text) (i : Intent F) (s : Cycle F)
      → cfg.dry_run_only ≡ false
      → IsClaimed s.events
      → Ensures
          (λ t. IsClaimed t.events)
          IsClaimedResult
          (λ t. IsClaimed t.events)
          (attempt cfg p notes on_sent on_accepted symbol i s)
  unfolding attempt may_submit_live_order
  attempt-IsClaimed cfg p symbol i s live h = rw live (
      proceed-IsClaimed p symbol i s (ask_claim p.before_live_submission s.events) h
        (ask_claim-IsAnswer p.before_live_submission s.events))

  -- One attempt of a dry run adds a request and asks for no claim.
  pub attempt-IsUnclaimed :
      (cfg : Config F) (p : Ports F) (symbol : Text) (i : Intent F) (s : Cycle F)
      → cfg.dry_run_only ≡ true
      → IsUnclaimed s.events
      → Ensures
          (λ t. IsUnclaimed t.events)
          IsUnclaimedResult
          (λ t. IsUnclaimed t.events)
          (attempt cfg p notes on_sent on_accepted symbol i s)
  unfolding attempt may_submit_live_order proceed
  attempt-IsUnclaimed cfg p symbol i s dry h = rw dry (place-events IsUnclaimed p i s h)
