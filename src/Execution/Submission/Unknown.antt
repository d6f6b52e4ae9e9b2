-- ===== src/Execution/Submission/Unknown.antt =====
-- What one attempt does to the submitted orders.
use firstrade_platform.Prelude.{
  ◌≡◌, refl, sym, ◌⊎◌, inl, inr, Bool, true, false, Option, none, some, List, [], ◌∷◌, ◌++◌, Text,
  Float, all, any, not, ◌&&◌, is_empty, arith, Bool-cases,
}
use firstrade_platform.Execution.Plan.{Note, Config}
use firstrade_platform.Execution.Orders.{
  Intent, Order, Report, CycleResult, record_order_result, order_submission_accepted,
  order_submission_unknown,
}
use firstrade_platform.Execution.Orders.Statuses.{is_open, unknown-is_open}
use firstrade_platform.Execution.Submission.{
  Flow, Cycle, Ports, Permission, granted, denied, unconfigured, submission_claim_unavailable,
  unknown_submission_result, recorded, settle, receive, place, proceed, attempt, order_of,
  may_submit_live_order,
}
use firstrade_platform.Execution.Submission.Rules.{Ensures}

all-append_one {ℓ} :
    {A : Type ℓ} (p : A → Bool) (xs : List A) (x : A)
    → all p xs ≡ true
    → p x ≡ true
    → all p (xs ++ x ∷ []) ≡ true
all-append_one p [] x h e = ground arith
all-append_one p (y ∷ ys) x h e = ground (arith, all-append_one p ys x)

module _ {F : Type 0} where
  abbrev pub AllAccepted : List (Order F) → Type 0
  AllAccepted orders = all order_submission_accepted orders ≡ true

  -- the last of the orders is unknown, and all before it are accepted
  abbrev pub EndsUnknown : List (Order F) → Type 0
  EndsUnknown orders =
      (before : List (Order F)) × (last : Order F) × (orders ≡ before ++ last ∷ [])
      × AllAccepted before
      × (order_submission_unknown last ≡ true)

  -- How a cycle may return: every order accepted; or the last one unknown, and then the result asks
  -- for reconciliation and is not done.
  abbrev pub IsReconcilable : CycleResult F → Type 0
  IsReconcilable r =
      AllAccepted r.submitted_orders
      ⊎ (EndsUnknown r.submitted_orders
          × (r.pending_reconciliation ≡ true)
          × (r.action_done ≡ false))

  -- A result that is not blocked by idempotency waits exactly where some submitted order is open, and
  -- is done exactly where orders were submitted and none is open; a blocked one is neither.
  abbrev pub IsReported : CycleResult F → Type 0
  IsReported r =
      ((r.idempotency_blocked ≡ false)
        × (r.pending_reconciliation ≡ any is_open r.submitted_orders)
        × (r.action_done
            ≡ (not (is_empty r.submitted_orders) && not (any is_open r.submitted_orders))))
      ⊎ ((r.idempotency_blocked ≡ true)
          × (r.pending_reconciliation ≡ false)
          × (r.action_done ≡ false))

  any-last :
      (before : List (Order F)) (last : Order F)
      → is_open last ≡ true
      → any is_open (before ++ last ∷ []) ≡ true
  any-last [] last h = ground arith
  any-last (o ∷ before) last h = ground (arith, any-last before last)

  ends-is_open : (orders : List (Order F)) → EndsUnknown orders → any is_open orders ≡ true
  ends-is_open orders (before, last, e, h, unknown) =
      rw e (any-last before last (unknown-is_open last unknown))

-- The loops' own bookkeeping leaves the submitted orders alone.
abbrev pub KeepsSubmitted : {F : Type 0} → (Cycle F → Cycle F) → Type 0
KeepsSubmitted {F} f = (s : Cycle F) → (f s).submitted ≡ s.submitted

module _ {F : Type 0} ⦃d : Float F⦄ (notes : List Note) (on_sent : Cycle F → Cycle F)
    (on_accepted : Order F → Cycle F → Cycle F) (sent_keeps : KeepsSubmitted on_sent)
    (accepted_keeps : (order : Order F) → KeepsSubmitted (on_accepted order)) where
  recorded-submitted :
      (order : Order F) (s : Cycle F)
      → (recorded on_accepted order s).submitted
        ≡ (record_order_result order s.submitted s.skipped).0
  unfolding recorded
  recorded-submitted order s =
      let (submitted, skipped, accepted) = record_order_result order s.submitted s.skipped in
      elim (Bool-cases accepted) [
        | inl yes_accepted ↦ rw yes_accepted (accepted_keeps order _)
        | inr not_accepted ↦ rw not_accepted
      ]

  record-known :
      (order : Order F) (s : Cycle F)
      → order_submission_unknown order ≡ false
      → AllAccepted s.submitted
      → AllAccepted (record_order_result order s.submitted s.skipped).0
  unfolding record_order_result
  record-known order s known h =
      ground (arith, all-append_one order_submission_accepted s.submitted order)

  record-unknown :
      (order : Order F) (s : Cycle F)
      → order_submission_unknown order ≡ true
      → (record_order_result order s.submitted s.skipped).0 ≡ s.submitted ++ order ∷ []
  unfolding record_order_result
  record-unknown order s unknown = ground arith

  recorded-EndsUnknown :
      (order : Order F) (s : Cycle F)
      → order_submission_unknown order ≡ true
      → AllAccepted s.submitted
      → EndsUnknown (recorded on_accepted order s).submitted
  recorded-EndsUnknown order s unknown h =
      (s.submitted, order, rw recorded-submitted (record-unknown order s unknown), h, unknown)

  -- What holds of the two early returns of an attempt, and with it of the attempt.
  module _ (R : CycleResult F → Type 0)
      (unknown_R : (s : Cycle F) → EndsUnknown s.submitted → R (unknown_submission_result notes s))
      (denied_R : (symbol : Text) (s : Cycle F)
        → AllAccepted s.submitted
        → Ensures
            (λ t. AllAccepted t.submitted)
            (λ r t. R r)
            (λ t. AllAccepted t.submitted)
            (submission_claim_unavailable notes symbol s)) where
    abbrev Attempted : Flow F → Type 0
    Attempted = Ensures (λ t. AllAccepted t.submitted) (λ r t. R r) (λ t. AllAccepted t.submitted)

    settle-Attempted :
        (order : Order F) (s : Cycle F)
        → AllAccepted s.submitted
        → Attempted (settle notes on_accepted order s)
    unfolding settle
    settle-Attempted order s h = elim (Bool-cases (order_submission_unknown order)) [
      | inl unknown ↦
          rw unknown
            (unknown_R (recorded on_accepted order s) (recorded-EndsUnknown order s unknown h))
      | inr known ↦ rw known (rw recorded-submitted (record-known order s known h))
    ]

    receive-Attempted :
        (i : Intent F) (s : Cycle F) (reply : Option (Report F))
        → AllAccepted s.submitted
        → Attempted (receive notes on_sent on_accepted i s reply)
    unfolding receive
    receive-Attempted i s none h = h
    receive-Attempted i s (some report) h =
        settle-Attempted (order_of i report) (on_sent s) (rw sent_keeps h)

    proceed-Attempted :
        (p : Ports F) (symbol : Text) (i : Intent F) (s : Cycle F) (m : Permission F)
        → AllAccepted s.submitted
        → Attempted (proceed p notes on_sent on_accepted symbol i s m)
    unfolding proceed place
    proceed-Attempted p symbol i s unconfigured h = h
    proceed-Attempted p symbol i s (denied events) h = denied_R symbol _ h
    proceed-Attempted p symbol i s (granted events) h =
        receive-Attempted i _ (p.submit_order events i) h

    attempt-Attempted :
        (cfg : Config F) (p : Ports F) (symbol : Text) (i : Intent F) (s : Cycle F)
        → AllAccepted s.submitted
        → Attempted (attempt cfg p notes on_sent on_accepted symbol i s)
    unfolding attempt
    attempt-Attempted cfg p symbol i s h =
        proceed-Attempted p symbol i s (may_submit_live_order cfg.dry_run_only p s.events) h

  denied-IsReconcilable :
      (symbol : Text) (s : Cycle F)
      → AllAccepted s.submitted
      → Ensures
          (λ t. AllAccepted t.submitted)
          (λ r t. IsReconcilable r)
          (λ t. AllAccepted t.submitted)
          (submission_claim_unavailable notes symbol s)
  unfolding submission_claim_unavailable
  denied-IsReconcilable symbol s h = inl h

  unknown-IsReconcilable :
      (s : Cycle F) → EndsUnknown s.submitted → IsReconcilable (unknown_submission_result notes s)
  unfolding unknown_submission_result
  unknown-IsReconcilable s h = inr (h, refl, refl)

  -- After one attempt every order of the state is accepted, or the cycle returns with its last order
  -- unknown.
  pub attempt-IsReconcilable :
      (cfg : Config F) (p : Ports F) (symbol : Text) (i : Intent F) (s : Cycle F)
      → AllAccepted s.submitted
      → Ensures
          (λ t. AllAccepted t.submitted)
          (λ r t. IsReconcilable r)
          (λ t. AllAccepted t.submitted)
          (attempt cfg p notes on_sent on_accepted symbol i s)
  attempt-IsReconcilable =
      attempt-Attempted IsReconcilable unknown-IsReconcilable denied-IsReconcilable

  denied-IsReported :
      (symbol : Text) (s : Cycle F)
      → AllAccepted s.submitted
      → Ensures
          (λ t. AllAccepted t.submitted)
          (λ r t. IsReported r)
          (λ t. AllAccepted t.submitted)
          (submission_claim_unavailable notes symbol s)
  unfolding submission_claim_unavailable
  denied-IsReported symbol s h = inr (refl, refl, refl)

  unknown-IsReported :
      (s : Cycle F) → EndsUnknown s.submitted → IsReported (unknown_submission_result notes s)
  unfolding unknown_submission_result
  unknown-IsReported s h =
      inl (refl, sym (ends-is_open s.submitted h), ground (arith, ends-is_open s.submitted h))

  -- After one attempt every order of the state is accepted, or the cycle returns and says which of
  -- its orders are done and which are open.
  pub attempt-IsReported :
      (cfg : Config F) (p : Ports F) (symbol : Text) (i : Intent F) (s : Cycle F)
      → AllAccepted s.submitted
      → Ensures
          (λ t. AllAccepted t.submitted)
          (λ r t. IsReported r)
          (λ t. AllAccepted t.submitted)
          (attempt cfg p notes on_sent on_accepted symbol i s)
  attempt-IsReported = attempt-Attempted IsReported unknown-IsReported denied-IsReported
