-- ===== src/Broker/Adapters/Statuses.antt =====
-- What the statuses of the execution port mean to the execution cycle.
use firstrade_platform.Prelude.{
  ◌≤◌, ◌<◌, ℤ, pos, Option, none, some, Bool, Text, codes, any, ap, sym, arith, is_some, ◌↔◌, ◌⊎◌,
  ◌≡◌, refl, true, false, not, ◌&&◌, Float, text_eq, one_of, strip, lstrip, lower, to_lower,
  only_alnum, is_alnum, is_space, Bool-cases, inl, inr,
}
use firstrade_platform.Execution.Orders.{
  Intent, normalized_status, order_submission_accepted, order_submission_unknown,
}
use firstrade_platform.Execution.Submission.{order_of}
use firstrade_platform.Broker.Payload.{Json, flat, Reading, Members, mapping}
use firstrade_platform.Broker.Fields.{
  sanitize_payload_key, leaf_key, text_of_value, extract_broker_order_id,
  extract_broker_status_code, has_rejection_code,
}
use firstrade_platform.Broker.Adapters.{
  is_success_code, is_code_400, live_order_accepted, live_order_rejected, status_of, report_of,
}

abbrev pub IsSuccess : Option ℤ → Type 0
IsSuccess none = Unit
IsSuccess (some (pos n)) = (200 ≤ n) × (n < 300)
IsSuccess (some (ℤ.negsuc n)) = ⊥

passed :
    (o : Option Text) (c : Option ℤ)
    → (is_some o && is_success_code c) ≡ true
    → (id : Text) × (o ≡ some id) × IsSuccess c
passed none c h = cc
passed (some id) none h = (id, refl, tt)
passed (some id) (some (pos n)) h = (id, refl, (ground arith, ground arith))
passed (some id) (some (ℤ.negsuc n)) h = absurd (ground arith)

passed_back :
    (o : Option Text) (c : Option ℤ)
    → (id : Text) × (o ≡ some id) × IsSuccess c
    → (is_some o && is_success_code c) ≡ true
passed_back none c h = cc
passed_back (some x) none h = refl
passed_back (some x) (some (pos n)) (id, e, within) = ground arith
passed_back (some x) (some (ℤ.negsuc n)) h = absurd h.2

passed_iff :
    (o : Option Text) (c : Option ℤ)
    → ((is_some o && is_success_code c) ≡ true) ↔ ((id : Text) × (o ≡ some id) × IsSuccess c)
passed_iff o c = (passed o c, passed_back o c)

refusal :
    (o : Option Text) (c : Option ℤ) (b : Bool)
    → (not (is_some o) && is_code_400 c && b) ≡ true
    → (o ≡ none) × (c ≡ some (pos 400)) × (b ≡ true)
refusal (some x) c b h = cc
refusal none none b h = cc
refusal none (some (pos n)) b h = (refl, ap (λ k. some (pos k)) (ground arith), ground arith)
refusal none (some (ℤ.negsuc n)) b h = absurd (ground arith)

refusal_iff :
    (o : Option Text) (c : Option ℤ) (b : Bool)
    → ((not (is_some o) && is_code_400 c && b) ≡ true)
      ↔ ((o ≡ none) × (c ≡ some (pos 400)) × (b ≡ true))
refusal_iff o c b = (refusal o c b, λ h. rw (h.0, h.1, h.2) refl)

known_iff {ℓ κ} :
    {A : Type ℓ} {R : Type κ} {a r : Bool}
    → (a ≡ true) ↔ A
    → (r ≡ true) ↔ R
    → ((not a && not r) ≡ false) ↔ (A ⊎ R)
known_iff {a = true} f g = ((λ h. inl (f.0 refl)), (λ h. refl))
known_iff {a = false} {r = true} f g = ((λ h. inr (g.0 refl)), (λ h. refl))
known_iff {a = false} {r = false} f g =
    ((λ h. cc), (λ h. elim h [ inl a ↦ sym (f.1 a) | inr r ↦ sym (g.1 r) ]))

module _ {F : Type 0} ⦃d : Float F⦄ (py : Reading F) (i : Intent F) (raw : Members) where
  status_cases :
      (order_submission_accepted (order_of i (report_of py true i raw))
        ≡ live_order_accepted py (mapping raw))
      × (order_submission_unknown (order_of i (report_of py true i raw)) ≡ (
          not (live_order_accepted py (mapping raw)) && not (live_order_rejected py (mapping raw))))
  unfolding order_submission_accepted order_submission_unknown order_of report_of status_of
      normalized_status strip lstrip lower to_lower only_alnum is_alnum is_space text_eq one_of
  status_cases = elim (Bool-cases (live_order_accepted py (mapping raw))) [
    | inl accepted ↦ rw accepted (refl, refl)
    | inr refused ↦ elim (Bool-cases (live_order_rejected py (mapping raw))) [
      | inl rejected ↦ rw (refused, rejected) (refl, refl)
      | inr unknown ↦ rw (refused, unknown) (refl, refl)
    ]
  ]

  -- The answer names the order, and it has no status code or one from 200 to 299.
  abbrev pub IsAcceptance : Type 0
  IsAcceptance =
      (id : Text) × (extract_broker_order_id py (mapping raw) ≡ some id)
      × IsSuccess (extract_broker_status_code py (mapping raw))

  -- The answer names no order, has the status code 400, and a reference code of 1219.
  abbrev pub IsProvenRefusal : Type 0
  IsProvenRefusal =
      (extract_broker_order_id py (mapping raw) ≡ none)
      × (extract_broker_status_code py (mapping raw) ≡ some (pos 400))
      × (any
            (λ (entry : Text × Json).
              text_eq (sanitize_payload_key (leaf_key entry.0)) (codes "refcode")
              && text_eq (strip (text_of_value py entry.1)) (codes "1219"))
            (flat (mapping raw))
          ≡ true)

  accepted_iff : (live_order_accepted py (mapping raw) ≡ true) ↔ IsAcceptance
  unfolding live_order_accepted
  accepted_iff =
      passed_iff (extract_broker_order_id py (mapping raw))
        (extract_broker_status_code py (mapping raw))

  rejected_iff : (live_order_rejected py (mapping raw) ≡ true) ↔ IsProvenRefusal
  unfolding live_order_rejected has_rejection_code
  rejected_iff =
      refusal_iff (extract_broker_order_id py (mapping raw))
        (extract_broker_status_code py (mapping raw)) _

  -- The cycle takes the answer to a live order for accepted exactly where it names the order and has
  -- no status code or one from 200 to 299. Its outcome is known exactly where it is that or the
  -- proven refusal: no order is named, the status code is 400, and a reference code is 1219.
  pub live_status_exactly :
      ((order_submission_accepted (order_of i (report_of py true i raw)) ≡ true) ↔ IsAcceptance)
      × ((order_submission_unknown (order_of i (report_of py true i raw)) ≡ false)
          ↔ (IsAcceptance ⊎ IsProvenRefusal))
  live_status_exactly =
      let (same, unknown) = status_cases in
      (rw same accepted_iff, rw unknown (known_iff accepted_iff rejected_iff))

  -- In preview every answer is accepted.
  pub preview_is_accepted : order_submission_accepted (order_of i (report_of py false i raw)) ≡ true
  unfolding order_submission_accepted order_of report_of status_of normalized_status strip lstrip
      lower to_lower only_alnum is_alnum is_space text_eq one_of
  preview_is_accepted = refl
