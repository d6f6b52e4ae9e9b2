-- ===== src/SessionCheck/Due.antt =====
-- When a session check is due again.
use mathlib.Core.Path.{subst}
use firstrade_platform.Prelude.{
  ◌≡◌, refl, sym, ◌∙◌, ap, Bool, true, false, ◌||◌, Option, none, some, [], ◌∷◌, Text, codes, get,
  is_empty, arith, text_eq, text_eq_refl, get-put, if◌then◌else◌, Bool-cases, inl, inr,
}
use firstrade_platform.State.Store.{
  Field, Payload, object, Bucket, Result, ok, fault, ◌>>=◌, object_name, read_json, write_json,
  write_object, decode, persistence,
}
use firstrade_platform.State.Runs.{text_of}
use firstrade_platform.SessionCheck.{
  Policy, auto, always, skip, CheckTime, CheckSetup, Decision, Account, CheckOutcome, checked,
  skipped, session_check_period, session_check_state_key, normalize_session_check_policy,
  decide_on_state, decide_on_store, decide_on_period, decide_on_profile, decide_on_policy,
  resolve_decision, without_period, check_state, text_or_none, tried_write, try_snapshot,
  write_state, after_read, run_session_check,
}

written-object :
    (b : Bucket) (payload : Payload) (name : Text) {after : Bucket}
    → write_object b payload name ≡ ok after
    → (if after.reachable then decode (get after.objects name) else fault persistence)
      ≡ ok (some payload)
unfolding write_object decode
written-object b payload name e =
    ground (arith, get-put b.objects name name (object payload), text_eq_refl name)

-- What was written is read back.
pub read-write_json :
    (prefix key : Text) (b : Bucket) (payload : Payload) {after : Bucket}
    → write_json prefix b key payload ≡ ok after
    → read_json prefix after key ≡ ok (some payload)
unfolding write_json read_json
read-write_json prefix key b payload e = named (object_name prefix key) e
  where
    named :
        (r : Result Text) {after : Bucket}
        → (r >>= write_object b payload) ≡ ok after
        → (r >>= (λ name.
            if after.reachable then decode (get after.objects name) else fault persistence))
          ≡ ok (some payload)
    named (fault x) h = cc
    named (ok name) h = written-object b payload name h

-- A check is not due, and was last made at the time that the payload tells.
abbrev pub IsMade : Text → Decision → Type 0
IsMade iso d = (d.should_run ≡ false) × (d.last_checked_at ≡ text_or_none iso)

-- The payload of a check made at that time is in the store under the key.
abbrev IsStored : Payload → Option Text → Option Text → Bucket → Type 0
IsStored state none key b = ⊥
IsStored state (some prefix) none b = ⊥
IsStored state (some prefix) (some key) b = read_json prefix b key ≡ ok (some state)

module _ (e : CheckSetup) (t : CheckTime) (b after : Bucket) (d : Decision) (a : Account)
    (inputs : Field) where
  abbrev later : CheckSetup
  later = record e { now = t }

  abbrev state : Payload
  state = check_state e d a inputs

  state-IsMade :
      (period key reason : Text) (r : Result (Option Payload))
      → r ≡ ok (some state)
      → IsMade e.now.moment.iso (decide_on_state period key reason r)
  unfolding decide_on_state check_state get text_eq text_of
  state-IsMade period key reason r h = rw h (refl, refl)

  state-key :
      (period key reason : Text) (r : Result (Option Payload))
      → (decide_on_state period key reason r).state_key ≡ some key
  unfolding decide_on_state
  state-key period key reason (fault x) = refl
  state-key period key reason (ok none) = refl
  state-key period key reason (ok (some [])) = refl
  state-key period key reason (ok (some (entry ∷ rest))) = refl

  not_stored : (store : Option Text) → IsStored state store none after → ⊥
  not_stored none h = h
  not_stored (some prefix) h = h

  store-IsMade :
      (period key reason : Text) (store : Option Text)
      → IsStored state store (decide_on_store period key reason store b).state_key after
      → IsMade e.now.moment.iso (decide_on_store period key reason store after)
  unfolding decide_on_store
  store-IsMade period key reason none h = absurd h
  store-IsMade period key reason (some prefix) h =
      state-IsMade period key reason (read_json prefix after key) (
        subst (λ k. IsStored state (some prefix) k after)
          (state-key period key reason (read_json prefix b key)) h)

  period-IsMade :
      (profile : Text) (m : Option Text × Text)
      → IsStored state e.store (decide_on_period e profile m b).state_key after
      → IsMade e.now.moment.iso (decide_on_period later profile m after)
  unfolding decide_on_period
  period-IsMade profile (none, reason) h = absurd (not_stored e.store h)
  period-IsMade profile (some period, reason) h =
      store-IsMade period (session_check_state_key e.firstrade_account profile period) reason
        e.store h

  -- Both times lie in one period.
  abbrev IsSamePeriod : Type 0
  IsSamePeriod =
      session_check_period e.context.cadence e.context.required_inputs t
      ≡ session_check_period e.context.cadence e.context.required_inputs e.now

  profile-IsMade :
      (profile : Option Text)
      → IsSamePeriod
      → IsStored state e.store (decide_on_profile e profile b).state_key after
      → IsMade e.now.moment.iso (decide_on_profile later profile after)
  unfolding decide_on_profile
  profile-IsMade none same h = absurd (not_stored e.store h)
  profile-IsMade (some profile) same h = elim (Bool-cases (e.context.failed || is_empty profile)) [
    | inl unknown ↦ absurd (
        not_stored e.store
          (subst (λ c. IsStored state e.store (choice c).state_key after) unknown h))
    | inr known ↦
        simp (known, same)
          (period-IsMade profile
            (session_check_period e.context.cadence e.context.required_inputs e.now)
            (subst (λ c. IsStored state e.store (choice c).state_key after) known h))
  ]
    where
      choice : Bool → Decision
      choice c =
          if c
          then without_period true auto (codes "strategy_context_unavailable")
          else decide_on_period e profile
              (session_check_period e.context.cadence e.context.required_inputs e.now) b

  policy-IsMade :
      (policy : Policy)
      → IsSamePeriod
      → IsStored state e.store (decide_on_policy e policy b).state_key after
      → IsMade e.now.moment.iso (decide_on_policy later policy after)
  unfolding decide_on_policy
  policy-IsMade skip same h = absurd (not_stored e.store h)
  policy-IsMade always same h = absurd (not_stored e.store h)
  policy-IsMade auto same h = profile-IsMade e.context.strategy_profile same h

  resolve-IsMade :
      IsSamePeriod
      → IsStored state e.store (resolve_decision e b).state_key after
      → IsMade e.now.moment.iso (resolve_decision later after)
  unfolding resolve_decision
  resolve-IsMade same h = policy-IsMade (normalize_session_check_policy e.policy) same h

tried_write-ok :
    (b : Bucket) (r : Result Bucket) {after : Bucket}
    → tried_write b r ≡ (true, after)
    → r ≡ ok after
tried_write-ok b (ok written) h = cc
tried_write-ok b (fault x) h = cc

write_state-IsStored :
    (store key : Option Text) (payload : Payload) (b : Bucket) {after : Bucket}
    → write_state store key payload b ≡ (true, after)
    → IsStored payload store key after
unfolding write_state
write_state-IsStored none key payload b h = cc
write_state-IsStored (some prefix) none payload b h = cc
write_state-IsStored (some prefix) (some key) payload b h =
    read-write_json prefix key b payload (tried_write-ok b (write_json prefix b key payload) h)

read-IsStored :
    (e : CheckSetup) (d : Decision) (inputs : Field) (a : Account) (b : Bucket) {shown : Decision}
    {snapshot_persisted : Bool} {after : Bucket}
    → after_read e d inputs (some a) b ≡ (checked shown snapshot_persisted true, after)
    → IsStored (check_state e d a inputs) e.store d.state_key after
unfolding after_read
read-IsStored e d inputs a b h =
    write_state-IsStored e.store d.state_key (check_state e d a inputs) (try_snapshot e a b).1
      (ground arith)

-- After a check that ended and whose state was persisted, another check in the same environment at
-- a time of the same period is not due, and knows the time of that check.
pub resolve_decision-run_session_check :
    (e : CheckSetup) (t : CheckTime) (inputs : Field) (a : Account) (b after : Bucket)
    (d : Decision) (snapshot_persisted : Bool)
    → session_check_period e.context.cadence e.context.required_inputs t
      ≡ session_check_period e.context.cadence e.context.required_inputs e.now
    → run_session_check e inputs (some a) b ≡ (checked d snapshot_persisted true, after)
    → IsMade e.now.moment.iso (resolve_decision (record e { now = t }) after)
unfolding run_session_check
resolve_decision-run_session_check e t inputs a b after d snapshot_persisted same h =
    elim (Bool-cases (resolve_decision e b).should_run) [
      | inl due ↦
          resolve-IsMade e t b after (resolve_decision e b) a inputs same
            (read-IsStored e (resolve_decision e b) inputs a b (sym (ap (λ c. outcome c) due) ∙ h))
      | inr not_due ↦ absurd (not_checked (sym (ap (λ c. outcome c) not_due) ∙ h))
    ]
  where
    outcome : Bool → CheckOutcome × Bucket
    outcome c =
        if c
        then after_read e (resolve_decision e b) inputs (some a) b
        else (skipped (resolve_decision e b), b)

    not_checked : outcome false ≡ (checked d snapshot_persisted true, after) → ⊥
    not_checked w = cc
