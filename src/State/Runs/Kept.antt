-- ===== src/State/Runs/Kept.antt =====
-- What the writes of any run leave of a claim that can be read.
use firstrade_platform.Prelude.{
  ◌≡◌, refl, sym, ◌∙◌, ap, ◌≢◌, Bool, Option, some, Text, codes, text_eq_iff, get, put, get-put,
  arith, if◌then◌else◌,
}
use firstrade_platform.State.Store.{
  Payload, object, Bucket, Result, ok, fault, persistence, ◌>>=◌, strip_slashes, create_if_absent,
  create_object, create_json, read_json, decode, write_object, write_json,
}
use firstrade_platform.State.Keys.{Moment, safe_key}
use firstrade_platform.State.Keys.Distinct.{state_key_ne_claim_key}
use firstrade_platform.State.Keys.Clean.{
  IsClean, claim_key-IsClean, state_key-IsClean, history_key-IsClean, history_key_ne_claim_key,
  full_name, object_name-clean, full_name-injective,
}
use firstrade_platform.State.Runs.{
  RunId, claim_key, claim_payload, claim_live_strategy_run, read_live_strategy_run_claim,
  persist_strategy_run_state, state_keys,
}

-- The period of the run does not spell the name of the latest state.
abbrev pub IsPeriodSafe : RunId → Type 0
IsPeriodSafe run = safe_key run.run_period ≢ codes "latest"

-- `read_json` after the name of the object is known
abbrev read_object : Bucket → Text → Result (Option Payload)
read_object b name = if b.reachable then decode (get b.objects name) else fault persistence

module _ (prefix : Text) (run : RunId) where
  abbrev claim_name : Text
  claim_name = full_name (strip_slashes prefix) (claim_key run)

  read_claim-object :
      (b : Bucket) → read_live_strategy_run_claim prefix b run ≡ read_object b claim_name
  unfolding read_live_strategy_run_claim read_json
  read_claim-object b =
      rw
        (object_name-clean prefix (claim_key run)
          (claim_key-IsClean run.account run.strategy_profile run.run_period))
        refl

  put-read :
      (b : Bucket) (name : Text) (payload : Payload)
      → name ≢ claim_name
      → read_object (record b { objects = put b.objects name (object payload) }) claim_name
        ≡ read_object b claim_name
  put-read b name payload h =
      ground
        (arith, get-put b.objects name claim_name (object payload), text_eq_iff name claim_name)

  written-is :
      (b : Bucket) (payload : Payload) (name : Text) {after : Bucket}
      → write_object b payload name ≡ ok after
      → after ≡ record b { objects = put b.objects name (object payload) }
  unfolding write_object
  written-is b payload name e = ground arith

  write-read :
      (b : Bucket) (key : Text) (payload : Payload) {after : Bucket}
      → IsClean key
      → key ≢ claim_key run
      → write_json prefix b key payload ≡ ok after
      → read_object after claim_name ≡ read_object b claim_name
  unfolding write_json
  write-read b key payload {after} h k e =
      let name = full_name (strip_slashes prefix) key in
      let written : write_object b payload name ≡ ok after =
        ap (λ (r : Result Text). r >>= write_object b payload)
          (sym (object_name-clean prefix key h))
        ∙ e in
      rw (written-is b payload name written) (
        put-read b name payload
          (λ same. k (full_name-injective (strip_slashes prefix) key (claim_key run) same)))

  two_writes-read :
      (b : Bucket) (latest history : Text) (payload : Payload) (first : Result Bucket)
      {after : Bucket}
      → IsClean latest
      → IsClean history
      → latest ≢ claim_key run
      → history ≢ claim_key run
      → write_json prefix b latest payload ≡ first
      → (first >>= λ b'. write_json prefix b' history payload) ≡ ok after
      → read_object after claim_name ≡ read_object b claim_name
  two_writes-read b latest history payload (fault f) hl hh kl kh el e = cc
  two_writes-read b latest history payload (ok between) hl hh kl kh el e =
      write-read between history payload hh kh e ∙ write-read b latest payload hl kl el

  -- A state that is persisted, of any run and in any stage, leaves what is read of the claim.
  pub persist-read :
      (b : Bucket) (state : Payload) (account : Option Text) (now : Moment) {after : Bucket}
      → IsPeriodSafe run
      → persist_strategy_run_state prefix b state account now ≡ ok after
      → read_live_strategy_run_claim prefix after run ≡ read_live_strategy_run_claim prefix b run
  unfolding persist_strategy_run_state state_keys
  persist-read b state account now {after} safe e =
      let keys = state_keys state account now in
      read_claim-object after
      ∙ two_writes-read b keys.latest keys.history state _ (state_key-IsClean _ _ _ _)
          (history_key-IsClean _ _ _ _ now _)
          (state_key_ne_claim_key _ run.account _ run.strategy_profile _ run.run_period _ safe)
          (history_key_ne_claim_key _ run.account _ run.strategy_profile _ run.run_period _ now _)
          refl e
      ∙ sym (read_claim-object b)

  create-read :
      (b : Bucket) (name : Text) (payload claim : Payload) {granted : Bool} {after : Bucket}
      → create_object b payload name ≡ ok (granted, after)
      → read_object b claim_name ≡ ok (some claim)
      → read_object after claim_name ≡ ok (some claim)
  unfolding create_object create_if_absent decode
  create-read b name payload claim e h =
      ground
        (arith, get-put b.objects name claim_name (object payload), text_eq_iff name claim_name)

  -- Neither does a request for a claim, of this run or of another.
  pub claim-read :
      (mask : Text → Text) (other : RunId) (b : Bucket) (now : Moment) (claim : Payload)
      {granted : Bool} {after : Bucket}
      → claim_live_strategy_run mask prefix b other now ≡ ok (granted, after)
      → read_live_strategy_run_claim prefix b run ≡ ok (some claim)
      → read_live_strategy_run_claim prefix after run ≡ ok (some claim)
  unfolding claim_live_strategy_run create_json
  claim-read mask other b now claim {granted} {after} e h =
      let name = full_name (strip_slashes prefix) (claim_key other) in
      let payload = claim_payload mask other now in
      let created : create_object b payload name ≡ ok (granted, after) =
        ap (λ (r : Result Text). r >>= create_object b payload)
          (sym (
            object_name-clean prefix (claim_key other)
              (claim_key-IsClean other.account other.strategy_profile other.run_period)))
        ∙ e in
      read_claim-object after
      ∙ create-read b name payload claim created (sym (read_claim-object b) ∙ h)
