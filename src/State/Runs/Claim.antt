-- ===== src/State/Runs/Claim.antt =====
-- Processes that race for the claim of one run.
use firstrade_platform.Prelude.{
  ℕ, ◌≡◌, refl, ap, inl, inr, Bool, true, false, some, List, [], ◌∷◌, Text, text_eq, text_eq_iff,
  text_eq_refl, get, put, strip, lstrip, is_space, get-put, arith, ◌==◌, is_some, if◌then◌else◌,
  Bool-cases,
}
use firstrade_platform.State.Store.{
  Payload, object, Bucket, Result, ok, fault, object_name, create_if_absent, create_object,
  create_json, read_json, decode, persistence, ◌>>=◌,
}
use firstrade_platform.State.Keys.{Moment}
use firstrade_platform.State.Runs.{
  RunId, claim_key, claim_payload, claim_live_strategy_run, read_live_strategy_run_claim,
  has_effective_live_submission_claim, text_of, Acquired, claim_once, acquire_submission_claim,
}

-- What happens to the bucket: a process asks for the claim, or anybody writes some object.
pub data Action : Type 0 where
  ask : ℕ → Moment → Action
  write : Text → Payload → Action
  outage : Bool → Action

-- The bucket and the flags of the processes.
pub record Race : Type 0 where
  pub bucket : Bucket
  pub holds : ℕ → Bool

abbrev pub set_flag : (ℕ → Bool) → ℕ → Bool → ℕ → Bool
set_flag f i b j = if j == i then b else f j

-- A process whose request raises keeps its flag.
abbrev pub answered : ℕ → Race → Result Acquired → Race
answered i r (ok a) = record { bucket = a.bucket; holds = set_flag r.holds i a.held }
answered i r (fault e) = r

abbrev name_of : Result Text → Text
name_of (ok name) = name
name_of (fault e) = []

module _ (mask : Text → Text) (prefix : Text) (run : RunId) (persist_strategy_runs : Bool) where
  unfoldable pub act : Action → Race → Race
  act (ask i now) r =
      answered i r
        (acquire_submission_claim mask prefix run persist_strategy_runs now (r.holds i) r.bucket)
  act (write name payload) r = record r {
    bucket = record (r.bucket) { objects = put r.bucket.objects name (object payload) };
  }
  act (outage up) r = record r { bucket = record (r.bucket) { reachable = up } }

  unfoldable pub race : List Action → Race → Race
  race [] r = r
  race (a ∷ rest) r = race rest (act a r)

  -- the claim's object exists
  abbrev pub IsTaken : Bucket → Type 0
  IsTaken b =
      (name : Text)
      → object_name prefix (claim_key run) ≡ ok name
      → is_some (get b.objects name) ≡ true

  -- A holder has taken the claim, and there is one holder at most.
  pub record IsExclusive (r : Race) : Type 0 where
    pub taken : (i : ℕ) → r.holds i ≡ true → IsTaken r.bucket
    pub single : (i j : ℕ) → r.holds i ≡ true → r.holds j ≡ true → i ≡ j

  abbrev after_claim : Result (Bool × Bucket) → Result Acquired
  after_claim claim = claim >>= λ c. ok (record { answer = c.0; held = c.0; bucket = c.1 })

  -- Nobody holds a claim whose object does not exist.
  none_holds :
      (r : Race) (name : Text)
      → IsExclusive r
      → object_name prefix (claim_key run) ≡ ok name
      → is_some (get r.bucket.objects name) ≡ false
      → (j : ℕ) → r.holds j ≡ false
  none_holds r name h e absent j = elim (Bool-cases (r.holds j)) [
    | inl hj ↦ let t = h.taken j hj name e in cc
    | inr not_held ↦ not_held
  ]

  win-IsExclusive :
      (i : ℕ) (r : Race) (name : Text) (payload : Payload)
      → IsExclusive r
      → object_name prefix (claim_key run) ≡ ok name
      → is_some (get r.bucket.objects name) ≡ false
      → IsExclusive (record {
        bucket = record (r.bucket) { objects = put r.bucket.objects name (object payload) };
        holds = set_flag r.holds i true;
      })
  win-IsExclusive i r name payload h e absent = record {
    taken = λ j hj n en. ground (
      arith,
      ap name_of e,
      ap name_of en,
      get-put r.bucket.objects name n (object payload),
      text_eq_iff name n,
    );
    single =
        λ j k hj hk. ground (arith, none_holds r name h e absent j, none_holds r name h e absent k);
  }

  lose-IsExclusive :
      (i : ℕ) (r : Race) (b : Bool)
      → r.holds i ≡ b
      → IsExclusive r
      → IsExclusive (record { bucket = r.bucket; holds = set_flag r.holds i b })
  lose-IsExclusive i r b e h = record {
    taken = λ j hj n en. h.taken j (ground arith) n en;
    single = λ j k hj hk. h.single j k (ground arith) (ground arith);
  }

  create-IsExclusive :
      (i : ℕ) (r : Race) (name : Text) (payload : Payload) (up exists : Bool)
      → IsExclusive r
      → r.holds i ≡ false
      → object_name prefix (claim_key run) ≡ ok name
      → is_some (get r.bucket.objects name) ≡ exists
      → IsExclusive (answered i r (after_claim (create_if_absent up exists r.bucket payload name)))
  unfolding create_if_absent
  create-IsExclusive i r name payload false exists h idle e there = h
  create-IsExclusive i r name payload true true h idle e there = lose-IsExclusive i r false idle h
  create-IsExclusive i r name payload true false h idle e absent =
      win-IsExclusive i r name payload h e absent

  named-IsExclusive :
      (i : ℕ) (r : Race) (payload : Payload) (q : Result Text)
      → IsExclusive r
      → r.holds i ≡ false
      → object_name prefix (claim_key run) ≡ q
      → IsExclusive (answered i r (after_claim (q >>= create_object r.bucket payload)))
  unfolding create_object
  named-IsExclusive i r payload (ok name) h idle e =
      create-IsExclusive i r name payload r.bucket.reachable (is_some (get r.bucket.objects name)) h
        idle e refl
  named-IsExclusive i r payload (fault f) h idle e = h

  asked-IsExclusive :
      (persist : Bool) (i : ℕ) (now : Moment) (r : Race)
      → IsExclusive r
      → IsExclusive
          (answered i r (acquire_submission_claim mask prefix run persist now (r.holds i) r.bucket))
  unfolding acquire_submission_claim claim_once claim_live_strategy_run create_json
  asked-IsExclusive false i now r h = h
  asked-IsExclusive true i now r h = elim (Bool-cases (r.holds i)) [
    | inl held ↦ simp held (lose-IsExclusive i r true held h)
    | inr idle ↦ simp idle (
        named-IsExclusive i r (claim_payload mask run now) (object_name prefix (claim_key run)) h
          idle refl)
  ]

  act-IsExclusive : (a : Action) (r : Race) → IsExclusive r → IsExclusive (act a r)
  unfolding act
  act-IsExclusive (outage up) r h = record { taken = h.taken; single = h.single }
  act-IsExclusive (write name payload) r h = record {
    taken = λ i hi n e.
        ground (arith, h.taken i hi n e, get-put r.bucket.objects name n (object payload));
    single = h.single;
  }
  act-IsExclusive (ask i now) r h = asked-IsExclusive persist_strategy_runs i now r h

  race-IsExclusive :
      (actions : List Action) (r : Race) → IsExclusive r → IsExclusive (race actions r)
  unfolding race
  race-IsExclusive [] r h = h
  race-IsExclusive (a ∷ rest) r h = race-IsExclusive rest (act a r) (act-IsExclusive a r h)

  -- However many processes ask for the claim of one run, in whatever order, with writes of any
  -- object and outages of the store between them: no two different processes are ever granted it.
  pub one_process_holds_the_claim :
      (actions : List Action) (bucket : Bucket) (i j : ℕ)
      → let end = race actions (record { bucket = bucket; holds = λ k. false }) in
        end.holds i ≡ true → end.holds j ≡ true → i ≡ j
  one_process_holds_the_claim actions bucket i j hi hj =
      let start : Race = record { bucket = bucket; holds = λ k. false } in
      (race-IsExclusive actions start
          (record { taken = λ k hk. cc; single = λ k l hk hl. cc })).single
        i j hi hj

module _ (mask : Text → Text) (prefix : Text) (run : RunId) where
  created-read :
      (b : Bucket) (payload : Payload) (name : Text) (up exists : Bool) {after : Bucket}
      → create_if_absent up exists b payload name ≡ ok (true, after)
      → (up ≡ true) × (after ≡ record b { objects = put b.objects name (object payload) })
  unfolding create_if_absent
  created-read b payload name up exists e = ground arith

  named-read :
      (b : Bucket) (payload : Payload) (q : Result Text) {after : Bucket}
      → (q >>= create_object b payload) ≡ ok (true, after)
      → (q >>= (λ name.
          if after.reachable then decode (get after.objects name) else fault persistence))
        ≡ ok (some payload)
  unfolding create_object decode
  named-read b payload (fault f) e = cc
  named-read b payload (ok name) e =
      let (up, same) = created-read b payload name b.reachable (is_some (get b.objects name)) e in
      rw same
        (simp up (ground (arith, get-put b.objects name name (object payload), text_eq_refl name)))

  effective :
      (now : Moment)
      → has_effective_live_submission_claim (some (claim_payload mask run now)) ≡ true
  unfolding has_effective_live_submission_claim claim_payload text_of get text_eq strip lstrip
      is_space
  effective now = refl

  -- A claim that was granted is read back as it was written, and blocks every later run.
  pub granted_claim_is_effective :
      (b : Bucket) (now : Moment) {after : Bucket}
      → claim_live_strategy_run mask prefix b run now ≡ ok (true, after)
      → (read_live_strategy_run_claim prefix after run ≡ ok (some (claim_payload mask run now)))
        × (has_effective_live_submission_claim (some (claim_payload mask run now)) ≡ true)
  unfolding claim_live_strategy_run read_live_strategy_run_claim create_json read_json
  granted_claim_is_effective b now e = (
    named-read b (claim_payload mask run now) (object_name prefix (claim_key run)) e,
    effective now,
  )
