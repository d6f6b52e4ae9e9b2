-- ===== src/State/Runs.antt =====
-- application/strategy_run_persistence.py: the claim of a live run and its durable states; and
-- `acquire_submission_claim` of application/rebalance_service.py, which the execution cycle calls
-- before each live order.
pub mod Claim
pub mod Kept
use firstrade_platform.Prelude.{
  ℕ, Bool, true, false, not, ◌&&◌, Option, none, some, List, [], ◌∷◌, ◌++◌, Text, codes, text_eq,
  strip, Dict, get, put, is_empty, ◌==◌, if◌then◌else◌, or_default,
}
use firstrade_platform.State.Store.{
  Field, null, text, flag, json_value, Payload, Bucket, Fault, runs_not_persisted, Result, ok,
  fault, ◌>>=◌, read_json, write_json, create_json,
}
use firstrade_platform.State.Keys.{
  Moment, strategy_run_state_key, strategy_run_history_key, strategy_run_claim_key,
}

-- `str(value or "")`
unfoldable pub text_of : Option Field → Text
text_of none = []
text_of (some null) = []
text_of (some (text t)) = t
text_of (some (flag true)) = codes "True"
text_of (some (flag false)) = []
text_of (some (json_value s true)) = s
text_of (some (json_value s false)) = []

-- `bool(value)`
unfoldable pub truth_of : Option Field → Bool
truth_of none = false
truth_of (some null) = false
truth_of (some (text t)) = not (is_empty t)
truth_of (some (flag b)) = b
truth_of (some (json_value s b)) = b

abbrev pub or_text : Text → Text → Text
or_text s default = if is_empty s then default else s

abbrev pub live_submission_claim_boundary : Text
live_submission_claim_boundary = codes "pre_broker_request_v2"

-- What a run is known by.
pub record RunId : Type 0 where
  pub account : Text
  pub strategy_profile : Text
  pub run_period : Text

abbrev pub claim_key : RunId → Text
claim_key r = strategy_run_claim_key r.account r.strategy_profile r.run_period

-- `mask` is `mask_account_id` of application/firstrade_client.py.
unfoldable pub claim_payload : (Text → Text) → RunId → Moment → Payload
claim_payload mask r now =
    (codes "stage", text (codes "PENDING_SUBMISSION"))
    ∷ (codes "submission_claim_boundary", text live_submission_claim_boundary)
    ∷ (codes "account", text (mask r.account))
    ∷ (codes "strategy_profile", text r.strategy_profile)
    ∷ (codes "run_period", text r.run_period)
    ∷ (codes "as_of", text now.iso)
    ∷ (codes "no_order_submitted", flag true)
    ∷ []

unfoldable pub claim_live_strategy_run :
    (Text → Text) → Text → Bucket → RunId → Moment → Result (Bool × Bucket)
claim_live_strategy_run mask prefix b r now =
    create_json prefix b (claim_key r) (claim_payload mask r now)

unfoldable pub read_live_strategy_run_claim : Text → Bucket → RunId → Result (Option Payload)
read_live_strategy_run_claim prefix b r = read_json prefix b (claim_key r)

unfoldable pub has_effective_live_submission_claim : Option Payload → Bool
has_effective_live_submission_claim claim =
    text_eq (strip (text_of (get (or_default claim []) (codes "submission_claim_boundary"))))
      live_submission_claim_boundary

unfoldable pub read_latest_strategy_run_state : Text → Bucket → RunId → Result (Option Payload)
read_latest_strategy_run_state prefix b r =
    read_json prefix b (strategy_run_state_key r.account r.strategy_profile r.run_period false)

-- The shared kit decides which stages are terminal; an empty state is no state.
unfoldable pub is_duplicate_live_run : (Text → Bool) → Option Payload → Bool
is_duplicate_live_run is_terminal none = false
is_duplicate_live_run is_terminal (some state) =
    not (is_empty state)
    && not (truth_of (get state (codes "dry_run_only")))
    && is_terminal (text_of (get state (codes "stage")))

-- The keys that one state is written under: the latest one, then the history.
pub record StateKeys : Type 0 where
  pub latest : Text
  pub history : Text

unfoldable pub state_keys : Payload → Option Text → Moment → StateKeys
state_keys state storage_account now =
    let account =
      or_default storage_account
        (or_text (text_of (get state (codes "account"))) (codes "unknown")) in
    let profile = or_text (text_of (get state (codes "strategy_profile"))) (codes "unknown") in
    let period = or_text (text_of (get state (codes "run_period"))) now.month in
    let stage = or_text (text_of (get state (codes "stage"))) (codes "UNKNOWN") in
    let dry = truth_of (get state (codes "dry_run_only")) in
    record {
      latest = strategy_run_state_key account profile period dry;
      history = strategy_run_history_key account profile period stage now dry;
    }

unfoldable pub persist_strategy_run_state :
    Text → Bucket → Payload → Option Text → Moment → Result Bucket
persist_strategy_run_state prefix b state storage_account now =
    let keys = state_keys state storage_account now in
    write_json prefix b keys.latest state >>= λ b'. write_json prefix b' keys.history state

-- `acquire_submission_claim`: the flag that the closure keeps, the answer, and the bucket.
pub record Acquired : Type 0 where
  pub answer : Bool
  pub held : Bool
  pub bucket : Bucket

-- its lines after the test of `persist_strategy_runs`
unfoldable pub claim_once : (Text → Text) → Text → RunId → Moment → Bool → Bucket → Result Acquired
claim_once mask prefix r now true b = ok (record { answer = true; held = true; bucket = b })
claim_once mask prefix r now false b = claim_live_strategy_run mask prefix b r now >>= λ claim.
    ok (record { answer = claim.0; held = claim.0; bucket = claim.1 })

-- Without the persistence of runs the callback raises.
unfoldable pub acquire_submission_claim :
    (Text → Text) → Text → RunId → Bool → Moment → Bool → Bucket → Result Acquired
acquire_submission_claim mask prefix r true now held b = claim_once mask prefix r now held b
acquire_submission_claim mask prefix r false now held b = fault runs_not_persisted
