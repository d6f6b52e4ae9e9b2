-- ===== src/State/Tests.antt =====
-- The theorems on durable state at concrete runs.
use firstrade_platform.Prelude.{
  ℕ, ◌≤◌, ◌≡◌, refl, ◌≢◌, Bool, true, false, some, List, [], ◌∷◌, Text, codes, length, is_alnum,
}
use firstrade_platform.State.Store.{
  Bucket, object, ok, create_json, create_object, create_if_absent, object_name,
  legacy_account_state_id,
}
use firstrade_platform.State.Store.Masking.{shown, legacy_account_state_id-masked}
use firstrade_platform.State.Keys.{Moment, safe_key, strategy_run_state_key, strategy_run_claim_key}
use firstrade_platform.State.Keys.Distinct.{
  dry_run_key_ne_live_key, claim_key-injective, state_key_ne_claim_key,
}
use firstrade_platform.State.Runs.{
  RunId, claim_payload, claim_live_strategy_run, acquire_submission_claim, claim_once,
}
use firstrade_platform.State.Runs.Claim.{
  Action, Race, ask, outage, race, act, one_process_holds_the_claim,
}

legacy_account_state_id-masked_example :
    (length (legacy_account_state_id (codes "12345678")) ≡ 8)
    × (shown (legacy_account_state_id (codes "12345678")) ≤ 4)
    × (8 ≤ 4 → shown (legacy_account_state_id (codes "12345678")) ≡ 0)
legacy_account_state_id-masked_example = legacy_account_state_id-masked (codes "12345678")

dry_run_key_ne_live_key_example :
    strategy_run_state_key (codes "acct") (codes "soxl") (codes "2026-10") true
    ≢ strategy_run_state_key (codes "dry-run") (codes "acct") (codes "soxl") false
dry_run_key_ne_live_key_example =
    dry_run_key_ne_live_key (codes "acct") (codes "dry-run") (codes "soxl") (codes "acct")
      (codes "2026-10") (codes "soxl")

claim_key-injective_example :
    (safe_key (codes "a.1") ≡ safe_key (codes "a_1"))
    × (safe_key (codes "soxl") ≡ safe_key (codes "soxl"))
    × (safe_key (codes "2026-10") ≡ safe_key (codes "2026-10"))
unfolding strategy_run_claim_key safe_key is_alnum
claim_key-injective_example =
    claim_key-injective (codes "a.1") (codes "a_1") (codes "soxl") (codes "soxl") (codes "2026-10")
      (codes "2026-10") refl

abbrev some_run : RunId
some_run = record {
  account = codes "12345678";
  strategy_profile = codes "soxl";
  run_period = codes "2026-10";
}

abbrev some_moment : Moment
some_moment = record {
  stamp = codes "20261001T000000Z";
  day_path = codes "2026/10/01";
  month = codes "2026-10";
  iso = codes "2026-10-01T00:00:00+00:00";
}

abbrev empty_bucket : Bucket
empty_bucket = record { objects = []; reachable = true }

-- Two processes ask, the first one before and after an outage.
abbrev two_processes : List Action
two_processes =
    outage false ∷ ask 1 some_moment ∷ outage true ∷ ask 2 some_moment ∷ ask 1 some_moment ∷ []

abbrev winner : ℕ
winner = 2

abbrev start : Race
start = record { bucket = empty_bucket; holds = λ k. false }

winner-holds :
    (race legacy_account_state_id (codes "state") some_run true two_processes start).holds winner
    ≡ true
unfolding race act acquire_submission_claim claim_once claim_live_strategy_run create_json
    object_name strategy_run_claim_key safe_key create_object create_if_absent
    firstrade_platform.Prelude.get firstrade_platform.Prelude.put is_alnum
winner-holds = refl

one_process_holds_the_claim_example : winner ≡ winner
one_process_holds_the_claim_example =
    one_process_holds_the_claim legacy_account_state_id (codes "state") some_run true two_processes
      empty_bucket winner winner winner-holds winner-holds

abbrev claimed_bucket : Bucket
claimed_bucket = record {
  objects =
      (
        codes "state/strategy-runs/claims/12345678/soxl/2026_10.json",
        object (claim_payload legacy_account_state_id some_run some_moment),
      )
      ∷ [];
  reachable = true;
}

-- The claim is in the bucket afterwards.
claim_is_granted :
    claim_live_strategy_run legacy_account_state_id
      (codes "state")
      empty_bucket
      some_run
      some_moment
    ≡ ok (true, claimed_bucket)
unfolding claim_live_strategy_run create_json object_name strategy_run_claim_key safe_key
    create_object create_if_absent firstrade_platform.Prelude.get firstrade_platform.Prelude.put
    is_alnum
claim_is_granted = refl

october-ne-latest : safe_key (codes "2026-10") ≢ codes "latest"
unfolding safe_key
october-ne-latest e = cc

state_key_ne_claim_key_example :
    strategy_run_state_key (codes "claims") (codes "acct") (codes "soxl") false
    ≢ strategy_run_claim_key (codes "acct") (codes "soxl") (codes "2026-10")
state_key_ne_claim_key_example =
    state_key_ne_claim_key (codes "claims") (codes "acct") (codes "acct") (codes "soxl")
      (codes "soxl") (codes "2026-10") false october-ne-latest
