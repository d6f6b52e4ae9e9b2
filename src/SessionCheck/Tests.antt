-- ===== src/SessionCheck/Tests.antt =====
-- The theorem on session checks at two checks of one month.
use firstrade_platform.Prelude.{
  ℕ, ◌≡◌, refl, Bool, true, false, some, List, [], ◌∷◌, ◌++◌, Text, codes,
}
use firstrade_platform.State.Store.{Bucket, null, text, Payload}
use firstrade_platform.State.Keys.{Moment}
use firstrade_platform.SessionCheck.{
  CheckTime, CheckSetup, Account, checked, resolve_decision, run_session_check,
  session_check_period,
}
use firstrade_platform.SessionCheck.Due.{IsMade, resolve_decision-run_session_check}

abbrev october : Text → CheckTime
october day = record {
  moment = record {
    stamp = codes "202610" ++ (day ++ codes "T000000Z");
    day_path = codes "2026/10/" ++ day;
    month = codes "2026-10";
    iso = codes "2026-10-" ++ (day ++ codes "T00:00:00+00:00");
  };
  week = codes "2026-W40";
  year = codes "2026";
  month_number = 10;
}

abbrev monthly : CheckSetup
monthly = record {
  policy = codes " Auto ";
  firstrade_account = codes "12345678";
  context = record {
    strategy_profile = some (codes "soxl");
    cadence = some (codes "Monthly");
    required_inputs = [];
    failed = false;
  };
  now = october (codes "01");
  store = some (codes "state");
  persist_account_snapshot = true;
}

abbrev some_account : Account
some_account = record {
  account = codes "12345678";
  session_reused = true;
  funds_snapshot = (codes "account", text (codes "12345678")) ∷ [];
}

abbrev empty_bucket : Bucket
empty_bucket = record { objects = []; reachable = true }

abbrev after_first : Bucket
after_first = (run_session_check monthly null (some some_account) empty_bucket).1

first_is_checked :
    run_session_check monthly null (some some_account) empty_bucket
    ≡ (checked (resolve_decision monthly empty_bucket) true true, after_first)
unfolding run_session_check resolve_decision firstrade_platform.SessionCheck.decide_on_policy
    firstrade_platform.SessionCheck.normalize_session_check_policy firstrade_platform.Prelude.one_of
    firstrade_platform.Prelude.lower firstrade_platform.Prelude.strip
    firstrade_platform.SessionCheck.decide_on_profile
    firstrade_platform.SessionCheck.decide_on_period session_check_period
    firstrade_platform.Prelude.is_substring firstrade_platform.SessionCheck.decide_on_store
    firstrade_platform.SessionCheck.decide_on_state firstrade_platform.State.Store.read_json
    firstrade_platform.State.Store.object_name
    firstrade_platform.SessionCheck.session_check_state_key firstrade_platform.State.Keys.safe_key
    firstrade_platform.Prelude.get firstrade_platform.Prelude.put
    firstrade_platform.Prelude.is_alnum firstrade_platform.SessionCheck.after_read
    firstrade_platform.SessionCheck.persist_funds_snapshot
    firstrade_platform.SessionCheck.try_snapshot firstrade_platform.SessionCheck.write_state
    firstrade_platform.State.Runs.text_of firstrade_platform.State.Store.decode
    firstrade_platform.State.Store.legacy_account_state_id firstrade_platform.State.Store.write_json
    firstrade_platform.State.Store.write_object
first_is_checked = refl

same_period :
    session_check_period (some (codes "Monthly")) [] (october (codes "31"))
    ≡ session_check_period (some (codes "Monthly")) [] (october (codes "01"))
unfolding session_check_period
same_period = refl

resolve_decision-run_session_check_example :
    IsMade
      (codes "2026-10-01T00:00:00+00:00")
      (resolve_decision (record monthly { now = october (codes "31") }) after_first)
resolve_decision-run_session_check_example =
    resolve_decision-run_session_check monthly (october (codes "31")) null some_account empty_bucket
      after_first (resolve_decision monthly empty_bucket) true same_period first_is_checked
