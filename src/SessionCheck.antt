-- ===== src/SessionCheck.antt =====
-- application/session_check_service.py: whether a session check is due, the check, and its states.
-- The strategy's context comes from the registry and the broker's answer from the client: both are
-- arguments.
pub mod Due
mod Tests
use firstrade_platform.Prelude.{
  ℕ, ◌+◌, ◌-◌, ◌/◌, Bool, true, false, not, ◌&&◌, ◌||◌, Option, none, some, List, [], ◌∷◌, ◌++◌,
  Text, codes, Dict, get, strip, lower, upper, one_of, is_empty, is_substring, is_some, or_default,
  map, Float, if◌then◌else◌,
}
use firstrade_platform.State.Store.{
  Field, null, text, flag, Payload, Bucket, Result, ok, fault, ◌>>=◌, read_json, write_json,
  legacy_account_state_id,
}
use firstrade_platform.State.Keys.{Moment, safe_key}
use firstrade_platform.State.Runs.{text_of}
use firstrade_platform.Broker.Payload.{Json, Reading, float_or_none, str_ℕ}
use firstrade_platform.Broker.Fields.{get_first, text_of_value, iter_position_rows}
use firstrade_platform.Broker.Adapters.{is_falsy}

pub data Policy : Type 0 where
  auto always skip : Policy

abbrev pub policy_text : Policy → Text
policy_text auto = codes "auto"
policy_text always = codes "always"
policy_text skip = codes "skip"

abbrev pub skip_values : List Text
skip_values =
    codes "skip" ∷ codes "never" ∷ codes "disabled" ∷ codes "off" ∷ codes "false" ∷ codes "0" ∷ []

abbrev pub always_values : List Text
always_values = codes "always" ∷ codes "run" ∷ codes "true" ∷ codes "1" ∷ []

unfoldable pub normalize_session_check_policy : Text → Policy
normalize_session_check_policy raw =
    let value = lower (strip raw) in
    if one_of value always_values then always else if one_of value skip_values then skip else auto

-- What the registry knows of the configured strategy. `failed` stands for `strategy_error`.
pub record StrategyContext : Type 0 where
  pub strategy_profile : Option Text
  pub cadence : Option Text
  pub required_inputs : List Text
  pub failed : Bool

-- A time as the check renders it: the moment of the states, `%G-W%V`, the year and the month.
pub record CheckTime : Type 0 where
  pub moment : Moment
  pub week : Text
  pub year : Text
  pub month_number : ℕ

abbrev pub year_quarter : CheckTime → Text
year_quarter now = now.year ++ codes "-Q" ++ str_ℕ ((now.month_number - 1) / 3 + 1)

-- The period of a check, if its strategy is throttled, and the reason.
unfoldable pub session_check_period : Option Text → List Text → CheckTime → Option Text × Text
session_check_period cadence required_inputs now =
    let cadence_text = lower (strip (or_default cadence [])) in
    if is_substring (codes "daily") cadence_text || is_substring (codes "intraday") cadence_text
    then (none, codes "daily_strategy")
    else if is_substring (codes "weekly") cadence_text
    then (some now.week, codes "weekly_strategy")
    else if is_substring (codes "monthly") cadence_text
    then (some now.moment.month, codes "monthly_strategy")
    else if is_substring (codes "quarterly") cadence_text
    then (some (year_quarter now), codes "quarterly_strategy")
    else if one_of (codes "feature_snapshot") required_inputs
    then (some now.moment.month, codes "feature_snapshot_strategy")
    else (none, codes "unthrottled_strategy")

unfoldable pub session_check_state_key : Text → Text → Text → Text
session_check_state_key firstrade_account strategy_profile period =
    let selector = strip firstrade_account in
    let account_key =
      if is_empty selector then codes "auto" else safe_key (legacy_account_state_id selector) in
    codes "session-checks/"
    ++ (account_key
        ++ b'/' ∷ (safe_key strategy_profile ++ b'/' ∷ (safe_key period ++ codes "/latest.json")))

pub record Decision : Type 0 where
  pub should_run : Bool
  pub policy : Policy
  pub period : Option Text
  pub state_key : Option Text
  pub reason : Text
  pub last_checked_at : Option Text

-- The environment and the time of a check. The store is given by its prefix.
pub record CheckSetup : Type 0 where
  pub policy : Text
  pub firstrade_account : Text
  pub context : StrategyContext
  pub now : CheckTime
  pub store : Option Text
  pub persist_account_snapshot : Bool

abbrev pub without_period : Bool → Policy → Text → Decision
without_period run policy reason = record {
  should_run = run;
  policy = policy;
  period = none;
  state_key = none;
  reason = reason;
  last_checked_at = none;
}

abbrev pub on_period : Bool → Text → Text → Text → Option Text → Decision
on_period run period key reason last = record {
  should_run = run;
  policy = auto;
  period = some period;
  state_key = some key;
  reason = reason;
  last_checked_at = last;
}

abbrev pub text_or_none : Text → Option Text
text_or_none s = if is_empty s then none else some s

-- What the stored state of the period decides. An empty state is none.
unfoldable pub decide_on_state : Text → Text → Text → Result (Option Payload) → Decision
decide_on_state period key reason (fault e) =
    on_period true period key (codes "state_read_failed") none
decide_on_state period key reason (ok none) =
    on_period true period key (reason ++ codes "_due") none
decide_on_state period key reason (ok (some [])) =
    on_period true period key (reason ++ codes "_due") none
decide_on_state period key reason (ok (some (entry ∷ rest))) =
    on_period false period key reason
      (text_or_none (text_of (get (entry ∷ rest) (codes "checked_at"))))

unfoldable pub decide_on_store : Text → Text → Text → Option Text → Bucket → Decision
decide_on_store period key reason none b =
    on_period true period key (codes "state_store_unavailable") none
decide_on_store period key reason (some prefix) b =
    decide_on_state period key reason (read_json prefix b key)

unfoldable pub decide_on_period : CheckSetup → Text → Option Text × Text → Bucket → Decision
decide_on_period e profile (none, reason) b = without_period true auto reason
decide_on_period e profile (some period, reason) b =
    decide_on_store period (session_check_state_key e.firstrade_account profile period) reason
      e.store b

unfoldable pub decide_on_profile : CheckSetup → Option Text → Bucket → Decision
decide_on_profile e none b = without_period true auto (codes "strategy_context_unavailable")
decide_on_profile e (some profile) b =
    if e.context.failed || is_empty profile
    then without_period true auto (codes "strategy_context_unavailable")
    else decide_on_period e profile
        (session_check_period e.context.cadence e.context.required_inputs e.now) b

unfoldable pub decide_on_policy : CheckSetup → Policy → Bucket → Decision
decide_on_policy e skip b = without_period false skip (codes "policy_skip")
decide_on_policy e always b = without_period true always (codes "policy_always")
decide_on_policy e auto b = decide_on_profile e e.context.strategy_profile b

-- `resolve_session_check_maintenance_decision`
unfoldable pub resolve_decision : CheckSetup → Bucket → Decision
resolve_decision e b = decide_on_policy e (normalize_session_check_policy e.policy) b

-- What a check reads from the broker.
pub record Account : Type 0 where
  pub account : Text
  pub session_reused : Bool
  pub funds_snapshot : Payload

abbrev pub optional : Option Text → Field
optional none = null
optional (some t) = text t

-- The payload of a finished check. `inputs` is the JSON list of the required inputs.
unfoldable pub check_state : CheckSetup → Decision → Account → Field → Payload
check_state e decision a inputs =
    (codes "checked_at", text e.now.moment.iso)
    ∷ (codes "account", text a.account)
    ∷ (codes "session_reused", flag a.session_reused)
    ∷ (codes "strategy_profile", optional e.context.strategy_profile)
    ∷ (codes "strategy_cadence", optional e.context.cadence)
    ∷ (codes "strategy_required_inputs", inputs)
    ∷ (codes "period", optional decision.period)
    ∷ (codes "policy", text (policy_text decision.policy))
    ∷ []

abbrev pub account_key : Payload → Text
account_key snapshot =
    let account = text_of (get snapshot (codes "account")) in
    safe_key (if is_empty account then codes "unknown" else account)

unfoldable pub persist_funds_snapshot : Text → Payload → Moment → Bucket → Result Bucket
persist_funds_snapshot prefix snapshot now b =
    let folder = codes "accounts/" ++ (account_key snapshot ++ codes "/funds/") in
    write_json prefix b (folder ++ codes "latest.json") snapshot >>= λ b'.
    write_json prefix b'
      (folder ++ (codes "history/" ++ (now.day_path ++ b'/' ∷ (now.stamp ++ codes ".json"))))
      snapshot

-- `_compact_positions`: the symbol, the quantity and the market value of each row that has a symbol.
unfoldable pub compact_positions :
    {F : Type 0} ⦃d : Float F⦄ → Reading F → List (Dict Json) → List (Text × Option F × Option F)
compact_positions py [] = []
compact_positions py (row ∷ rows) =
    let rest = compact_positions py rows in
    let symbol = get_first row (codes "symbol" ∷ codes "ticker" ∷ codes "security_symbol" ∷ []) in
    if is_falsy symbol
    then rest
    else (
      upper (strip (text_of_value py symbol)),
      float_or_none py (get_first row (codes "quantity" ∷ codes "shares" ∷ codes "qty" ∷ [])),
      float_or_none py (
          get_first row (
            codes "market_value"
            ∷ codes "marketValue"
            ∷ codes "value"
            ∷ codes "current_value"
            ∷ [])),
    )
      ∷ rest

pub data CheckOutcome : Type 0 where
  skipped : Decision → CheckOutcome
  -- the snapshot and the state were persisted
  checked : Decision → Bool → Bool → CheckOutcome
  raised : CheckOutcome

abbrev pub tried_write : Bucket → Result Bucket → Bool × Bucket
tried_write b (ok after) = (true, after)
tried_write b (fault e) = (false, b)

unfoldable pub try_snapshot : CheckSetup → Account → Bucket → Bool × Bucket
try_snapshot e a b = elim (e.store) [
  | none ↦ (false, b)
  | some prefix ↦
      if e.persist_account_snapshot
      then tried_write b (persist_funds_snapshot prefix a.funds_snapshot e.now.moment b)
      else (false, b)
]

unfoldable pub write_state : Option Text → Option Text → Payload → Bucket → Bool × Bucket
write_state none key state b = (false, b)
write_state (some prefix) none state b = (false, b)
write_state (some prefix) (some key) state b = tried_write b (write_json prefix b key state)

-- `run_session_check`; the broker's answer is nothing where the client raises.
unfoldable pub after_read :
    CheckSetup → Decision → Field → Option Account → Bucket → CheckOutcome × Bucket
after_read e decision inputs none b = (raised, b)
after_read e decision inputs (some a) b =
    let (snapshot_persisted, after_snapshot) = try_snapshot e a b in
    let (state_persisted, after_state) =
      write_state e.store decision.state_key (check_state e decision a inputs) after_snapshot in
    (checked decision snapshot_persisted state_persisted, after_state)

unfoldable pub run_session_check :
    CheckSetup → Field → Option Account → Bucket → CheckOutcome × Bucket
run_session_check e inputs answer b =
    let decision = resolve_decision e b in
    if decision.should_run then after_read e decision inputs answer b else (skipped decision, b)
