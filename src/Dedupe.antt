-- ===== src/Dedupe.antt =====
-- scripts/runtime_guard_alert_dedupe.py: whether an alert of the runtime guard is a pure repeat.
-- Times are in seconds. A stored time is `none` where it does not parse. The fingerprint of the
-- issues, a hash, is an argument.
pub mod Repeats
mod Tests
use firstrade_platform.Prelude.{
  ℕ, ◌+◌, ◌*◌, Bool, true, false, not, ◌&&◌, Option, none, some, List, [], ◌∷◌, Text, codes,
  text_eq, strip, lower, sorted_set, keep, is_empty, length, Dict, get, put, has_key, leb, is_some,
  if◌then◌else◌, or_default,
}

pub data Mode : Type 0 where
  off dry_run on : Mode

unfoldable pub resolve_mode : Text → Mode
resolve_mode raw =
    let value = lower (strip raw) in
    if text_eq value (codes "dry_run")
    then dry_run
    else if text_eq value (codes "on")
    then on
    else off

pub data Reason : Type 0 where
  dedupe_off new_failure_events new_issue_type reminder_due repeat_within_reminder_window : Reason

pub record DedupeDecision : Type 0 where
  pub mode : Mode
  pub send : Bool
  pub would_suppress : Bool
  pub new_event_count : ℕ
  pub new_issue_fingerprint : Bool
  pub reason : Reason

pub record State : Type 0 where
  pub events : Dict (Option ℕ)
  pub issues : Dict (Option ℕ)

-- `EVENT_RETENTION_HOURS`
abbrev pub event_retention : ℕ
event_retention = 48 * 3600

-- within the retention; a time that does not parse counts as now
abbrev pub is_retained : ℕ → Option ℕ → Bool
is_retained now none = true
is_retained now (some t) = leb now (t + event_retention)

unfoldable pub prune_events : ℕ → Dict (Option ℕ) → Dict (Option ℕ)
prune_events now [] = []
prune_events now ((key, value) ∷ rest) =
    let kept = prune_events now rest in if is_retained now value then (key, value) ∷ kept else kept

unfoldable pub prune : State → ℕ → State
prune s now = record s { events = prune_events now s.events }

-- `[item for item in ids if item not in events]`
unfoldable pub new_ids : Dict (Option ℕ) → List Text → List Text
new_ids events [] = []
new_ids events (i ∷ ids) =
    let rest = new_ids events ids in if has_key events i then rest else i ∷ rest

-- `events.setdefault(item, stamp)` for each id
unfoldable pub remember : ℕ → List Text → Dict (Option ℕ) → Dict (Option ℕ)
remember stamp [] events = events
remember stamp (i ∷ ids) events =
    remember stamp ids (if has_key events i then events else put events i (some stamp))

-- the time of the last alert for a fingerprint
unfoldable pub last_alert : Dict (Option ℕ) → Text → Option ℕ
last_alert issues fingerprint = or_default (get issues fingerprint) none

unfoldable pub is_due : ℕ → ℕ → Option ℕ → Bool
is_due reminder stamp none = false
is_due reminder stamp (some last) = leb (last + reminder) stamp

unfoldable pub judge : List Text → Option ℕ → Bool → Reason
judge fresh last due =
    if not (is_empty fresh)
    then new_failure_events
    else if not (is_some last)
    then new_issue_type
    else if due
    then reminder_due
    else repeat_within_reminder_window

abbrev pub is_repeat : Reason → Bool
is_repeat repeat_within_reminder_window = true
is_repeat _ = false

abbrev pub is_on : Mode → Bool
is_on on = true
is_on _ = false

-- `sorted({str(item) for item in event_ids if str(item)})`
unfoldable pub event_set : List Text → List Text
event_set ids = sorted_set (keep (λ i. not (is_empty i)) ids)

-- The decision on the pruned state, and the state that is saved.
unfoldable pub decide_on : ℕ → Mode → Text → List Text → ℕ → State → DedupeDecision × State
decide_on reminder mode fingerprint ids stamp s =
    let fresh = new_ids s.events ids in
    let last = last_alert s.issues fingerprint in
    let reason = judge fresh last (is_due reminder stamp last) in
    let repeat = is_repeat reason in
    (
      record {
        mode = mode;
        send = not (repeat && is_on mode);
        would_suppress = repeat;
        new_event_count = length fresh;
        new_issue_fingerprint = not (is_some last);
        reason = reason;
      },
      record {
        events = remember stamp ids s.events;
        issues = if repeat then s.issues else put s.issues fingerprint (some stamp);
      },
    )

-- `decide`: the reminder interval in seconds, the mode, the fingerprint, the event ids and the time.
unfoldable pub decide : ℕ → Mode → Text → List Text → ℕ → State → DedupeDecision × State
decide reminder off fingerprint event_ids stamp s = (
  record {
    mode = off;
    send = true;
    would_suppress = false;
    new_event_count = length (event_set event_ids);
    new_issue_fingerprint = true;
    reason = dedupe_off;
  },
  s,
)
decide reminder mode fingerprint event_ids stamp s =
    decide_on reminder mode fingerprint (event_set event_ids) stamp (prune s stamp)

-- `clear_issues`: a healthy run forgets the fingerprints.
unfoldable pub clear_issues : Mode → ℕ → State → State
clear_issues off stamp s = s
clear_issues _ stamp s = record (prune s stamp) { issues = [] }
