-- ===== src/Dedupe/Tests.antt =====
-- An alert that comes a second time, and the theorems at it.
use firstrade_platform.Prelude.{
  ℕ, ◌<◌, ◌≡◌, refl, ◌≢◌, true, false, none, some, List, [], ◌∷◌, Text, codes, arith, ltb,
}
use firstrade_platform.Dedupe.{Mode, off, dry_run, on, State, decide}
use firstrade_platform.Dedupe.Repeats.{
  IsSuppressible, withheld_only_if_repeat, second_decision_is_repeat,
}

abbrev day : ℕ
day = 86400

-- The event and the issues were alerted at the time 1000.
abbrev alerted : State
alerted = record { events = (codes "e1", some 1000) ∷ []; issues = (codes "fp", some 1000) ∷ [] }

repeat_is_withheld : (decide day on (codes "fp") (codes "e1" ∷ []) 2000 alerted).0.send ≡ false
unfolding decide firstrade_platform.Dedupe.decide_on firstrade_platform.Dedupe.judge
    firstrade_platform.Dedupe.new_ids firstrade_platform.Dedupe.event_set
    firstrade_platform.Prelude.sorted_set firstrade_platform.Prelude.insert_sorted
    firstrade_platform.Prelude.has_key firstrade_platform.Dedupe.prune
    firstrade_platform.Dedupe.prune_events firstrade_platform.Dedupe.last_alert
    firstrade_platform.Prelude.get firstrade_platform.Dedupe.is_due
repeat_is_withheld = refl

withheld_only_if_repeat_example :
    (on ≡ on) × IsSuppressible day (codes "fp") (codes "e1" ∷ []) 2000 alerted
withheld_only_if_repeat_example =
    withheld_only_if_repeat day (codes "fp") (codes "e1" ∷ []) 2000 alerted on repeat_is_withheld

day-positive : 0 < day
day-positive = omega arith

on-ne-off : on ≢ off
on-ne-off e = cc

second_decision_is_repeat_example :
    let after =
      (decide day on (codes "fp") (codes "e1" ∷ []) 2000 (record { events = []; issues = [] })).1 in
    (decide day on (codes "fp") (codes "e1" ∷ []) 2000 after).0.would_suppress ≡ true
second_decision_is_repeat_example =
    second_decision_is_repeat day day-positive (codes "fp") 2000 on (codes "e1" ∷ [])
      (record { events = []; issues = [] }) on-ne-off
