-- ===== src/Dedupe/Repeats.antt =====
-- Which alerts are suppressed.
use firstrade_platform.Prelude.{
  ℕ, ◌+◌, ◌<◌, ◌≡◌, refl, Bool, true, false, Option, none, some, List, [], ◌∷◌, Text, text_eq,
  text_eq_iff, text_eq_refl, Dict, put, get-put, has_key, arith, ◌||◌, ◌≢◌, if◌then◌else◌,
  Bool-cases, inl, inr,
}
use firstrade_platform.Dedupe.{
  Mode, off, dry_run, on, State, is_retained, prune_events, prune, new_ids, remember, last_alert,
  is_due, judge, is_repeat, event_set, decide_on, decide,
}

judge-repeat :
    (reminder stamp : ℕ) (fresh : List Text) (last : Option ℕ)
    → is_repeat (judge fresh last (is_due reminder stamp last)) ≡ true
    → (fresh ≡ []) × (l : ℕ) × (last ≡ some l) × (stamp < l + reminder)
unfolding judge is_due
judge-repeat reminder stamp (i ∷ fresh) last h = cc
judge-repeat reminder stamp [] none h = cc
judge-repeat reminder stamp [] (some l) h = (refl, l, refl, ground arith)

module _ (reminder : ℕ) (fingerprint : Text) (event_ids : List Text) (stamp : ℕ) (s : State) where
  -- what it takes to suppress an alert
  pub record IsSuppressible : Type 0 where
    pub known_events : new_ids (prune s stamp).events (event_set event_ids) ≡ []
    pub last : ℕ
    pub alerted : last_alert s.issues fingerprint ≡ some last
    pub within : stamp < last + reminder

  -- An alert is withheld only in the mode `on`, and only where every event is known and the same
  -- issues were alerted less than the reminder interval ago.
  pub withheld_only_if_repeat :
      (mode : Mode)
      → (decide reminder mode fingerprint event_ids stamp s).0.send ≡ false
      → (mode ≡ on) × IsSuppressible
  unfolding decide decide_on prune
  withheld_only_if_repeat off h = cc
  withheld_only_if_repeat dry_run h = ground arith
  withheld_only_if_repeat on h =
      let fresh = new_ids (prune_events stamp s.events) (event_set event_ids) in
      let (known, l, alerted, soon) =
        judge-repeat reminder stamp fresh (last_alert s.issues fingerprint) (ground arith) in
      (refl, record { known_events = known; last = l; alerted = alerted; within = soon })

-- Every entry of the dict is within the retention.
abbrev AllRetained : ℕ → Dict (Option ℕ) → Type 0
AllRetained now [] = Unit
AllRetained now ((_, v) ∷ d) = (is_retained now v ≡ true) × AllRetained now d

prune_events-AllRetained : (now : ℕ) (d : Dict (Option ℕ)) → AllRetained now (prune_events now d)
unfolding prune_events
prune_events-AllRetained now [] = tt
prune_events-AllRetained now ((k, v) ∷ d) = elim (Bool-cases (is_retained now v)) [
  | inl kept ↦ rw kept (kept, prune_events-AllRetained now d)
  | inr old ↦ rw old (prune_events-AllRetained now d)
]

prune_events-same : (now : ℕ) (d : Dict (Option ℕ)) → AllRetained now d → prune_events now d ≡ d
unfolding prune_events
prune_events-same now [] h = refl
prune_events-same now ((k, v) ∷ d) h = ground (arith, prune_events-same now d h.1)

put-AllRetained :
    (now : ℕ) (k : Text) (d : Dict (Option ℕ))
    → AllRetained now d
    → AllRetained now (put d k (some now))
unfolding put
put-AllRetained now k [] h = (ground arith, tt)
put-AllRetained now k ((j, v) ∷ d) h = elim (Bool-cases (text_eq j k)) [
  | inl same ↦ rw same (ground arith, h.1)
  | inr other ↦ rw other (h.0, put-AllRetained now k d h.1)
]

has_key-put :
    (d : Dict (Option ℕ)) (k j : Text) (v : Option ℕ)
    → has_key (put d k v) j ≡ (text_eq k j || has_key d j)
unfolding has_key put
has_key-put [] k j v = refl
has_key-put ((i, w) ∷ d) k j v =
    ground (arith, has_key-put d k j v, text_eq_iff i k, text_eq_iff i j, text_eq_iff k j)

-- one id remembered
abbrev noted : ℕ → Text → Dict (Option ℕ) → Dict (Option ℕ)
noted stamp i events = if has_key events i then events else put events i (some stamp)

noted-knows :
    (stamp : ℕ) (i j : Text) (d : Dict (Option ℕ))
    → has_key (noted stamp i d) j ≡ (text_eq i j || has_key d j)
noted-knows stamp i j d = ground (arith, has_key-put d i j (some stamp), text_eq_iff i j)

noted-AllRetained :
    (stamp : ℕ) (i : Text) (d : Dict (Option ℕ))
    → AllRetained stamp d
    → AllRetained stamp (noted stamp i d)
noted-AllRetained stamp i d h = elim (Bool-cases (has_key d i)) [
  | inl known ↦ rw known h
  | inr fresh ↦ rw fresh (put-AllRetained stamp i d h)
]

remember-AllRetained :
    (stamp : ℕ) (ids : List Text) (d : Dict (Option ℕ))
    → AllRetained stamp d
    → AllRetained stamp (remember stamp ids d)
unfolding remember
remember-AllRetained stamp [] d h = h
remember-AllRetained stamp (i ∷ ids) d h =
    remember-AllRetained stamp ids (noted stamp i d) (noted-AllRetained stamp i d h)

remember-knows :
    (stamp : ℕ) (ids : List Text) (j : Text) (d : Dict (Option ℕ))
    → has_key d j ≡ true
    → has_key (remember stamp ids d) j ≡ true
unfolding remember
remember-knows stamp [] j d h = h
remember-knows stamp (i ∷ ids) j d h =
    remember-knows stamp ids j (noted stamp i d) (ground (arith, noted-knows stamp i j d))

-- all ids of the list are keys
abbrev AllKnown : Dict (Option ℕ) → List Text → Type 0
AllKnown d [] = Unit
AllKnown d (i ∷ ids) = (has_key d i ≡ true) × AllKnown d ids

known-no_new : (d : Dict (Option ℕ)) (ids : List Text) → AllKnown d ids → new_ids d ids ≡ []
unfolding new_ids
known-no_new d [] h = refl
known-no_new d (i ∷ ids) h = ground (arith, known-no_new d ids h.1)

remember-AllKnown :
    (stamp : ℕ) (ids : List Text) (d : Dict (Option ℕ)) → AllKnown (remember stamp ids d) ids
unfolding remember
remember-AllKnown stamp [] d = tt
remember-AllKnown stamp (i ∷ ids) d = (
  remember-knows stamp ids i (noted stamp i d)
      (ground (arith, noted-knows stamp i i d, text_eq_refl i)),
  remember-AllKnown stamp ids (noted stamp i d),
)

module _ (reminder : ℕ) (positive : 0 < reminder) (fingerprint : Text) (stamp : ℕ) where
  judged-repeat :
      (last : Option ℕ) (l : ℕ)
      → last ≡ some l
      → stamp < l + reminder
      → is_repeat (judge [] last (is_due reminder stamp last)) ≡ true
  unfolding judge is_due
  judged-repeat last l e soon = rw e (ground arith)

  put-last :
      (issues : Dict (Option ℕ))
      → last_alert (put issues fingerprint (some stamp)) fingerprint ≡ some stamp
  unfolding last_alert
  put-last issues =
      rw (get-put issues fingerprint fingerprint (some stamp))
        (simp (text_eq_refl fingerprint) refl)

  -- what the saved issues say of the fingerprint, by what was decided
  saved-last :
      (fresh : List Text) (issues : Dict (Option ℕ)) (b : Bool)
      → is_repeat (
          judge fresh
            (last_alert issues fingerprint)
            (is_due reminder stamp (last_alert issues fingerprint)))
        ≡ b
      → (l : ℕ) × (last_alert
            (if b then issues else put issues fingerprint (some stamp))
            fingerprint
          ≡ some l)
        × (stamp < l + reminder)
  saved-last fresh issues true e =
      let (none_new, l, alerted, soon) =
        judge-repeat reminder stamp fresh (last_alert issues fingerprint) e in
      (l, alerted, soon)
  saved-last fresh issues false e = (stamp, put-last issues, omega (arith, positive))

  again :
      (event_ids : List Text) (s : State)
      → let ids = event_set event_ids in
        let events = remember stamp ids (prune_events stamp s.events) in
        let last =
          last_alert
            (decide_on reminder on fingerprint ids stamp (prune s stamp)).1.issues
            fingerprint in
        is_repeat
          (judge (new_ids (prune_events stamp events) ids) last (is_due reminder stamp last))
        ≡ true
  unfolding decide_on prune
  again event_ids s =
      let ids = event_set event_ids in
      let old = prune_events stamp s.events in
      let kept = remember-AllRetained stamp ids old (prune_events-AllRetained stamp s.events) in
      let (l, e, soon) = saved-last (new_ids old ids) s.issues _ refl in
      rw (prune_events-same stamp (remember stamp ids old) kept) (
        rw (known-no_new (remember stamp ids old) ids (remember-AllKnown stamp ids old))
          (judged-repeat _ l e soon))

  -- The same alert at the same moment is a repeat: if the mode is not `off` and the reminder interval
  -- is positive, then whatever the state was, a second decision on the state that the first one
  -- saved would be suppressed.
  pub second_decision_is_repeat :
      (mode : Mode) (event_ids : List Text) (s : State)
      → mode ≢ off
      → let after = (decide reminder mode fingerprint event_ids stamp s).1 in
        (decide reminder mode fingerprint event_ids stamp after).0.would_suppress ≡ true
  unfolding decide decide_on prune
  second_decision_is_repeat off event_ids s live = absurd (live refl)
  second_decision_is_repeat dry_run event_ids s live = again event_ids s
  second_decision_is_repeat on event_ids s live = again event_ids s
