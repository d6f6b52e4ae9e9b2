-- ===== src/State/Keys/Clean.antt =====
-- The names of the objects in the bucket: the keys need no cleaning, so that two keys share a name
-- only where they are equal.
use mathlib.Core.List.{reverse, append_assoc, append_cancel_left, reverse-append, reverse-reverse}
use firstrade_platform.Prelude.{
  Bool, ℕ, ◌≡◌, refl, sym, ◌∙◌, ap, ◌≢◌, true, false, [], ◌∷◌, ◌++◌, Text, codes, All, All-append,
  All-append_right, arith, is_empty, if◌then◌else◌,
}
use firstrade_platform.State.Store.{drop_slashes, strip_slashes, object_name, ok}
use firstrade_platform.State.Keys.{
  Moment, safe_key, run_prefix, segment, strategy_run_state_key, strategy_run_history_key,
  strategy_run_claim_key,
}
use firstrade_platform.State.Keys.Distinct.{
  IsSafeChar, safe_key-IsSafe, split_at_slash, claims_is_safe,
}

-- The last character is no slash.
abbrev EndsClean : Text → Type 0
EndsClean s = (m : Text) × (d : ℕ) × (s ≡ m ++ d ∷ []) × (d ≢ b'/')

append-EndsClean : (a s : Text) → EndsClean s → EndsClean (a ++ s)
append-EndsClean a s (m, d, e, h) =
    (a ++ m, d, ap (λ t. a ++ t) e ∙ sym (append_assoc a m (d ∷ [])), h)

json-EndsClean : (s : Text) → EndsClean (s ++ codes ".json")
json-EndsClean s =
    append-EndsClean s (codes ".json") (codes ".jso", b'n', refl, λ e. omega (arith, e))

drop-clean : (d : ℕ) (m : Text) → d ≢ b'/' → drop_slashes (d ∷ m) ≡ d ∷ m
unfolding drop_slashes
drop-clean d m h = ground arith

drop-reverse : (s : Text) → EndsClean s → drop_slashes (reverse s) ≡ reverse s
drop-reverse s (m, d, e, h) =
    let e' : reverse s ≡ d ∷ reverse m = ap reverse e ∙ reverse-append m (d ∷ []) in
    ap drop_slashes e' ∙ drop-clean d (reverse m) h ∙ sym e'

strip_slashes-clean :
    (c : ℕ) (s : Text) → c ≢ b'/' → EndsClean (c ∷ s) → strip_slashes (c ∷ s) ≡ c ∷ s
unfolding strip_slashes
strip_slashes-clean c s h k =
    rw (drop-clean c s h) (ap reverse (drop-reverse (c ∷ s) k) ∙ reverse-reverse (c ∷ s))

-- a key that needs no cleaning
abbrev pub IsClean : Text → Type 0
IsClean key = (strip_slashes key ≡ key) × (is_empty key ≡ false)

runs-IsClean : (s : Text) → EndsClean s → IsClean (codes "strategy-runs/" ++ s)
runs-IsClean s h = (
  strip_slashes-clean b's' (codes "trategy-runs/" ++ s) (λ e. omega (arith, e))
      (append-EndsClean (codes "strategy-runs/") s h),
  refl,
)

segment-EndsClean : (a s : Text) → EndsClean s → EndsClean (segment a s)
segment-EndsClean a s h =
    append-EndsClean (safe_key a) (b'/' ∷ s) (append-EndsClean (codes "/") s h)

pub claim_key-IsClean : (a p m : Text) → IsClean (strategy_run_claim_key a p m)
unfolding strategy_run_claim_key
claim_key-IsClean a p m =
    let claim = segment a (segment p (safe_key m ++ codes ".json")) in
    runs-IsClean (codes "claims/" ++ claim) (
      append-EndsClean (codes "claims/") claim
        (segment-EndsClean a _ (segment-EndsClean p _ (json-EndsClean (safe_key m)))))

run_prefix-IsClean : (dry : Bool) (s : Text) → EndsClean s → IsClean (run_prefix dry ++ s)
unfolding run_prefix
run_prefix-IsClean true s h =
    runs-IsClean (codes "dry-run/" ++ s) (append-EndsClean (codes "dry-run/") s h)
run_prefix-IsClean false s h = runs-IsClean s h

pub state_key-IsClean : (a p m : Text) (dry : Bool) → IsClean (strategy_run_state_key a p m dry)
unfolding strategy_run_state_key
state_key-IsClean a p m dry = run_prefix-IsClean dry _ (
    segment-EndsClean a _
      (segment-EndsClean p _ (segment-EndsClean m _ (json-EndsClean (codes "latest")))))

pub history_key-IsClean :
    (a p m stage : Text) (now : Moment) (dry : Bool)
    → IsClean (strategy_run_history_key a p m stage now dry)
unfolding strategy_run_history_key
history_key-IsClean a p m stage now dry =
    let stamped = now.stamp ++ b'-' ∷ (safe_key stage ++ codes ".json") in
    run_prefix-IsClean dry _ (
      segment-EndsClean a _ (
        segment-EndsClean p _ (
          segment-EndsClean m _ (
            append-EndsClean (codes "history/") (now.day_path ++ b'/' ∷ stamped) (
              append-EndsClean now.day_path (b'/' ∷ stamped) (
                append-EndsClean (codes "/") stamped (
                  append-EndsClean now.stamp (b'-' ∷ (safe_key stage ++ codes ".json")) (
                    append-EndsClean (codes "-") (safe_key stage ++ codes ".json")
                      (json-EndsClean (safe_key stage))))))))))

abbrev IsNoSlash : ℕ → Type 0
IsNoSlash c = c ≢ b'/'

plain : (s : Text) → All IsSafeChar s → All IsNoSlash s
plain [] h = tt
plain (c ∷ s) h = (h.0.0, plain s h.1)

json_is_plain : All IsNoSlash (codes ".json")
json_is_plain = ground arith

-- A file's name has no slash.
no_slash : (a b r : Text) → All IsSafeChar b → a ++ b'/' ∷ r ≢ b ++ codes ".json"
no_slash a b r h e =
    let named : All IsNoSlash (b ++ codes ".json") =
      All-append IsNoSlash b (codes ".json") (plain b h) json_is_plain in
    let split : All IsNoSlash (a ++ b'/' ∷ r) = rw e named in
    (All-append_right IsNoSlash a (b'/' ∷ r) split).0 refl

-- The key of a history entry never equals the key of a claim.
pub history_key_ne_claim_key :
    (a b p q m n stage : Text) (now : Moment) (dry : Bool)
    → strategy_run_history_key a p m stage now dry ≢ strategy_run_claim_key b q n
unfolding strategy_run_history_key run_prefix strategy_run_claim_key
history_key_ne_claim_key a b p q m n stage now true e = ground arith
history_key_ne_claim_key a b p q m n stage now false e =
    let entry =
      codes "history/"
      ++ (now.day_path ++ b'/' ∷ (now.stamp ++ b'-' ∷ (safe_key stage ++ codes ".json"))) in
    let after_account = segment p (segment m entry) in
    let claim = segment b (segment q (safe_key n ++ codes ".json")) in
    let whole =
      append_cancel_left (codes "strategy-runs/") (segment a after_account)
        (codes "claims/" ++ claim) e in
    let (account, on) =
      split_at_slash (safe_key a) (codes "claims") after_account claim (safe_key-IsSafe a)
        claims_is_safe whole in
    let (profile, further) =
      split_at_slash (safe_key p) (safe_key b) _ _ (safe_key-IsSafe p) (safe_key-IsSafe b) on in
    let (period, last) =
      split_at_slash (safe_key m) (safe_key q) _ _ (safe_key-IsSafe m) (safe_key-IsSafe q)
        further in
    no_slash (codes "history") (safe_key n) _ (safe_key-IsSafe n) last

abbrev pub full_name : Text → Text → Text
full_name prefix key = if is_empty prefix then key else prefix ++ b'/' ∷ key

pub object_name-clean :
    (prefix key : Text)
    → IsClean key
    → object_name prefix key ≡ ok (full_name (strip_slashes prefix) key)
unfolding object_name
object_name-clean prefix key h = rw h.0 (rw h.1 refl)

-- Different clean keys have different objects.
pub full_name-injective : (prefix k j : Text) → full_name prefix k ≡ full_name prefix j → k ≡ j
full_name-injective [] k j e = e
full_name-injective (c ∷ prefix) k j e =
    append_cancel_left (c ∷ prefix ++ codes "/") k j
      (append_assoc (c ∷ prefix) (codes "/") k ∙ e ∙ sym (append_assoc (c ∷ prefix) (codes "/") j))
