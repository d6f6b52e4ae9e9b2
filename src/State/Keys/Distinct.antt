-- ===== src/State/Keys/Distinct.antt =====
-- When two records share a key.
use mathlib.Core.List.{append_cancel_left, append_cancel_right}
use firstrade_platform.Prelude.{
  Bool, ℕ, ◌≡◌, refl, sym, ◌≢◌, true, false, [], ◌∷◌, ◌++◌, map, Text, codes, is_alnum, All, arith,
}
use firstrade_platform.State.Keys.{
  safe_char, safe_key, run_prefix, segment, strategy_run_state_key, strategy_run_claim_key,
}

-- no slash and no dash
abbrev pub IsSafeChar : ℕ → Type 0
IsSafeChar c = (c ≢ b'/') × (c ≢ b'-')

safe_char-IsSafeChar : (c : ℕ) → IsSafeChar (safe_char c)
unfolding safe_char is_alnum
safe_char-IsSafeChar c = ground arith

map-safe_char : (s : Text) → All IsSafeChar (map safe_char s)
map-safe_char [] = tt
map-safe_char (c ∷ s) = (safe_char-IsSafeChar c, map-safe_char s)

pub safe_key-IsSafe : (s : Text) → All IsSafeChar (safe_key s)
unfolding safe_key
safe_key-IsSafe [] = ground arith
safe_key-IsSafe (c ∷ s) = map-safe_char (c ∷ s)

-- The first slash ends the first segment.
pub split_at_slash :
    (a b r t : Text)
    → All IsSafeChar a
    → All IsSafeChar b
    → a ++ b'/' ∷ r ≡ b ++ b'/' ∷ t
    → (a ≡ b) × (r ≡ t)
split_at_slash [] [] r t ha hb e = (refl, cc)
split_at_slash [] (d ∷ b) r t ha hb e = ground arith
split_at_slash (c ∷ a) [] r t ha hb e = ground arith
split_at_slash (c ∷ a) (d ∷ b) r t ha hb e = ground (arith, split_at_slash a b r t ha.1 hb.1)

-- no dash before the first slash
not_dry_run : (s rest tail : Text) → All IsSafeChar s → s ++ b'/' ∷ rest ≢ codes "dry-run/" ++ tail
not_dry_run [] rest tail h e = ground arith
not_dry_run (a ∷ []) rest tail h e = ground arith
not_dry_run (a ∷ b ∷ []) rest tail h e = ground arith
not_dry_run (a ∷ b ∷ c ∷ []) rest tail h e = ground arith
not_dry_run (a ∷ b ∷ c ∷ d ∷ s) rest tail h e = ground arith

-- The latest state of a dry run is never written over that of a live run, whatever the accounts,
-- profiles and periods.
pub dry_run_key_ne_live_key :
    (a b p q m n : Text) → strategy_run_state_key a p m true ≢ strategy_run_state_key b q n false
unfolding strategy_run_state_key run_prefix
dry_run_key_ne_live_key a b p q m n e =
    let tail = segment a (segment p (segment m (codes "latest.json"))) in
    let live = segment q (segment n (codes "latest.json")) in
    not_dry_run (safe_key b) live tail (safe_key-IsSafe b) (
      sym
        (append_cancel_left (codes "strategy-runs/") (codes "dry-run/" ++ tail) (segment b live) e))

-- Two runs share the key of a claim only where their accounts, profiles and periods have the same
-- safe forms.
pub claim_key-injective :
    (a b p q m n : Text)
    → strategy_run_claim_key a p m ≡ strategy_run_claim_key b q n
    → (safe_key a ≡ safe_key b) × (safe_key p ≡ safe_key q) × (safe_key m ≡ safe_key n)
unfolding strategy_run_claim_key
claim_key-injective a b p q m n e =
    let suffix = codes ".json" in
    let whole =
      append_cancel_left (codes "strategy-runs/claims/")
        (segment a (segment p (safe_key m ++ suffix)))
        (segment b (segment q (safe_key n ++ suffix))) e in
    let (account, after_account) =
      split_at_slash (safe_key a) (safe_key b) _ _ (safe_key-IsSafe a) (safe_key-IsSafe b) whole in
    let (profile, after_profile) =
      split_at_slash (safe_key p) (safe_key q) _ _ (safe_key-IsSafe p) (safe_key-IsSafe q)
        after_account in
    (account, profile, append_cancel_right (safe_key m) (safe_key n) suffix after_profile)

pub claims_is_safe : All IsSafeChar (codes "claims")
claims_is_safe = ground arith

-- The key of a latest state, of a dry run or a live one, never equals the key of a claim, of whatever
-- run, where the safe form of the claim's period is not the text `latest`.
pub state_key_ne_claim_key :
    (a b p q m n : Text) (dry_run_only : Bool)
    → safe_key n ≢ codes "latest"
    → strategy_run_state_key a p m dry_run_only ≢ strategy_run_claim_key b q n
unfolding strategy_run_state_key run_prefix strategy_run_claim_key
state_key_ne_claim_key a b p q m n true not_latest e = ground arith
state_key_ne_claim_key a b p q m n false not_latest e =
    let suffix = codes ".json" in
    let after_latest = segment p (segment m (codes "latest.json")) in
    let claim = segment b (segment q (safe_key n ++ suffix)) in
    let whole =
      append_cancel_left (codes "strategy-runs/") (segment a after_latest)
        (codes "claims/" ++ claim) e in
    let (account, after_account) =
      split_at_slash (safe_key a) (codes "claims") after_latest claim (safe_key-IsSafe a)
        claims_is_safe whole in
    let (profile, after_profile) =
      split_at_slash (safe_key p) (safe_key b) _ _ (safe_key-IsSafe p) (safe_key-IsSafe b)
        after_account in
    let (period, last) =
      split_at_slash (safe_key m) (safe_key q) _ _ (safe_key-IsSafe m) (safe_key-IsSafe q)
        after_profile in
    not_latest (sym (append_cancel_right (codes "latest") (safe_key n) suffix last))
