-- ===== src/State/Keys.antt =====
-- application/strategy_run_persistence.py: the keys of the durable records of a strategy run.
pub mod Distinct
pub mod Clean
use firstrade_platform.Prelude.{
  ℕ, Bool, true, false, List, [], ◌∷◌, ◌++◌, map, Text, codes, is_alnum, is_empty, if◌then◌else◌,
}

-- A time as the code renders it: `%Y%m%dT%H%M%SZ`, `%Y/%m/%d`, `%Y-%m` and `isoformat()`.
pub record Moment : Type 0 where
  pub stamp : Text
  pub day_path : Text
  pub month : Text
  pub iso : Text

abbrev pub or_unknown : Text → Text
or_unknown s = if is_empty s then codes "unknown" else s

unfoldable pub safe_char : ℕ → ℕ
safe_char c = if is_alnum c then c else b'_'

unfoldable pub safe_key : Text → Text
unfolding safe_char
safe_key value = or_unknown (map safe_char value)

unfoldable pub run_prefix : Bool → Text
run_prefix dry_run_only =
    if dry_run_only then codes "strategy-runs/dry-run/" else codes "strategy-runs/"

-- `{safe_key(a)}/{rest}`
abbrev pub segment : Text → Text → Text
segment s rest = safe_key s ++ b'/' ∷ rest

unfoldable pub strategy_run_state_key : Text → Text → Text → Bool → Text
strategy_run_state_key account profile period dry_run_only =
    run_prefix dry_run_only
    ++ segment account (segment profile (segment period (codes "latest.json")))

unfoldable pub strategy_run_history_key : Text → Text → Text → Text → Moment → Bool → Text
strategy_run_history_key account profile period stage now dry_run_only =
    run_prefix dry_run_only
    ++ segment account (
        segment profile (
          segment period (
            codes "history/"
            ++ (now.day_path ++ b'/' ∷ (now.stamp ++ b'-' ∷ (safe_key stage ++ codes ".json"))))))

unfoldable pub strategy_run_claim_key : Text → Text → Text → Text
strategy_run_claim_key account profile period =
    codes "strategy-runs/claims/"
    ++ segment account (segment profile (safe_key period ++ codes ".json"))
