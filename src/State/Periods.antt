-- ===== src/State/Periods.antt =====
-- application/strategy_run_persistence.py: the period that a run belongs to.
use firstrade_platform.Prelude.{
  ℕ, zero, suc, Bool, false, ◌&&◌, Option, none, some, List, [], ◌∷◌, Text, strip, length, leb,
  ◌==◌, is_empty, if◌then◌else◌,
}

-- A value that may name a period: nothing, a date by its `YYYY-MM`, or a text that is no date.
pub data PeriodSource : Type 0 where
  missing : PeriodSource
  date : Text → PeriodSource
  not_a_date : Text → PeriodSource

-- `text[:n]`
unfoldable pub take : ℕ → Text → Text
take zero s = []
take (suc n) [] = []
take (suc n) (c ∷ s) = c ∷ take n s

-- `text[4] == "-"`
unfoldable pub has_dash_at : ℕ → Text → Bool
has_dash_at n [] = false
has_dash_at zero (c ∷ s) = c == b'-'
has_dash_at (suc n) (c ∷ s) = has_dash_at n s

unfoldable pub coerce_month_period : PeriodSource → Option Text
coerce_month_period missing = none
coerce_month_period (date month) = some month
coerce_month_period (not_a_date raw) =
    let s = strip raw in if leb 7 (length s) && has_dash_at 4 s then some (take 7 s) else none

abbrev pub or_next : Option Text → Text → Text
or_next none next = next
or_next (some period) next = if is_empty period then next else period

-- The candidates in their order, and the month of the run.
unfoldable pub first_period : List PeriodSource → Text → Text
first_period [] month = month
first_period (c ∷ cs) month =
    let rest = first_period cs month in or_next (coerce_month_period c) rest

unfoldable pub resolve_strategy_run_period :
    PeriodSource → PeriodSource → PeriodSource → Text → Text
resolve_strategy_run_period snapshot_as_of signal_date effective_date month =
    first_period (snapshot_as_of ∷ signal_date ∷ effective_date ∷ []) month
