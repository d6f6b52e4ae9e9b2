-- ===== src/Fees/Statement/Gates.antt =====
-- Which rows are assessed, and what an assessment rests on.
use firstrade_platform.Prelude.{
  ℕ, ◌<◌, ◌≤◌, ◌≡◌, refl, true, Option, none, some, [], ◌∷◌, codes, lower, strip, one_of, arith,
}
use firstrade_platform.Fees.Decimals.{Decimal, le, magnitude}
use firstrade_platform.Fees.Schedule.{
  FeeSchedule, ok, lookup, broker_assisted_fee_on, is_broker_assisted,
}
use firstrade_platform.Fees.Statement.{
  HistoryRow, Dated, dated, undated, resolve_dates, check_executed, check_settled, Assessment,
  assessed, assess, charge, price_positive, price_row, on_dated, decompose_sell_fees,
}

-- A date that is accepted is the `Date` column itself: it agrees with the execution date of the
-- description, and the settlement date of the description comes after it.
pub resolve_dates_lem :
    (row : HistoryRow) {day : ℕ} {settled : Option ℕ}
    → resolve_dates row ≡ dated day settled
    → (row.date ≡ some day)
      × ((e : ℕ) → row.executed ≡ some (some e) → e ≡ day)
      × ((t : ℕ) → row.settled ≡ some (some t) → day < t)
unfolding resolve_dates check_executed check_settled
resolve_dates_lem row e = (ground arith, λ x h. ground arith, λ t h. ground arith)

charge-day :
    (s : FeeSchedule) (day : ℕ) (settled : Option ℕ) (quantity price reported : Decimal)
    {a : Assessment}
    → charge s day settled quantity price reported ≡ ok a
    → (a.trade_date ≡ day)
      × (a.settlement_date ≡ settled)
      × (day ≤ s.verified_through)
      × (a.is_explained ≡ le (magnitude a.residual) s.explained_residual_tolerance)
unfolding charge assess broker_assisted_fee_on lookup
charge-day s day settled quantity price reported e =
    (ground arith, ground arith, ground arith, ground arith)

-- What an assessment of a row says: its day is the row's date, which the schedule covers, a later
-- settlement date is carried over, and it is explained exactly within the tolerance.
pub record IsSound (s : FeeSchedule) (row : HistoryRow) (a : Assessment) : Type 0 where
  pub dated : row.date ≡ some a.trade_date
  pub executed : (e : ℕ) → row.executed ≡ some (some e) → e ≡ a.trade_date
  pub settled : (t : ℕ) → row.settled ≡ some (some t) → a.trade_date < t
  pub covered : a.trade_date ≤ s.verified_through
  pub explained : a.is_explained ≡ le (magnitude a.residual) s.explained_residual_tolerance

positive-day :
    (s : FeeSchedule) (day : ℕ) (settled : Option ℕ) (quantity price reported : Decimal)
    {a : Assessment}
    → price_positive s day settled quantity price reported ≡ assessed a
    → (a.trade_date ≡ day)
      × (a.settlement_date ≡ settled)
      × (day ≤ s.verified_through)
      × (a.is_explained ≡ le (magnitude a.residual) s.explained_residual_tolerance)
unfolding price_positive
positive-day s day settled quantity price reported {a} e =
    ground (arith, charge-day s day settled quantity price reported {a = a})

row-day :
    (s : FeeSchedule) (day : ℕ) (settled : Option ℕ) (q p r : Option Decimal) {a : Assessment}
    → price_row s day settled q p r ≡ assessed a
    → (a.trade_date ≡ day)
      × (a.settlement_date ≡ settled)
      × (day ≤ s.verified_through)
      × (a.is_explained ≡ le (magnitude a.residual) s.explained_residual_tolerance)
unfolding price_row
row-day s day settled (some q) (some p) (some r) e = positive-day s day settled (magnitude q) p r e
row-day s day settled none p r e = cc
row-day s day settled (some q) none r e = cc
row-day s day settled (some q) (some p) none e = cc

dated-IsSound :
    (s : FeeSchedule) (row : HistoryRow) (d : Dated) {a : Assessment}
    → resolve_dates row ≡ d
    → on_dated s row d ≡ assessed a
    → IsSound s row a
dated-IsSound s row (undated reason) r e = cc
dated-IsSound s row (dated day settled) r e =
    let (on_day, same_settled, within, by_tolerance) =
      row-day s day settled row.quantity row.price row.amount e in
    let (date, executed, later) = resolve_dates_lem row r in
    record {
      dated = rw on_day date;
      executed = λ x h. rw on_day (executed x h);
      settled = λ t h. rw on_day (later t h);
      covered = rw on_day within;
      explained = by_tolerance;
    }

-- Only desk-executed sales are assessed, and every assessment is sound: a row whose dates disagree,
-- or whose day the schedule was not verified for, is never explained.
pub assessed_rows :
    (s : FeeSchedule) (row : HistoryRow) {a : Assessment}
    → decompose_sell_fees s row ≡ assessed a
    → (one_of (lower (strip row.transaction)) (codes "sold" ∷ codes "sell" ∷ []) ≡ true)
      × (is_broker_assisted s row.description ≡ true)
      × IsSound s row a
unfolding decompose_sell_fees
assessed_rows s row e =
    (ground arith, ground arith, dated-IsSound s row (resolve_dates row) refl (ground arith))
