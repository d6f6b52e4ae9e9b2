-- ===== src/Fees/Statement.antt =====
-- application/statement_reconciliation.py: the fee decomposition of a desk-executed sale and the
-- difference between two valuations of the same positions.
-- Rows and observations are given as parsed: an amount is `none` where `_to_decimal` raises, a date
-- where `_trade_date` raises, and the dates of the description are those that the patterns find.
pub mod Gates
pub mod Verdicts
use firstrade_platform.Prelude.{
  ℕ, Bool, true, false, not, ◌&&◌, ◌||◌, Option, none, some, List, [], ◌∷◌, Text, codes, lower,
  strip, one_of, symbol_key, Dict, get, put, has_key, length, is_empty, any, all, leb, ltb, ◌==◌,
  is_some, if◌then◌else◌,
}
use firstrade_platform.Fees.Decimals.{
  Decimal, decimal, add, sub, mul, shift_down, lt, le, same, dmin, dmax, magnitude, total,
  round_up_cent, round_half_up_cent, round_half_even_cent,
}
use firstrade_platform.Fees.Schedule.{
  FeeSchedule, Taf, Error, Result, ok, err, ◌>>=◌, broker_assisted_fee_on, sec_rate_on, taf_on,
  is_broker_assisted,
}

abbrev pub nothing : Decimal
nothing = decimal 0 0

-- A row of the history export.
pub record HistoryRow : Type 0 where
  pub transaction : Text
  pub description : Text
  pub date : Option ℕ
  pub executed : Option (Option ℕ)
  pub settled : Option (Option ℕ)
  pub quantity : Option Decimal
  pub price : Option Decimal
  pub amount : Option Decimal

-- The `reason` of an unsupported row.
pub data Unsupported : Type 0 where
  trade_date_invalid : Unsupported
  date_column_not_trade_date : Unsupported
  amount_invalid : Unsupported
  quantity_not_positive : Unsupported
  price_not_positive : Unsupported
  schedule : Error → Unsupported

pub data NotApplicable : Type 0 where
  not_a_sell not_broker_assisted_order : NotApplicable

pub data Dated : Type 0 where
  dated : ℕ → Option ℕ → Dated
  undated : Unsupported → Dated

-- the settlement date must follow the trade date
unfoldable pub check_settled : ℕ → Option (Option ℕ) → Dated
check_settled day none = dated day none
check_settled day (some none) = undated trade_date_invalid
check_settled day (some (some settled)) =
    if leb settled day then undated date_column_not_trade_date else dated day (some settled)

-- the execution date must be the trade date
unfoldable pub check_executed : ℕ → Option (Option ℕ) → Option (Option ℕ) → Dated
check_executed day none settled = check_settled day settled
check_executed day (some none) settled = undated trade_date_invalid
check_executed day (some (some executed)) settled =
    if executed == day then check_settled day settled else undated date_column_not_trade_date

-- `_resolve_dates`
unfoldable pub resolve_dates : HistoryRow → Dated
resolve_dates row = elim row.date [
  | none ↦ undated trade_date_invalid
  | some day ↦ check_executed day row.executed row.settled
]

pub record RegulatoryFee : Type 0 where
  pub sec_raw : Decimal
  pub taf_raw : Decimal
  pub fee : Decimal

unfoldable pub taf_charge : Taf → Decimal → Decimal
taf_charge taf quantity =
    if lt nothing taf.rate
    then dmin (mul (magnitude quantity) taf.rate) taf.max_per_trade
    else nothing

-- what is charged for a raw total: nothing, or whole cents with a minimum
unfoldable pub charged : Decimal → Decimal → Decimal
charged total_raw minimum =
    if le total_raw nothing then decimal 0 2 else dmax (round_up_cent total_raw) minimum

unfoldable pub regulatory_fee : FeeSchedule → Decimal → Decimal → ℕ → Result RegulatoryFee
regulatory_fee s proceeds quantity day = do
  rate ← sec_rate_on s day
  taf ← taf_on s day
  let sec_raw = shift_down (mul proceeds rate) 6
  let taf_raw = taf_charge taf quantity
  ok (record {
    sec_raw = sec_raw;
    taf_raw = taf_raw;
    fee = charged (add sec_raw taf_raw) s.minimum_regulatory_fee;
  })

pub record Assessment : Type 0 where
  pub trade_date : ℕ
  pub settlement_date : Option ℕ
  pub gross : Decimal
  pub broker_fee : Decimal
  pub regulatory : RegulatoryFee
  pub expected_net : Decimal
  pub reported_net : Decimal
  pub residual : Decimal
  pub is_explained : Bool

pub data Decomposition : Type 0 where
  not_applicable : NotApplicable → Decomposition
  unsupported : Unsupported → Decomposition
  assessed : Assessment → Decomposition

unfoldable pub assess :
    FeeSchedule → ℕ → Option ℕ → Decimal → Decimal → Decimal → RegulatoryFee → Assessment
assess s day settled gross reported broker_fee regulatory =
    let expected = round_half_up_cent (sub (sub gross broker_fee) regulatory.fee) in
    let residual = round_half_even_cent (sub reported expected) in
    record {
      trade_date = day;
      settlement_date = settled;
      gross = gross;
      broker_fee = broker_fee;
      regulatory = regulatory;
      expected_net = expected;
      reported_net = reported;
      residual = residual;
      is_explained = le (magnitude residual) s.explained_residual_tolerance;
    }

unfoldable pub charge : FeeSchedule → ℕ → Option ℕ → Decimal → Decimal → Decimal → Result Assessment
charge s day settled quantity price reported = do
  let gross = mul quantity price
  broker_fee ← broker_assisted_fee_on s day
  regulatory ← regulatory_fee s gross quantity day
  ok (assess s day settled gross reported broker_fee regulatory)

abbrev pub of_result : Result Assessment → Decomposition
of_result (ok a) = assessed a
of_result (err e) = unsupported (schedule e)

-- Positive amounts are charged.
unfoldable pub price_positive :
    FeeSchedule → ℕ → Option ℕ → Decimal → Decimal → Decimal → Decomposition
price_positive s day settled quantity price reported =
    if le quantity nothing
    then unsupported quantity_not_positive
    else if le price nothing
    then unsupported price_not_positive
    else of_result (charge s day settled quantity price reported)

-- All three amounts are read before one is tested.
unfoldable pub price_row :
    FeeSchedule → ℕ → Option ℕ → Option Decimal → Option Decimal → Option Decimal → Decomposition
price_row s day settled (some quantity) (some price) (some reported) =
    price_positive s day settled (magnitude quantity) price reported
price_row s day settled _ _ _ = unsupported amount_invalid

abbrev pub on_dated : FeeSchedule → HistoryRow → Dated → Decomposition
on_dated s row (undated reason) = unsupported reason
on_dated s row (dated day settled) = price_row s day settled row.quantity row.price row.amount

unfoldable pub decompose_sell_fees : FeeSchedule → HistoryRow → Decomposition
decompose_sell_fees s row =
    if not (one_of (lower (strip row.transaction)) (codes "sold" ∷ codes "sell" ∷ []))
    then not_applicable not_a_sell
    else if not (is_broker_assisted s row.description)
    then not_applicable not_broker_assisted_order
    else on_dated s row (resolve_dates row)

-- `_quantity_map`: symbols normalized, none twice, every quantity positive. `none` raises.
unfoldable pub quantity_map_onto : Dict Decimal → Dict (Option Decimal) → Option (Dict Decimal)
quantity_map_onto result [] = some result
quantity_map_onto result ((symbol, none) ∷ rest) = none
quantity_map_onto result ((symbol, some value) ∷ rest) =
    let key = symbol_key symbol in
    let next = quantity_map_onto (put result key value) rest in
    if is_empty key || has_key result key || le value nothing then none else next

unfoldable pub quantity_map : Dict (Option Decimal) → Option (Dict Decimal)
quantity_map raw = quantity_map_onto [] raw

-- `==` of two such dicts, whatever the order of their keys
abbrev pub holds : Dict Decimal → Text × Decimal → Bool
holds d (k, v) = elim (get d k) [ none ↦ false | some w ↦ same v w ]

unfoldable pub same_quantities : Dict Decimal → Dict Decimal → Bool
same_quantities a b = length a == length b && all (holds b) a

pub data Check : Type 0 where
  not_performed matched mismatch : Check

unfoldable pub quantity_check : Option (Dict Decimal) → Option (Dict Decimal) → Check
quantity_check (some actual) (some expected) =
    if same_quantities actual expected then matched else mismatch
quantity_check _ _ = not_performed

pub data Verdict : Type 0 where
  match : Verdict
  basis_difference : Verdict
  positions_empty_balance_nonzero : Verdict
  quantity_mismatch : Verdict
  difference_exceeds_tolerance : Verdict

pub record Valuation : Type 0 where
  pub verdict : Verdict
  pub difference : Decimal
  pub tolerance : Decimal
  pub check : Check

-- `min(max($0.10, 0.1% of the larger value), cap)`
unfoldable pub valuation_tolerance : Decimal → Decimal → Decimal → Decimal
valuation_tolerance balance positions cap =
    let reference = dmax (magnitude balance) (magnitude positions) in
    dmin (dmax (decimal 10 2) (mul reference (decimal 1 3))) cap

abbrev pub is_mismatch : Check → Bool
is_mismatch mismatch = true
is_mismatch _ = false

unfoldable pub verdict_of : Bool → Decimal → Decimal → Decimal → Check → Verdict
verdict_of no_positions balance difference tolerance check =
    if no_positions && not (same balance nothing)
    then positions_empty_balance_nonzero
    else if is_mismatch check
    then quantity_mismatch
    else if same difference nothing
    then match
    else if le (magnitude difference) tolerance
    then basis_difference
    else difference_exceeds_tolerance

-- The report on amounts that all parse: `none` where one is negative.
unfoldable pub compare_valuations :
    Decimal
    → List Decimal
    → Option (Dict Decimal)
    → Option (Dict Decimal)
    → Decimal
    → Option Valuation
compare_valuations balance values actual expected cap =
    let positions = total values in
    let difference = sub positions balance in
    let tolerance = valuation_tolerance balance positions cap in
    let check = quantity_check actual expected in
    if lt balance nothing || any (λ v. lt v nothing) values
    then none
    else some (record {
      verdict = verdict_of (is_empty values) balance difference tolerance check;
      difference = difference;
      tolerance = tolerance;
      check = check;
    })

-- the values, if each of them parses
unfoldable pub all_present : List (Option Decimal) → Option (List Decimal)
all_present [] = some []
all_present (none ∷ rest) = none
all_present (some v ∷ rest) = elim (all_present rest) [ none ↦ none | some vs ↦ some (v ∷ vs) ]

-- a quantity map that may be left out
unfoldable pub optional_map : Option (Dict (Option Decimal)) → Option (Option (Dict Decimal))
optional_map none = some none
optional_map (some raw) = elim (quantity_map raw) [ none ↦ none | some m ↦ some (some m) ]

pub data ValuationReport : Type 0 where
  valuation_input_missing : ValuationReport
  valuation_input_negative : ValuationReport
  compared : Valuation → ValuationReport

abbrev pub report_of : Option Valuation → ValuationReport
report_of none = valuation_input_negative
report_of (some v) = compared v

unfoldable pub valuation_basis_difference :
    Option Decimal
    → List (Option Decimal)
    → Option (Dict (Option Decimal))
    → Option (Dict (Option Decimal))
    → Decimal
    → ValuationReport
valuation_basis_difference balance values quantities expected_quantities cap = elim balance [
  | none ↦ valuation_input_missing
  | some b ↦ elim (all_present values) [
    | none ↦ valuation_input_missing
    | some vs ↦ elim (optional_map quantities) [
      | none ↦ valuation_input_missing
      | some actual ↦ elim (optional_map expected_quantities) [
        | none ↦ valuation_input_missing
        | some expected ↦ report_of (compare_valuations b vs actual expected cap)
      ]
    ]
  ]
]
