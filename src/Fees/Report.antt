-- ===== src/Fees/Report.antt =====
-- application/statement_reconciliation.py: `valuation_basis_report`, the report on an observation of
-- the account.
-- A value of the observation is `none` where it is missing, and then `none` where it does not parse.
pub mod Checked
use firstrade_platform.Prelude.{
  Bool, true, false, not, ◌&&◌, ◌||◌, Option, none, some, List, [], ◌∷◌, Text, symbol_key, Dict,
  put, has_key, is_empty, if◌then◌else◌,
}
use firstrade_platform.Fees.Decimals.{Decimal, decimal}
use firstrade_platform.Fees.Statement.{ValuationReport, valuation_basis_difference}

-- A position; an entry of the list that is no mapping is `none`.
pub record Position : Type 0 where
  pub symbol : Text
  pub market_value : Option (Option Decimal)
  pub quantity : Option (Option Decimal)

-- `balances` with its `long_stock_value`, and `positions`; `none` for a value of another type
pub record Observation : Type 0 where
  pub balances : Option (Option (Option Decimal))
  pub positions : Option (List (Option Position))

pub data BasisReport : Type 0 where
  observation_incomplete : BasisReport
  balance_long_stock_value_missing : BasisReport
  position_market_value_missing : BasisReport
  position_quantity_missing : BasisReport
  reported : ValuationReport → BasisReport

-- `VALUATION_TOLERANCE_CAP`
abbrev pub valuation_tolerance_cap : Decimal
valuation_tolerance_cap = decimal 2500 2

-- the entries that are mappings
unfoldable pub rows_of : List (Option Position) → List Position
rows_of [] = []
rows_of (none ∷ rest) = rows_of rest
rows_of (some row ∷ rest) = row ∷ rows_of rest

-- the market values, unless one of them is missing
unfoldable pub market_values_of : List Position → Option (List (Option Decimal))
market_values_of [] = some []
market_values_of (row ∷ rest) = elim row.market_value [
  | none ↦ none
  | some value ↦ elim (market_values_of rest) [ none ↦ none | some values ↦ some (value ∷ values) ]
]

-- The loop over the rows: no symbol is empty or comes twice, and no quantity is missing.
unfoldable pub position_quantities :
    Dict (Option Decimal) → List Position → Option (Dict (Option Decimal))
position_quantities quantities [] = some quantities
position_quantities quantities (row ∷ rest) =
    let key = symbol_key row.symbol in
    elim row.quantity [
      | none ↦ none
      | some quantity ↦
          let after = position_quantities (put quantities key quantity) rest in
          if is_empty key || has_key quantities key then none else after
    ]

abbrev pub report_with :
    Option Decimal
    → List (Option Decimal)
    → Option (Dict (Option Decimal))
    → Option (Dict (Option Decimal))
    → BasisReport
report_with balance values quantities expected =
    reported (valuation_basis_difference balance values quantities expected valuation_tolerance_cap)

-- the report on the quantities that were found
unfoldable pub report_checked :
    Option Decimal
    → List (Option Decimal)
    → Dict (Option Decimal)
    → Option (Dict (Option Decimal))
    → BasisReport
report_checked balance values expected none = position_quantity_missing
report_checked balance values expected (some quantities) =
    report_with balance values (some quantities) (some expected)

-- The quantities are read only where there are expected ones.
unfoldable pub report_quantities :
    Option Decimal
    → List Position
    → List (Option Decimal)
    → Option (Dict (Option Decimal))
    → BasisReport
report_quantities balance rows values none = report_with balance values none none
report_quantities balance rows values (some expected) =
    report_checked balance values expected (position_quantities [] rows)

unfoldable pub report_values :
    Option Decimal
    → List Position
    → Option (List (Option Decimal))
    → Option (Dict (Option Decimal))
    → BasisReport
report_values balance rows none expected = position_market_value_missing
report_values balance rows (some values) expected = report_quantities balance rows values expected

unfoldable pub report_on :
    Option (Option (Option Decimal))
    → Option (List (Option Position))
    → Option (Dict (Option Decimal))
    → BasisReport
report_on none positions expected = observation_incomplete
report_on (some balance) none expected = observation_incomplete
report_on (some none) (some positions) expected = balance_long_stock_value_missing
report_on (some (some balance)) (some positions) expected =
    report_values balance (rows_of positions) (market_values_of (rows_of positions)) expected

unfoldable pub valuation_basis_report : Observation → Option (Dict (Option Decimal)) → BasisReport
valuation_basis_report observation expected =
    report_on observation.balances observation.positions expected
