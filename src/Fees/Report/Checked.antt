-- ===== src/Fees/Report/Checked.antt =====
-- Whether the share counts of a report were checked.
use firstrade_platform.Prelude.{
  ◌≡◌, ◌≢◌, Option, none, some, List, [], Dict, Option-cases, inl, inr, arith,
}
use firstrade_platform.Fees.Decimals.{Decimal}
use firstrade_platform.Fees.Statement.{
  not_performed, Valuation, ValuationReport, compared, valuation_basis_difference,
  compare_valuations, report_of, quantity_map, optional_map, all_present, quantity_check,
  valuation_input_missing,
}
use firstrade_platform.Fees.Report.{
  Position, Observation, reported, report_checked, report_quantities, report_values, report_on,
  valuation_basis_report, valuation_tolerance_cap, position_quantities, rows_of, market_values_of,
}

compared-check :
    (balance : Decimal) (values : List Decimal) (actual expected : Dict Decimal) (cap : Decimal)
    {v : Valuation}
    → compare_valuations balance values (some actual) (some expected) cap ≡ some v
    → v.check ≢ not_performed
unfolding compare_valuations quantity_check
compared-check balance values actual expected cap e = ground arith

report_of-some : (o : Option Valuation) {v : Valuation} → report_of o ≡ compared v → o ≡ some v
report_of-some none e = cc
report_of-some (some w) e = cc

missing-ne-compared : {v : Valuation} → valuation_input_missing ≡ compared v → ⊥
missing-ne-compared e = cc

difference-check :
    (balance : Option Decimal) (values : List (Option Decimal))
    (actual expected : Dict (Option Decimal)) (most : Decimal) {v : Valuation}
    → valuation_basis_difference balance values (some actual) (some expected) most ≡ compared v
    → v.check ≢ not_performed
unfolding valuation_basis_difference optional_map
difference-check none values actual expected most e = cc
difference-check (some b) values actual expected most e = elim (Option-cases (all_present values)) [
  | inl h ↦ absurd (missing-ne-compared (rw (valuation_basis_difference, h) at e))
  | inr (vs, h) ↦ elim (Option-cases (quantity_map actual)) [
    | inl ha ↦
        absurd (missing-ne-compared (rw (valuation_basis_difference, optional_map, h, ha) at e))
    | inr (a, ha) ↦ elim (Option-cases (quantity_map expected)) [
      | inl hx ↦
          absurd
            (missing-ne-compared (rw (valuation_basis_difference, optional_map, h, ha, hx) at e))
      | inr (x, hx) ↦ compared-check b vs a x most (
          report_of-some (compare_valuations b vs (some a) (some x) most)
            (rw (valuation_basis_difference, optional_map, h, ha, hx) at e))
    ]
  ]
]

-- the report that a basis report carries
reported-injective : {r s : ValuationReport} → reported r ≡ reported s → r ≡ s
reported-injective e = cc

checked-check :
    (balance : Option Decimal) (values : List (Option Decimal)) (expected : Dict (Option Decimal))
    (quantities : Option (Dict (Option Decimal))) {v : Valuation}
    → report_checked balance values expected quantities ≡ reported (compared v)
    → v.check ≢ not_performed
unfolding report_checked
checked-check balance values expected none e = cc
checked-check balance values expected (some quantities) e =
    difference-check balance values quantities expected valuation_tolerance_cap
      (reported-injective e)

values-check :
    (balance : Option Decimal) (rows : List Position) (values : Option (List (Option Decimal)))
    (expected : Dict (Option Decimal)) {v : Valuation}
    → report_values balance rows values (some expected) ≡ reported (compared v)
    → v.check ≢ not_performed
unfolding report_values report_quantities
values-check balance rows none expected e = cc
values-check balance rows (some values) expected e =
    checked-check balance values expected (position_quantities [] rows) e

on-check :
    (balances : Option (Option (Option Decimal))) (positions : Option (List (Option Position)))
    (expected : Dict (Option Decimal)) {v : Valuation}
    → report_on balances positions (some expected) ≡ reported (compared v)
    → v.check ≢ not_performed
unfolding report_on
on-check none positions expected e = cc
on-check (some balance) none expected e = cc
on-check (some none) (some positions) expected e = cc
on-check (some (some balance)) (some positions) expected e =
    values-check balance (rows_of positions) (market_values_of (rows_of positions)) expected e

-- Where expected quantities are given, a report that compares the two valuations has compared the
-- share counts too.
pub expected_quantities_are_checked :
    (observation : Observation) (expected : Dict (Option Decimal)) {v : Valuation}
    → valuation_basis_report observation (some expected) ≡ reported (compared v)
    → v.check ≢ not_performed
unfolding valuation_basis_report
expected_quantities_are_checked observation expected e =
    on-check observation.balances observation.positions expected e
