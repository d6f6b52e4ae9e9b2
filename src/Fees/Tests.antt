-- ===== src/Fees/Tests.antt =====
-- The default schedule and one sale, and the theorems at them.
use firstrade_platform.Prelude.{
  ◌+◌, ◌*◌, ◌^◌, ℕ, ◌<◌, ◌≤◌, ◌≡◌, refl, ◌≢◌, Bool, true, Option, some, List, [], ◌∷◌, codes, lower,
  strip, lstrip, is_space, one_of, upper, is_substring, text_eq, ◌-ℤ◌, ◌+ℤ◌, ◌*ℤ◌, pos, negsuc,
}
use firstrade_platform.Fees.Decimals.{
  Decimal, decimal, lt, magnitude, add, sub, mul, shift_down, dmin, dmax, scaled, round_up_cent,
  round_half_up_cent, round_half_even_cent, ceil_div, half_up_div, half_even_div, total,
}
use firstrade_platform.Fees.Schedule.{
  FeeSchedule, Table, Row, Result, ok, err, sec_rate, segments, one_value, rate_from, dates_of,
  lookup, load_fee_schedule, default_fee_schedule_config, RawSchedule, is_broker_assisted,
}
use firstrade_platform.Fees.Schedule.Ordered.{IsIncreasing, segments-IsIncreasing}
use firstrade_platform.Fees.Schedule.Lookup.{Answers, lookup_lem}
use firstrade_platform.Fees.Statement.{
  HistoryRow, dated, resolve_dates, check_executed, check_settled, Assessment, RegulatoryFee,
  assessed, decompose_sell_fees, compare_valuations, Valuation, basis_difference, matched,
  not_performed, is_mismatch, compared,
}
use firstrade_platform.Fees.Statement.Gates.{IsSound, assessed_rows}
use firstrade_platform.Fees.Report.{
  Observation, reported, valuation_basis_report, report_on, report_values, report_quantities,
  report_checked, rows_of, market_values_of, position_quantities,
}
use firstrade_platform.Fees.Report.Checked.{expected_quantities_are_checked}

-- the rates of the default config, in force from three days on
abbrev sec_rows : List (Row Decimal)
sec_rows =
    record { effective_from = 20240522; value = decimal 2780 2 }
    ∷ record { effective_from = 20250514; value = decimal 0 2 }
    ∷ record { effective_from = 20260404; value = decimal 2060 2 }
    ∷ []

sec_rows-read :
    segments one_value default_fee_schedule_config.sec_rate_per_million sec_rate ≡ ok sec_rows
unfolding segments firstrade_platform.Fees.Schedule.read_rows one_value
    firstrade_platform.Fees.Schedule.checked_decimal lt scaled ◌*ℤ◌
    firstrade_platform.Fees.Schedule.is_unordered text_eq dates_of
    firstrade_platform.Fees.Schedule.sorted firstrade_platform.Fees.Schedule.insert
    firstrade_platform.Fees.Schedule.has_duplicates
sec_rows-read = refl

segments-IsIncreasing_example : IsIncreasing (dates_of sec_rows) × (sec_rows ≢ [])
segments-IsIncreasing_example =
    segments-IsIncreasing one_value default_fee_schedule_config.sec_rate_per_million sec_rate
      sec_rows-read

sec_rows-IsIncreasing : IsIncreasing (dates_of sec_rows)
sec_rows-IsIncreasing =
    (segments-IsIncreasing one_value default_fee_schedule_config.sec_rate_per_million sec_rate
      sec_rows-read).0

lookup_lem_example :
    Answers 20261201 sec_rows 20260101 sec_rate (lookup 20261201 sec_rows 20260101 sec_rate)
lookup_lem_example = lookup_lem 20261201 sec_rows 20260101 sec_rate sec_rows-IsIncreasing

-- Ten shares at $100, sold by the desk.
abbrev desk_sale : HistoryRow
desk_sale = record {
  transaction = codes "Sold";
  description = codes "Broker/Dealer order";
  date = some 20260501;
  executed = some (some 20260501);
  settled = some (some 20260504);
  quantity = some (decimal 10 0);
  price = some (decimal 100 0);
  amount = some (decimal 98002 2);
}

desk_sale-dated : resolve_dates desk_sale ≡ dated 20260501 (some 20260504)
unfolding resolve_dates check_executed check_settled
desk_sale-dated = refl

abbrev schedule : FeeSchedule
schedule = record {
  broker_assisted_markers = codes "BROKER/DEALER ORDER" ∷ [];
  broker_assisted_fee = record { effective_from = 20000101; value = decimal 1995 2 } ∷ [];
  sec_rate_per_million = sec_rows;
  taf_per_share =
      record {
        effective_from = 20260101;
        value = record { rate = decimal 195 6; max_per_trade = decimal 979 2 };
      }
      ∷ [];
  minimum_regulatory_fee = decimal 1 2;
  explained_residual_tolerance = decimal 1 2;
  verified_through = 20261201;
}

abbrev desk_assessment : Assessment
desk_assessment = record {
  trade_date = 20260501;
  settlement_date = some 20260504;
  gross = decimal 1000 0;
  broker_fee = decimal 1995 2;
  regulatory = record { sec_raw = decimal 2060000 8; taf_raw = decimal 1950 6; fee = decimal 3 2 };
  expected_net = decimal 98002 2;
  reported_net = decimal 98002 2;
  residual = decimal 0 2;
  is_explained = true;
}

desk_sale-assessed : decompose_sell_fees schedule desk_sale ≡ assessed desk_assessment
unfolding decompose_sell_fees one_of lower strip is_broker_assisted is_substring upper resolve_dates
    check_executed check_settled firstrade_platform.Fees.Statement.price_row
    firstrade_platform.Fees.Statement.price_positive lt scaled ◌*ℤ◌ magnitude
    firstrade_platform.Fees.Statement.charge firstrade_platform.Fees.Schedule.broker_assisted_fee_on
    add ceil_div dmax dmin half_even_div half_up_div mul round_half_even_cent round_half_up_cent
    round_up_cent shift_down sub lookup firstrade_platform.Fees.Schedule.sec_rate_on
    firstrade_platform.Fees.Schedule.select firstrade_platform.Fees.Schedule.taf_on
    firstrade_platform.Fees.Statement.assess firstrade_platform.Fees.Statement.charged
    firstrade_platform.Fees.Statement.regulatory_fee firstrade_platform.Fees.Statement.taf_charge
    ◌+ℤ◌ ◌-ℤ◌ is_space lstrip firstrade_platform.Prelude.starts_with text_eq
    firstrade_platform.Prelude.to_lower firstrade_platform.Prelude.to_upper
desk_sale-assessed = refl

assessed_rows_example :
    (one_of (lower (strip (codes "Sold"))) (codes "sold" ∷ codes "sell" ∷ []) ≡ true)
    × (is_broker_assisted schedule (codes "Broker/Dealer order") ≡ true)
    × IsSound schedule desk_sale desk_assessment
assessed_rows_example = assessed_rows schedule desk_sale desk_sale-assessed

abbrev close_valuation : Valuation
close_valuation = record {
  verdict = basis_difference;
  difference = record { coefficient = negsuc 4; digits = 3 };
  tolerance = decimal 10 2;
  check = not_performed;
}

abbrev one_position : Observation
one_position = record {
  balances = some (some (some (decimal 100 0)));
  positions = some (
      some (record {
        symbol = codes " ibit";
        market_value = some (some (decimal 99995 3));
        quantity = some (some (decimal 10 0));
      })
      ∷ []);
}

abbrev checked_valuation : Valuation
checked_valuation = record close_valuation { check = matched }

one_position-reported :
    valuation_basis_report one_position (some ((codes "IBIT", some (decimal 100 1)) ∷ []))
    ≡ reported (compared checked_valuation)
unfolding valuation_basis_report report_on report_values report_quantities report_checked rows_of
    market_values_of position_quantities
    firstrade_platform.Fees.Statement.valuation_basis_difference
    firstrade_platform.Fees.Statement.all_present firstrade_platform.Fees.Statement.optional_map
    firstrade_platform.Fees.Statement.quantity_map
    firstrade_platform.Fees.Statement.quantity_map_onto
    firstrade_platform.Fees.Statement.quantity_check
    firstrade_platform.Fees.Statement.same_quantities firstrade_platform.Fees.Statement.verdict_of
    firstrade_platform.Fees.Statement.valuation_tolerance compare_valuations lt scaled ◌*ℤ◌
    magnitude add sub mul dmin dmax total ◌+ℤ◌ ◌-ℤ◌ firstrade_platform.Prelude.get
    firstrade_platform.Prelude.put firstrade_platform.Prelude.has_key
    firstrade_platform.Prelude.symbol_key upper strip lstrip is_space
    firstrade_platform.Prelude.to_upper text_eq
one_position-reported = refl

expected_quantities_are_checked_example : matched ≢ not_performed
expected_quantities_are_checked_example =
    expected_quantities_are_checked one_position ((codes "IBIT", some (decimal 100 1)) ∷ [])
      one_position-reported
