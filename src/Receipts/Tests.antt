-- ===== src/Receipts/Tests.antt =====
-- A result blocked by missing funds, and the theorems at it.
use firstrade_platform.Prelude.{
  ◌≡◌, refl, Bool, true, false, Option, none, some, List, [], ◌∷◌, codes,
}
use firstrade_platform.Receipts.{
  Blocker, mapping, StrategyResult, is_expected_funding_skip, ReportStatus,
  strategy_result_report_status,
}

abbrev unfunded : StrategyResult
unfunded = record {
  ok = some true;
  strategy_run_stage = codes "FUNDING_BLOCKED";
  funding_blocked = some true;
  execution_blocked = none;
  action_done = some false;
  broker_submission_done = some false;
  submitted_orders = some 0;
  orders_pending_count = 0;
  pending_reconciliation = false;
  execution_status = [];
  errors = [];
  execution_blocking_skips = mapping ((codes "reason", codes "insufficient_cash") ∷ []) ∷ [];
}

abbrev any_block : List Blocker → Bool
any_block blockers = true

unfunded-expected : is_expected_funding_skip any_block unfunded ≡ true
unfolding is_expected_funding_skip firstrade_platform.Prelude.text_eq
    firstrade_platform.Receipts.has_error
unfunded-expected = refl
