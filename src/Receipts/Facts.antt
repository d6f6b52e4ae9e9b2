-- ===== src/Receipts/Facts.antt =====
-- The facts of a receipt together.
use firstrade_platform.Prelude.{
  ◌≡◌, refl, Bool, true, false, List, arith, ltb, some, text_eq, text_eq_sound, codes, one_of,
  symbol_key,
}
use firstrade_platform.Receipts.{
  Blocker, StrategyResult, is_positive, has_error, is_expected_funding_skip, ReportStatus,
  strategy_result_report_status, receipt_facts, reconciliation_stages,
}

module _ (is_funding_block : List Blocker → Bool) (r : StrategyResult) (dry_run : Bool) where
  funding_stage :
      r.strategy_run_stage ≡ codes "FUNDING_BLOCKED"
      → one_of (symbol_key r.strategy_run_stage) reconciliation_stages ≡ false
  unfolding one_of symbol_key text_eq
  funding_stage e = rw e

  skip-quiet :
      is_expected_funding_skip is_funding_block r ≡ true
      → (r.ok ≡ some true)
        × (text_eq r.strategy_run_stage (codes "FUNDING_BLOCKED") ≡ true)
        × (r.action_done ≡ some false)
        × (r.broker_submission_done ≡ some false)
        × (is_positive r.submitted_orders ≡ false)
        × (ltb 0 r.orders_pending_count ≡ false)
        × (text_eq r.execution_status (codes "pending_reconciliation") ≡ false)
        × (has_error r ≡ false)
  unfolding is_expected_funding_skip
  skip-quiet h = (
    ground arith,
    ground arith,
    ground arith,
    ground arith,
    ground arith,
    ground arith,
    ground arith,
    ground arith,
  )

  -- An expected funding skip is reported as none of these: no submission, no reconciliation, no risk
  -- block and no failure, and the report's status is fine.
  pub expected_funding_skip_is_clean :
      is_expected_funding_skip is_funding_block r ≡ true
      → let f = receipt_facts is_funding_block r dry_run in
        (f.submission_attempted ≡ false)
        × (f.reconciliation_required ≡ false)
        × (f.risk_blocked ≡ false)
        × (f.failed ≡ false)
        × (strategy_result_report_status r ≡ ReportStatus.ok)
  unfolding receipt_facts strategy_result_report_status
  expected_funding_skip_is_clean h =
      let (fine, stage, not_done, not_sent, no_orders, no_pending, status, no_error) =
        skip-quiet h in
      let calm =
        funding_stage (text_eq_sound r.strategy_run_stage (codes "FUNDING_BLOCKED") stage) in
      simp (fine, not_done, not_sent, no_orders, no_pending, status, no_error, calm, h)
        (refl, refl, refl, refl, refl)
