-- ===== src/Receipts.antt =====
-- application/execution_receipt_adapter.py: what a report says of a cycle's result.
-- A flag of the result is `none` where the key is missing or holds no Boolean. The receipts' shared
-- functions of the kit are arguments.
pub mod Facts
mod Tests
use firstrade_platform.Prelude.{
  ℕ, Bool, true, false, not, ◌&&◌, ◌||◌, Option, none, some, List, [], ◌∷◌, Text, codes, text_eq,
  one_of, symbol_key, strip, upper, is_empty, any, all, ltb, is_some, if◌then◌else◌, Dict,
}

-- An entry of `execution_blocking_skips`: a mapping, or a value of another type.
pub data Blocker : Type 0 where
  mapping : Dict Text → Blocker
  other : Blocker

pub record StrategyResult : Type 0 where
  pub ok : Option Bool
  pub strategy_run_stage : Text
  pub funding_blocked : Option Bool
  pub execution_blocked : Option Bool
  pub action_done : Option Bool
  pub broker_submission_done : Option Bool
  -- how many orders the list holds; `none` where there is no list
  pub submitted_orders : Option ℕ
  pub orders_pending_count : ℕ
  pub pending_reconciliation : Bool
  pub execution_status : Text
  -- the values of `_ERROR_FIELDS`, empty where there is none
  pub errors : List Text
  pub execution_blocking_skips : List Blocker

abbrev pub is_true : Option Bool → Bool
is_true (some true) = true
is_true _ = false

abbrev pub is_false : Option Bool → Bool
is_false (some false) = true
is_false _ = false

abbrev pub is_mapping : Blocker → Bool
is_mapping (mapping _) = true
is_mapping other = false

abbrev pub is_zero : Option ℕ → Bool
is_zero (some n) = not (ltb 0 n)
is_zero none = false

abbrev pub is_positive : Option ℕ → Bool
is_positive (some n) = ltb 0 n
is_positive none = false

unfoldable pub has_error : StrategyResult → Bool
has_error r = any (λ e. not (is_empty e)) r.errors

unfoldable pub is_expected_funding_skip : (List Blocker → Bool) → StrategyResult → Bool
is_expected_funding_skip is_funding_block r =
    is_true r.ok
    && text_eq r.strategy_run_stage (codes "FUNDING_BLOCKED")
    && is_true r.funding_blocked
    && is_false r.action_done
    && is_false r.broker_submission_done
    && is_zero r.submitted_orders
    && not (ltb 0 r.orders_pending_count)
    && not r.pending_reconciliation
    && not (text_eq r.execution_status (codes "pending_reconciliation"))
    && not (has_error r)
    && not (is_empty r.execution_blocking_skips)
    && all is_mapping r.execution_blocking_skips
    && is_funding_block r.execution_blocking_skips

pub data ReportStatus : Type 0 where
  error ok : ReportStatus

unfoldable pub strategy_result_report_status : StrategyResult → ReportStatus
strategy_result_report_status r =
    if is_false r.ok || has_error r then ReportStatus.error else ReportStatus.ok

-- The facts that the kit resolves to an outcome and a confirmation.
pub record ReceiptFacts : Type 0 where
  pub dry_run : Bool
  pub submission_attempted : Bool
  pub reconciliation_required : Bool
  pub risk_blocked : Bool
  pub failed : Bool

abbrev pub reconciliation_stages : List Text
reconciliation_stages = codes "PENDING_RECONCILIATION" ∷ codes "PENDING_SUBMISSION" ∷ []

abbrev pub risk_blocked_stages : List Text
risk_blocked_stages = codes "EXECUTION_BLOCKED" ∷ codes "FUNDING_BLOCKED" ∷ []

unfoldable pub receipt_facts : (List Blocker → Bool) → StrategyResult → Bool → ReceiptFacts
receipt_facts is_funding_block r dry_run =
    let stage = symbol_key r.strategy_run_stage in
    let attempted =
      is_true r.action_done || is_true r.broker_submission_done || is_positive r.submitted_orders in
    let reconcile =
      one_of stage reconciliation_stages
      || text_eq r.execution_status (codes "pending_reconciliation")
      || ltb 0 r.orders_pending_count in
    let blocked =
      not attempted
      && not (is_expected_funding_skip is_funding_block r)
      && (one_of stage risk_blocked_stages
          || is_true r.execution_blocked
          || is_true r.funding_blocked) in
    record {
      dry_run = dry_run;
      submission_attempted = attempted;
      reconciliation_required = reconcile;
      risk_blocked = blocked;
      failed = is_false r.ok && not attempted && not reconcile && not blocked;
    }

-- the report, as far as this code reads it
pub record Report : Type 0 where
  pub attestation_state : Option Text
  pub has_strategy_release : Bool
  pub dry_run : Bool
  pub receipt : Option (Text × Text)

unfoldable pub is_legacy_unattested : Report → Bool
is_legacy_unattested report = elim report.attestation_state [
  | none ↦ false
  | some state ↦ text_eq state (codes "legacy_unattested") && not report.has_strategy_release
]

-- The kit's resolver gives the outcome and the broker's confirmation.
unfoldable pub attach_strategy_result_execution_receipt :
    (List Blocker → Bool) → (ReceiptFacts → Text × Text) → Report → StrategyResult → Bool → Report
attach_strategy_result_execution_receipt is_funding_block resolve report r dry_run =
    if is_legacy_unattested report
    then report
    else record report { receipt = some (resolve (receipt_facts is_funding_block r dry_run)) }

unfoldable pub attach_unknown_failure_execution_receipt :
    (ReceiptFacts → Text × Text) → Report → Report
attach_unknown_failure_execution_receipt resolve report =
    let fact : Text × Text =
      if report.dry_run
      then (codes "failed", codes "not_applicable")
      else resolve (record {
        dry_run = false;
        submission_attempted = true;
        reconciliation_required = false;
        risk_blocked = false;
        failed = true;
      }) in
    if is_legacy_unattested report then report else record report { receipt = some fact }
