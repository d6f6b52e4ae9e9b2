-- ===== src/Lib.antt =====
-- FirstradePlatform: the execution of a strategy's value targets at the broker, and the records and
-- reports around it.
--
-- A strategy's decision becomes a plan of value targets (decision_mapper.py).
-- A run (`run_strategy_cycle` of application/rebalance_service.py) first looks for the durable state
-- and the claim of an earlier run (application/strategy_run_persistence.py over
-- application/state_persistence.py). It then turns the targets of a strategy into orders
-- (application/execution_service.py), asking for the claim before each live order, and writes the
-- state of what it did. The orders go through the adapters of
-- application/runtime_broker_adapters.py to the client of application/firstrade_client.py, which
-- checks them. A separate check keeps the broker's session alive
-- (application/session_check_service.py). The program reports the cycle's result as an execution
-- receipt (application/execution_receipt_adapter.py), gates paper commands
-- (application/paper_execution_admission.py) and compares them with the account
-- (application/paper_execution_command_consumer.py), explains the statements of the broker
-- (application/statement_reconciliation.py over application/firstrade_fee_schedule.py) and withholds
-- repeated alerts (scripts/runtime_guard_alert_dedupe.py).
--
-- Prelude holds what the parts share: texts as lists of character codes (the string methods are
-- those of ASCII), dicts as association lists in the order of insertion, integers over the native
-- numbers, and the interface `Float`.
--
-- Execution, for application/execution_service.py:
--   Plan        the fields that are read of a plan, and the keyword arguments
--   Sizing      `_limit_buy_price`, `_sell_budget`, `_planned_buy_order_quantity`, ...
--   SafeHaven   `substitute_small_safe_haven_targets_with_cash` and the reference targets
--   Compatibility  `_apply_small_account_whole_share_compatibility`
--   Orders      requests, reports, statuses, skips and `ExecutionCycleResult`
--   Submission  the local variables of the cycle and the path of one order: the claim callback, the
--               broker, `_record_order_result`, and the two early returns
--   Cycle       `execute_value_target_plan`: the loops, the cash guards, the result
-- State, for the durable records: Store (`GcsStateStore`), Keys, Runs (the claim, the latest state),
--   Periods (`resolve_strategy_run_period`), States (`build_strategy_run_state`).
-- Rebalance, for `run_strategy_cycle` from the mapped plan on: the file itself has the steps of a run
--   with the bucket that they read and write, Report the report on a cycle. Its claim callback is the
--   port `before_live_submission` of Execution. Repeats runs one request after another.
-- Broker: Payload and Fields (application/account_payload_utils.py and the searches of a payload),
--   Accounts, Order (`validate_stock_order`, `place_stock_order`), Adapters (the execution port, whose
--   reports Execution takes, `build_portfolio_snapshot` and, in Adapters/Reconciled, the snapshot for
--   paper commands), Session (the cache of a session), Orders (`get_orders`, `get_order_status`, `get_balances`).
-- SessionCheck, for `run_session_check` and its maintenance decision.
-- Paper, for application/paper_execution_command_consumer.py: a paper command compared with the
--   account; the finding that a position does not agree is a flag, since its repeats are dropped.
-- Mapper, for decision_mapper.py: the targets of a plan and its cash to invest and to reserve.
-- Fees: Decimals (Python's `Decimal`), Schedule (`FeeSchedule`), Statement (`decompose_sell_fees`,
--   `valuation_basis_difference`), Report (`valuation_basis_report`).
-- Receipts, Admission and Dedupe are one file each.
-- The Tests modules run the definitions on concrete data and apply the theorems there.
--
-- How the model stands to the code:
--   * Floats are a type with the operations of the interface `Float`. The theorems that compare
--     numbers take the laws of an order (`IsOrdered`), which finite floats satisfy; whole cents are
--     an instance. A number that is absent or zero falls to the default of Python's `or`.
--   * Decimals are exact; the context's 28 digits are not reached by amounts of a statement.
--   * Dates are the numbers yyyymmdd, or the texts that the code renders. Times of alerts are seconds.
--   * Parsing of rows and configs is outside: a value that does not parse is `none`.
--   * The broker, the claim callback, the quotes and the functions of quant_platform_kit are
--     parameters. The broker and the callback may answer by all that happened before; a quote does not
--     change during one cycle.
--   * An exception is a result: `raise` of a flow, `fault`, `err` or `none`.
--   * The trace `events` of a cycle records each answer of the claim callback and each request that
--     reached the broker, the latest first.
--   * Loops are recursion on their lists; the digits of a number are printed with a fuel of one more
--     than the number.
--   * JSON values of the broker are the data type `Json`; Python's conversions of texts to numbers and
--     its `str` of containers are the parameter `Reading`.
--   * The store is reachable or not during one run; its faults are results. Lists and mappings in a
--     durable state are given as the JSON values that they become.
--
-- Not modelled: the HTTP sessions and routes, the login, the reading of environment variables, the
-- evaluation of a strategy, the texts of notifications, the operations scripts, and the remaining
-- services of application/.
pub mod Prelude
pub mod Execution
pub mod State
pub mod Rebalance
pub mod Broker
pub mod SessionCheck
pub mod Mapper
pub mod Paper
pub mod Fees
pub mod Receipts
pub mod Admission
pub mod Dedupe
