-- ===== src/Rebalance/Tests.antt =====
-- The theorems on whole runs at two runs of one small account.
use firstrade_platform.Prelude.{
  ℕ, ◌≡◌, refl, ◌≢◌, Bool, true, false, none, some, List, [], ◌∷◌, Text, codes, ℤ, pos, cents_float,
  any, is_empty, not,
}
use firstrade_platform.State.Store.{Bucket, null, text, json_value, legacy_account_state_id}
use firstrade_platform.State.Keys.{Moment, safe_key}
use firstrade_platform.State.Runs.{RunId}
use firstrade_platform.Execution.Tests.{small_plan, config_of, ports_of}
use firstrade_platform.Rebalance.{RunSetup, run_strategy_cycle}
use firstrade_platform.Rebalance.Report.{RunKit}
use firstrade_platform.Rebalance.Grants.{is_sent}
use firstrade_platform.Rebalance.Kept.{HasClaim}
use firstrade_platform.Rebalance.Repeats.{
  Job, run_job, run_jobs, no_second_submission, run_strategy_cycle-LeavesClaim,
}

abbrev setup_of : Text → RunSetup ℤ
setup_of profile = record {
  cfg = config_of false;
  persist_strategy_runs = true;
  mask = legacy_account_state_id;
  prefix = codes "state";
  run = record {
    account = codes "12345678";
    strategy_profile = profile;
    run_period = codes "2026-10";
  };
  masked_account = codes "****5678";
  strategy_display_name = profile;
  live_trading_enabled = true;
  session_reused = false;
  now = record {
    stamp = codes "20261001T000000Z";
    day_path = codes "2026/10/01";
    month = codes "2026-10";
    iso = codes "2026-10-01T00:00:00+00:00";
  };
  insufficient_cash_diagnostic = false;
}

abbrev small_kit : RunKit ℤ
small_kit = record {
  is_terminal = λ stage. false;
  resolve_stage = λ dry blocked funding done. codes "ORDERS_SUBMITTED";
  blocking_skips = λ skips. [];
  is_funding_block = λ skips. false;
  portfolio = null;
  metadata = null;
  plan = null;
  orders = λ orders. null;
  skips = λ skips. null;
  notes = λ notes. null;
  count = λ n. null;
}

abbrev job_of : Text → Job ℤ
job_of profile = record {
  setup = setup_of profile;
  kit = small_kit;
  ports = ports_of (codes "Filled");
  plan = small_plan;
}

abbrev empty_bucket : Bucket
empty_bucket = record { objects = []; reachable = true }

october-ne-latest : safe_key (codes "2026-10") ≢ codes "latest"
unfolding safe_key
october-ne-latest e = cc

first_sends : any is_sent (run_job (job_of (codes "soxl")) empty_bucket).events ≡ true
unfolding firstrade_platform.Rebalance.answer_of firstrade_platform.Rebalance.is_grant
    firstrade_platform.Rebalance.claim_answer firstrade_platform.Rebalance.cycle_ports
    firstrade_platform.Rebalance.try_persist firstrade_platform.Rebalance.facts_of_stage
    firstrade_platform.Rebalance.complete firstrade_platform.Rebalance.settle_run
    firstrade_platform.Rebalance.after_cycle firstrade_platform.Rebalance.run_cycle_on
    firstrade_platform.Rebalance.planned firstrade_platform.Rebalance.checked run_strategy_cycle
    firstrade_platform.Execution.Compatibility.compatibility_candidates
    firstrade_platform.Execution.Compatibility.candidate_prices
    firstrade_platform.Execution.Compatibility.may_bootstrap
    firstrade_platform.Execution.Compatibility.adjustment
    firstrade_platform.Execution.Compatibility.candidate_of
    firstrade_platform.Execution.Compatibility.apply_adjustment
    firstrade_platform.Execution.Compatibility.adjust_one
    firstrade_platform.Execution.Compatibility.adjust_all
    firstrade_platform.Execution.Compatibility.record_compatibility
    firstrade_platform.Execution.Compatibility.apply_small_account_whole_share_compatibility
    firstrade_platform.Execution.Submission.after firstrade_platform.Execution.Submission.each
    firstrade_platform.Execution.Submission.answer firstrade_platform.Execution.Submission.ask_claim
    firstrade_platform.Execution.Submission.may_submit_live_order
    firstrade_platform.Execution.Submission.order_of
    firstrade_platform.Execution.Submission.recorded firstrade_platform.Execution.Submission.settle
    firstrade_platform.Execution.Submission.receive firstrade_platform.Execution.Submission.place
    firstrade_platform.Execution.Submission.proceed firstrade_platform.Execution.Submission.attempt
    firstrade_platform.Execution.Cycle.prepared_plan
    firstrade_platform.Execution.Cycle.order_notional_cap_of
    firstrade_platform.Execution.Cycle.facts_of firstrade_platform.Execution.Cycle.initial
    firstrade_platform.Execution.Cycle.classify firstrade_platform.Execution.Cycle.classify_all
    firstrade_platform.Execution.Cycle.traded_symbols
    firstrade_platform.Execution.Cycle.sell_quantity firstrade_platform.Execution.Cycle.sell_step
    firstrade_platform.Execution.Cycle.negative_deltas
    firstrade_platform.Execution.Cycle.positive_deltas firstrade_platform.Execution.Cycle.sell_phase
    firstrade_platform.Execution.Cycle.release_cash firstrade_platform.Execution.Cycle.buy_budget_of
    firstrade_platform.Execution.Cycle.buy_request firstrade_platform.Execution.Cycle.estimate_buy
    firstrade_platform.Execution.Cycle.estimate_buys
    firstrade_platform.Execution.Cycle.buys_wait_for_release
    firstrade_platform.Execution.Cycle.guard_buys firstrade_platform.Execution.Cycle.share_buy_step
    firstrade_platform.Execution.Cycle.buy_step firstrade_platform.Execution.Cycle.buy_phase
    firstrade_platform.Execution.Cycle.finish firstrade_platform.Execution.Cycle.run_cycle
    firstrade_platform.Execution.Cycle.execute_value_target_plan
    firstrade_platform.Execution.Sizing.with_soxx
    firstrade_platform.Execution.Sizing.limit_buy_premium_for_symbol
    firstrade_platform.Execution.Sizing.limit_buy_price
    firstrade_platform.Execution.Sizing.floor_quantity
    firstrade_platform.Execution.Sizing.at_least_nought
    firstrade_platform.Execution.Sizing.capped_sell_budget
    firstrade_platform.Execution.Sizing.sell_budget
    firstrade_platform.Execution.Sizing.should_retain_existing_whole_share
    firstrade_platform.Execution.Sizing.planned_buy_order_quantity
    firstrade_platform.Execution.Sizing.quote_price
    firstrade_platform.Execution.SafeHaven.small_account_drift_reference_targets
    firstrade_platform.Execution.SafeHaven.substitute_small_safe_haven_targets_with_cash
    firstrade_platform.Execution.Orders.normalized_status
    firstrade_platform.Execution.Orders.order_submission_accepted
    firstrade_platform.Execution.Orders.order_submission_unknown
    firstrade_platform.Execution.Orders.record_order_result firstrade_platform.State.Runs.text_of
    firstrade_platform.State.Runs.truth_of firstrade_platform.State.Runs.claim_live_strategy_run
    firstrade_platform.State.Runs.read_live_strategy_run_claim
    firstrade_platform.State.Runs.has_effective_live_submission_claim
    firstrade_platform.State.Runs.read_latest_strategy_run_state
    firstrade_platform.State.Runs.is_duplicate_live_run firstrade_platform.State.Runs.state_keys
    firstrade_platform.State.Runs.persist_strategy_run_state
    firstrade_platform.State.Runs.claim_once firstrade_platform.State.Runs.acquire_submission_claim
    firstrade_platform.State.States.build_strategy_run_state safe_key
    firstrade_platform.State.Keys.run_prefix firstrade_platform.State.Keys.strategy_run_state_key
    firstrade_platform.State.Keys.strategy_run_history_key
    firstrade_platform.State.Keys.strategy_run_claim_key firstrade_platform.State.Store.object_name
    firstrade_platform.State.Store.decode firstrade_platform.State.Store.read_json
    firstrade_platform.State.Store.write_object firstrade_platform.State.Store.write_json
    firstrade_platform.State.Store.create_if_absent firstrade_platform.State.Store.create_object
    firstrade_platform.State.Store.create_json firstrade_platform.Prelude.◌+ℤ◌
    firstrade_platform.Prelude.◌-ℤ◌ firstrade_platform.Prelude.fmin firstrade_platform.Prelude.fabs
    firstrade_platform.Prelude.or_num firstrade_platform.Prelude.text_lt
    firstrade_platform.Prelude.insert_sorted firstrade_platform.Prelude.sorted_set
    firstrade_platform.Prelude.lower firstrade_platform.Prelude.only_alnum is_sent
first_sends = refl

abbrev october : Job ℤ
october = job_of (codes "soxl")

abbrev other_profile : Job ℤ
other_profile = job_of (codes "qqq")

abbrev claimed_bucket : Bucket
claimed_bucket = (run_job october empty_bucket).bucket

october_claim : HasClaim (codes "state") (october.setup.run) claimed_bucket
october_claim =
    run_strategy_cycle-LeavesClaim october.setup small_kit october.ports october-ne-latest refl
      small_plan empty_bucket first_sends

no_second_submission_example :
    (run_job october (run_jobs (other_profile ∷ []) claimed_bucket)).events ≡ []
no_second_submission_example =
    no_second_submission october (other_profile ∷ []) october empty_bucket october-ne-latest refl
      first_sends (refl, tt) refl refl refl refl
