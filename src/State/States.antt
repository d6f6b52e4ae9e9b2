-- ===== src/State/States.antt =====
-- application/strategy_run_persistence.py: `build_strategy_run_state`, the record of one stage of a run.
use firstrade_platform.Prelude.{
  Bool, Option, none, some, [], ◌∷◌, Text, codes, is_empty, if◌then◌else◌,
}
use firstrade_platform.State.Store.{Field, text, flag, Payload}
use firstrade_platform.State.Keys.{Moment}

-- The arguments. Lists and mappings are given as the JSON values that they become.
pub record StateFacts : Type 0 where
  pub stage : Text
  pub account : Text
  pub strategy_profile : Text
  pub strategy_display_name : Text
  pub run_period : Text
  pub dry_run_only : Bool
  pub live_trading_enabled : Bool
  pub session_reused : Bool
  pub portfolio_snapshot : Field
  pub evaluation_metadata : Field
  pub plan : Field
  pub submitted_orders : Field
  pub skipped_orders : Field
  pub execution_notes : Field
  pub action_done : Bool
  pub broker_submission_done : Bool
  pub execution_status : Text
  pub orders_pending_count : Field
  pub error : Option Text

abbrev pub error_entry : Option Text → Payload
error_entry none = []
error_entry (some e) = if is_empty e then [] else (codes "error", text e) ∷ []

unfoldable pub build_strategy_run_state : (Text → Text) → StateFacts → Moment → Payload
build_strategy_run_state mask f now =
    (codes "stage", text f.stage)
    ∷ (codes "as_of", text now.iso)
    ∷ (codes "account", text (mask f.account))
    ∷ (codes "strategy_profile", text f.strategy_profile)
    ∷ (codes "strategy_display_name", text f.strategy_display_name)
    ∷ (codes "run_period", text f.run_period)
    ∷ (codes "dry_run_only", flag f.dry_run_only)
    ∷ (codes "live_trading_enabled", flag f.live_trading_enabled)
    ∷ (codes "session_reused", flag f.session_reused)
    ∷ (codes "portfolio_snapshot", f.portfolio_snapshot)
    ∷ (codes "evaluation_metadata", f.evaluation_metadata)
    ∷ (codes "plan", f.plan)
    ∷ (codes "submitted_orders", f.submitted_orders)
    ∷ (codes "skipped_orders", f.skipped_orders)
    ∷ (codes "execution_notes", f.execution_notes)
    ∷ (codes "action_done", flag f.action_done)
    ∷ (codes "broker_submission_done", flag f.broker_submission_done)
    ∷ (codes "execution_status", text f.execution_status)
    ∷ (codes "orders_pending_count", f.orders_pending_count)
    ∷ error_entry f.error
