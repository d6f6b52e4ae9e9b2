-- ===== src/Admission.antt =====
-- application/paper_execution_admission.py: the opt-in admission of paper commands.
-- `load` is the command that the JSON text decodes to, `none` where it does not; `evaluate` is the
-- kit's decision on a command and a release, `none` where it raises.
pub mod Closed
mod Tests
use firstrade_platform.Prelude.{
  Bool, true, false, not, ◌&&◌, Option, none, some, List, [], ◌∷◌, Text, codes, text_eq, strip,
  lower, one_of, is_empty, if◌then◌else◌,
}

pub data Finding : Type 0 where
  command_missing : Finding
  command_invalid : Finding
  platform_mismatch : Finding
  admission_configuration_invalid : Finding
  admission_evaluation_failed : Finding
  runtime_mode_invalid : Finding
  of_decision : Text → Finding

pub data Color : Type 0 where
  green red : Color

pub record Audit : Type 0 where
  pub disposition : Text
  pub findings : List Finding
  pub command_id : Option Text
  pub receipt_sha256 : Option Text
  pub audit_color : Color

-- `ExecutionCommand`, as far as this code reads it
pub record Command : Type 0 where
  pub platform : Text
  pub command_id : Text

-- `PaperExecutionAdmissionDecision`
pub record Decision : Type 0 where
  pub disposition : Text
  pub integrity_findings : List Finding
  pub command_id : Option Text
  pub receipt_sha256 : Option Text

-- The runtime target: `dry_run_only is True`, and the release.
pub record RuntimeTarget : Type 0 where
  pub dry_run_only : Bool
  pub strategy_release : Option Text

abbrev pub true_values : List Text
true_values = codes "1" ∷ codes "true" ∷ codes "yes" ∷ codes "on" ∷ []

abbrev pub false_values : List Text
false_values = codes "" ∷ codes "0" ∷ codes "false" ∷ codes "no" ∷ codes "off" ∷ []

-- the environment: the enable switch and the command, `none` where unset
pub record Environment : Type 0 where
  pub admission_enabled : Option Text
  pub command_json : Option Text

unfoldable pub paper_dry_run_admission_requested : Environment → Bool
paper_dry_run_admission_requested env = elim env.admission_enabled [
  | none ↦ false
  | some raw ↦ not (one_of (lower (strip raw)) false_values)
]

unfoldable pub enabled : Environment → Bool
enabled env = elim env.admission_enabled [
  | none ↦ false
  | some raw ↦ one_of (lower (strip raw)) true_values
]

unfoldable pub audit_color_of : Text → List Finding → Color
audit_color_of disposition findings =
    if text_eq disposition (codes "allow_new_risk") && is_empty findings then green else red

unfoldable pub audit : Text → List Finding → Option Text → Option Text → Audit
audit disposition findings command_id receipt = record {
  disposition = disposition;
  findings = findings;
  command_id = command_id;
  receipt_sha256 = receipt;
  audit_color = audit_color_of disposition findings;
}

unfoldable pub halted : Finding → Option Text → Audit
halted finding command_id = audit (codes "halted") (finding ∷ []) command_id none

unfoldable pub audit_from_decision : Text → Option Decision → Audit
audit_from_decision command_id none = halted admission_evaluation_failed (some command_id)
audit_from_decision command_id (some d) =
    audit d.disposition d.integrity_findings d.command_id d.receipt_sha256

module _ (load : Text → Option Command) (evaluate : Command → Option Text → Option Decision) where
  unfoldable pub admit_command : RuntimeTarget → Option Command → Audit
  admit_command target none = halted command_invalid none
  admit_command target (some command) =
      if not (text_eq command.platform (codes "firstrade"))
      then halted platform_mismatch (some command.command_id)
      else if not target.dry_run_only
      then halted runtime_mode_invalid (some command.command_id)
      else audit_from_decision command.command_id (evaluate command target.strategy_release)

  -- an empty command counts as missing
  unfoldable pub admit_text : RuntimeTarget → Option Text → Audit
  admit_text target none = halted command_missing none
  admit_text target (some raw) =
      if is_empty raw then halted command_missing none else admit_command target (load raw)

  unfoldable pub evaluate_paper_dry_run_admission : RuntimeTarget → Environment → Option Audit
  evaluate_paper_dry_run_admission target env =
      if not (paper_dry_run_admission_requested env)
      then none
      else if not (enabled env)
      then some (halted admission_configuration_invalid none)
      else some (admit_text target env.command_json)
