-- ===== src/Admission/Tests.antt =====
-- A command that is admitted, and the theorem at it.
use firstrade_platform.Prelude.{
  ◌≡◌, refl, true, false, Option, none, some, List, [], ◌∷◌, Text, codes,
}
use firstrade_platform.Admission.{
  Audit, green, Command, Decision, RuntimeTarget, Environment, evaluate_paper_dry_run_admission,
}
use firstrade_platform.Admission.Closed.{IsAdmitted, green_needs_every_gate}

abbrev decode_any : Text → Option Command
decode_any raw = some (record { platform = codes "firstrade"; command_id = raw })

abbrev allow : Command → Option Text → Option Decision
allow command release = some (record {
  disposition = codes "allow_new_risk";
  integrity_findings = [];
  command_id = some command.command_id;
  receipt_sha256 = some (codes "00");
})

abbrev dry_target : RuntimeTarget
dry_target = record { dry_run_only = true; strategy_release = some (codes "r1") }

abbrev switched_on : Environment
switched_on = record { admission_enabled = some (codes " Yes"); command_json = some (codes "c1") }

abbrev green_audit : Audit
green_audit = record {
  disposition = codes "allow_new_risk";
  findings = [];
  command_id = some (codes "c1");
  receipt_sha256 = some (codes "00");
  audit_color = green;
}

admitted :
    evaluate_paper_dry_run_admission decode_any allow dry_target switched_on ≡ some green_audit
unfolding evaluate_paper_dry_run_admission
    firstrade_platform.Admission.paper_dry_run_admission_requested firstrade_platform.Prelude.one_of
    firstrade_platform.Prelude.lower firstrade_platform.Prelude.strip
    firstrade_platform.Admission.enabled firstrade_platform.Admission.admit_text
    firstrade_platform.Admission.admit_command firstrade_platform.Admission.audit_from_decision
    firstrade_platform.Admission.audit firstrade_platform.Admission.audit_color_of
admitted = refl

green_needs_every_gate_example : IsAdmitted decode_any allow dry_target switched_on
green_needs_every_gate_example =
    green_needs_every_gate decode_any allow dry_target switched_on admitted refl
