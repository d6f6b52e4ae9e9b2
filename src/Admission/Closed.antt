-- ===== src/Admission/Closed.antt =====
-- What a green audit of the admission rests on.
use firstrade_platform.Prelude.{
  ◌≡◌, refl, true, Option, none, some, [], ◌∷◌, Text, codes, text_eq, arith,
}
use firstrade_platform.Admission.{
  green, Audit, Command, Decision, RuntimeTarget, Environment, enabled, audit_color_of, audit,
  halted, audit_from_decision, admit_command, admit_text, evaluate_paper_dry_run_admission,
}

module _ (load : Text → Option Command) (evaluate : Command → Option Text → Option Decision) where
  -- What a green audit rests on.
  pub record IsAdmitted (target : RuntimeTarget) (env : Environment) : Type 0 where
    pub switched_on : enabled env ≡ true
    pub raw : Text
    pub sent : env.command_json ≡ some raw
    pub command : Command
    pub decoded : load raw ≡ some command
    pub on_platform : text_eq command.platform (codes "firstrade") ≡ true
    pub dry : target.dry_run_only ≡ true
    pub decision : Decision
    pub decided : evaluate command target.strategy_release ≡ some decision
    pub allowed : text_eq decision.disposition (codes "allow_new_risk") ≡ true
    pub no_finding : decision.integrity_findings ≡ []

  decision-green :
      (command_id : Text) (o : Option Decision)
      → (audit_from_decision command_id o).audit_color ≡ green
      → (d : Decision) × (o ≡ some d)
        × (text_eq d.disposition (codes "allow_new_risk") ≡ true)
        × (d.integrity_findings ≡ [])
  unfolding audit_from_decision halted audit audit_color_of text_eq
  decision-green command_id none g = cc
  decision-green command_id (some d) g = (d, refl, ground arith, ground arith)

  command-green :
      (target : RuntimeTarget) (env : Environment) (raw : Text) (o : Option Command)
      → enabled env ≡ true
      → env.command_json ≡ some raw
      → load raw ≡ o
      → (admit_command load evaluate target o).audit_color ≡ green
      → IsAdmitted target env
  unfolding admit_command halted audit audit_color_of text_eq
  command-green target env raw none on s e g = cc
  command-green target env raw (some command) on s e g =
      let verdict = evaluate command target.strategy_release in
      let (d, decided, allowed, clean) = decision-green command.command_id verdict (ground arith) in
      record {
        switched_on = on;
        raw = raw;
        sent = s;
        command = command;
        decoded = e;
        on_platform = ground arith;
        dry = ground arith;
        decision = d;
        decided = decided;
        allowed = allowed;
        no_finding = clean;
      }

  text-green :
      (target : RuntimeTarget) (env : Environment) (o : Option Text)
      → enabled env ≡ true
      → env.command_json ≡ o
      → (admit_text load evaluate target o).audit_color ≡ green
      → IsAdmitted target env
  unfolding admit_text halted audit audit_color_of text_eq
  text-green target env none on s g = cc
  text-green target env (some []) on s g = cc
  text-green target env (some (c ∷ raw)) on s g =
      command-green target env (c ∷ raw) (load (c ∷ raw)) on s refl g

  -- A green audit needs the switch, a command that decodes, the right platform, a dry-run target and
  -- a decision of the kit that allows new risk with no finding.
  pub green_needs_every_gate :
      (target : RuntimeTarget) (env : Environment) {a : Audit}
      → evaluate_paper_dry_run_admission load evaluate target env ≡ some a
      → a.audit_color ≡ green
      → IsAdmitted target env
  unfolding evaluate_paper_dry_run_admission halted audit audit_color_of text_eq
  green_needs_every_gate target env {a} e g =
      text-green target env env.command_json (ground arith) refl (ground arith)
