-- ===== src/Execution/Submission/Keeps.antt =====
-- A predicate of traces that an attempt keeps, where the answers of the claim callback and the
-- request keep it.
use firstrade_platform.Prelude.{
  ◌≡◌, refl, Bool, true, false, Option, none, some, List, ◌∷◌, Text, Float,
}
use firstrade_platform.Execution.Plan.{Note, Config}
use firstrade_platform.Execution.Orders.{Intent, Order}
use firstrade_platform.Execution.Submission.{
  Event, claimed, sent, Cycle, Flow, go, give, raise, Ports, Permission, granted, denied,
  unconfigured, answer, ask_claim, may_submit_live_order, submission_claim_unavailable, place,
  proceed, attempt,
}
use firstrade_platform.Execution.Submission.Rules.{Ensures}
use firstrade_platform.Execution.Submission.Claims.{KeepsEvents, place-events}

module _ {F : Type 0} (p : Ports F) where
  -- a permission adds an answer of the claim at most
  abbrev KeepsPermission : (List (Event F) → Type 0) → Permission F → Type 0
  KeepsPermission P (granted events) = P events
  KeepsPermission P (denied events) = P events
  KeepsPermission P unconfigured = Unit

  -- the end of a flow whose predicate implies another one
  loosen :
      (P Q : List (Event F) → Type 0) (m : Flow F)
      → ((e : List (Event F)) → P e → Q e)
      → Ensures
          (λ t. P t.events)
          (λ r t. P t.events × (r.idempotency_blocked ≡ false))
          (λ t. P t.events)
          m
      → Ensures (λ t. P t.events) (λ r t. Q t.events) (λ t. Q t.events) m
  loosen P Q (go s) f h = h
  loosen P Q (give r s) f h = f s.events h.0
  loosen P Q (raise s) f h = f s.events h

  -- A predicate `P` of traces that the callback's own answers keep, and a weaker `Q` for the ends.
  module _ (P Q : List (Event F) → Type 0) (weaker : (e : List (Event F)) → P e → Q e)
      (claims : (b : Bool) (e : List (Event F)) (ask : List (Event F) → Option Bool)
        → p.before_live_submission ≡ some ask
        → ask e ≡ some b
        → P e
        → P (claimed b ∷ e)) where
    answer-Keeps :
        (a : Option Bool) (e : List (Event F)) (ask : List (Event F) → Option Bool)
        → p.before_live_submission ≡ some ask
        → ask e ≡ a
        → P e
        → KeepsPermission P (answer a e)
    unfolding answer
    answer-Keeps none e ask k h he = tt
    answer-Keeps (some true) e ask k h he = claims true e ask k h he
    answer-Keeps (some false) e ask k h he = claims false e ask k h he

    ask-Keeps :
        (o : Option (List (Event F) → Option Bool)) (e : List (Event F))
        → p.before_live_submission ≡ o
        → P e
        → KeepsPermission P (ask_claim o e)
    unfolding ask_claim
    ask-Keeps none e k h = tt
    ask-Keeps (some ask) e k h = answer-Keeps (ask e) e ask k refl h

    permission-Keeps :
        (dry : Bool) (e : List (Event F)) → P e → KeepsPermission P (may_submit_live_order dry p e)
    unfolding may_submit_live_order
    permission-Keeps true e h = h
    permission-Keeps false e h = ask-Keeps p.before_live_submission e refl h

    module _ ⦃d : Float F⦄ (cfg : Config F) (notes : List Note) (on_sent : Cycle F → Cycle F)
        (on_accepted : Order F → Cycle F → Cycle F) (sent_keeps : KeepsEvents on_sent)
        (accepted_keeps : (order : Order F) → KeepsEvents (on_accepted order)) where
      proceed-Keeps :
          (symbol : Text) (i : Intent F) (s : Cycle F) (m : Permission F)
          → ((e : List (Event F)) → P e → P (sent i ∷ e))
          → P s.events
          → KeepsPermission P m
          → Ensures
              (λ t. P t.events)
              (λ r t. Q t.events)
              (λ t. Q t.events)
              (proceed p notes on_sent on_accepted symbol i s m)
      unfolding proceed submission_claim_unavailable
      proceed-Keeps symbol i s unconfigured sends h k = weaker s.events h
      proceed-Keeps symbol i s (denied events) sends h k = weaker events k
      proceed-Keeps symbol i s (granted events) sends h k =
          let t = record s { events = events } in
          loosen P Q (place p notes on_sent on_accepted i t) weaker (
            place-events notes on_sent on_accepted sent_keeps accepted_keeps P p i t
              (sends events k))

      pub attempt-Keeps :
          (symbol : Text) (i : Intent F) (s : Cycle F)
          → ((e : List (Event F)) → P e → P (sent i ∷ e))
          → P s.events
          → Ensures
              (λ t. P t.events)
              (λ r t. Q t.events)
              (λ t. Q t.events)
              (attempt cfg p notes on_sent on_accepted symbol i s)
      unfolding attempt
      attempt-Keeps symbol i s sends h =
          proceed-Keeps symbol i s (may_submit_live_order cfg.dry_run_only p s.events) sends h
            (permission-Keeps cfg.dry_run_only s.events h)
