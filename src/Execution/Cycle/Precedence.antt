-- ===== src/Execution/Cycle/Precedence.antt =====
-- In which order a cycle sells and buys.
use firstrade_platform.Prelude.{◌≡◌, refl, sym, ◌∙◌, List, [], ◌∷◌, Float}
use firstrade_platform.Execution.Plan.{Plan, Config}
use firstrade_platform.Execution.Orders.{Side, CycleResult}
use firstrade_platform.Execution.Submission.{
  Event, claimed, sent, Cycle, state_of, Flow, go, give, raise, Ports,
}
use firstrade_platform.Execution.Submission.Rules.{Ensures, Ensures-after}
use firstrade_platform.Execution.Submission.Keeps.{attempt-Keeps}
use firstrade_platform.Execution.Cycle.{
  Facts, facts_of, initial, classify_all, traded_symbols, sell_phase, release_cash, buy_phase,
  run_cycle, execute_value_target_plan,
}
use firstrade_platform.Execution.Cycle.Phases.{
  classify_all-Holds, sell_phase-Ensures, buy_phase-Ensures,
}

sell-ne-buy : Side.sell ≡ Side.buy → ⊥
sell-ne-buy e = cc

module _ {F : Type 0} where
  -- no request of the trace is a buy
  abbrev pub NoBuy : List (Event F) → Type 0
  NoBuy [] = Unit
  NoBuy (claimed b ∷ r) = NoBuy r
  NoBuy (sent i ∷ r) = (i.side ≡ Side.sell) × NoBuy r

  -- Before each sell of the trace, which has the latest event first, there is no buy.
  abbrev pub SellsFirst : List (Event F) → Type 0
  SellsFirst [] = Unit
  SellsFirst (claimed b ∷ r) = SellsFirst r
  SellsFirst (sent i ∷ r) = (i.side ≡ Side.sell → NoBuy r) × SellsFirst r

  NoBuy-SellsFirst : (events : List (Event F)) → NoBuy events → SellsFirst events
  NoBuy-SellsFirst [] h = tt
  NoBuy-SellsFirst (claimed b ∷ r) h = NoBuy-SellsFirst r h
  NoBuy-SellsFirst (sent i ∷ r) h = (λ e. h.1, NoBuy-SellsFirst r h.1)

module _ {F : Type 0} ⦃d : Float F⦄ (cfg : Config F) (p : Ports F) where
  sell_phase-NoBuy :
      (f : Facts F) (s : Cycle F)
      → NoBuy s.events
      → Ensures
          (λ t. NoBuy t.events)
          (λ r t. SellsFirst t.events)
          (λ t. SellsFirst t.events)
          (sell_phase cfg p f s)
  sell_phase-NoBuy f s h =
      sell_phase-Ensures cfg p f (λ orders events. NoBuy events) (λ r t. SellsFirst t.events)
        (λ t. SellsFirst t.events) (λ side. side ≡ Side.sell)
        (λ on_sent on_accepted q r symbol i t k ht.
          attempt-Keeps p NoBuy SellsFirst NoBuy-SellsFirst (λ b e ask k a he. he) cfg f.notes
            on_sent on_accepted q.events (λ o. (r o).events) symbol i t (λ e he. (k, he)) ht)
        refl s h

  buy_phase-SellsFirst :
      (f : Facts F) (s : Cycle F)
      → SellsFirst s.events
      → Ensures
          (λ t. SellsFirst t.events)
          (λ r t. SellsFirst t.events)
          (λ t. SellsFirst t.events)
          (buy_phase cfg p f s)
  buy_phase-SellsFirst f s h =
      buy_phase-Ensures cfg p f (λ orders events. SellsFirst events) (λ r t. SellsFirst t.events)
        (λ t. SellsFirst t.events) (λ side. side ≡ Side.buy)
        (λ on_sent on_accepted q r symbol i t k ht.
          attempt-Keeps p SellsFirst SellsFirst (λ e he. he) (λ b e ask k a he. he) cfg f.notes
            on_sent on_accepted q.events (λ o. (r o).events) symbol i t
            (λ e he. (λ x. absurd (sell-ne-buy (sym x ∙ k)), he)) ht)
        refl s h

  flow-SellsFirst :
      (m : Flow F)
      → Ensures (λ t. ⊥) (λ r t. SellsFirst t.events) (λ t. SellsFirst t.events) m
      → SellsFirst (state_of m).events
  unfolding state_of
  flow-SellsFirst (go s) h = absurd h
  flow-SellsFirst (give r s) h = h
  flow-SellsFirst (raise s) h = h

  classified-NoBuy : (f : Facts F) → NoBuy (classify_all p f (traded_symbols f) (initial f)).events
  unfolding initial
  classified-NoBuy f =
      classify_all-Holds cfg p f (λ orders events. NoBuy events) (λ r t. SellsFirst t.events)
        (λ t. SellsFirst t.events) (λ side. ⊥) (λ on_sent on_accepted q r symbol i t k ht. absurd k)
        (traded_symbols f) (initial f) tt

  run_cycle-SellsFirst :
      (f : Facts F)
      → Ensures (λ t. ⊥) (λ r t. SellsFirst t.events) (λ t. SellsFirst t.events) (run_cycle cfg p f)
  unfolding run_cycle release_cash
  run_cycle-SellsFirst f =
      let R : CycleResult F → Cycle F → Type 0 = λ r t. SellsFirst t.events in
      let X : Cycle F → Type 0 = λ t. SellsFirst t.events in
      let classified = classify_all p f (traded_symbols f) (initial f) in
      Ensures-after R X (λ t. NoBuy t.events) (λ t. ⊥) (sell_phase cfg p f classified) _
        (sell_phase-NoBuy f classified (classified-NoBuy f))
        (λ sold held.
          Ensures-after R X X (λ t. ⊥) (buy_phase cfg p f (release_cash p f sold)) _
            (buy_phase-SellsFirst f (release_cash p f sold) (NoBuy-SellsFirst sold.events held))
            (λ s hs. hs))

  -- In every cycle, however it ends, no sell request reaches the broker after a buy request.
  pub sells_precede_buys :
      (plan : Plan F) → SellsFirst (state_of (execute_value_target_plan cfg p plan)).events
  unfolding execute_value_target_plan
  sells_precede_buys plan =
      flow-SellsFirst (run_cycle cfg p (facts_of cfg p plan))
        (run_cycle-SellsFirst (facts_of cfg p plan))
