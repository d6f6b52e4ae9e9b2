-- ===== src/Execution/Cycle/Phases.antt =====
-- A rule for the whole cycle: what a predicate on the submitted orders and the events has to survive.
use firstrade_platform.Prelude.{
  ◌≡◌, refl, List, [], ◌∷◌, Text, Float, arith, ltb, Bool-cases, inl, inr, get_or, flt,
}
use firstrade_platform.Execution.Plan.{Config}
use firstrade_platform.Execution.Sizing.{
  apply_notional_cash_buffer, min_notional_buy_usd, planned_buy_order_quantity,
}
use firstrade_platform.Execution.Orders.{
  Side, Intent, Order, Skip, CycleResult, pending_sell_release, negative_cash,
}
use firstrade_platform.Execution.Submission.{
  Event, Delta, Cycle, Ports, attempt, submit_order_intent, submit_notional_buy_intent,
}
use firstrade_platform.Execution.Submission.Rules.{Ensures, Ensures-after, Ensures-each}
use firstrade_platform.Execution.Submission.Claims.{KeepsEvents}
use firstrade_platform.Execution.Submission.Unknown.{KeepsSubmitted}
use firstrade_platform.Execution.Cycle.{
  Facts, initial, classify, classify_all, traded_symbols, sell_quantity, sell_step, negative_deltas,
  positive_deltas, sell_phase, release_cash, skip_all, guard_buys, notional_buy_step,
  share_buy_step, buy_step, buy_phase, finish, run_cycle, buy_budget_of, buy_request,
}

module _ {F : Type 0} where
  -- bookkeeping that touches neither the submitted orders nor the events
  pub record IsQuiet (g : Cycle F → Cycle F) : Type 0 where
    pub submitted : KeepsSubmitted g
    pub events : KeepsEvents g

module _ {F : Type 0} ⦃d : Float F⦄ where
  open d use {nought, round}

  classify-IsQuiet : (p : Ports F) (f : Facts F) (x : Text) → IsQuiet (classify p f x)
  unfolding classify
  classify-IsQuiet p f x = record { submitted = λ s. ground arith; events = λ s. ground arith }

  skip_all-submitted :
      (skip : Text → Skip F) (xs : List (Delta F)) (s : Cycle F)
      → ((skip_all skip xs s).submitted ≡ s.submitted) × ((skip_all skip xs s).events ≡ s.events)
  unfolding skip_all
  skip_all-submitted skip [] s = (refl, refl)
  skip_all-submitted skip (x ∷ xs) s = skip_all-submitted skip xs (record s { skipped = _ })

  guard_buys-quiet :
      (cfg : Config F) (f : Facts F) (buys : List (Delta F)) (s : Cycle F)
      → ((guard_buys cfg f buys s).1.submitted ≡ s.submitted)
        × ((guard_buys cfg f buys s).1.events ≡ s.events)
  unfolding guard_buys
  guard_buys-quiet cfg f buys s = ground (
    arith,
    skip_all-submitted (λ symbol. pending_sell_release symbol s.pending_sell_release_symbols) buys
        s,
    skip_all-submitted (λ symbol. negative_cash symbol (round f.raw_liquid_cash 2)) buys s,
  )

  module _ (cfg : Config F) (p : Ports F) (f : Facts F)
      (Q : List (Order F) → List (Event F) → Type 0) (R : CycleResult F → Cycle F → Type 0)
      (X : Cycle F → Type 0) (K : Side → Type 0)
      (attempts : (on_sent : Cycle F → Cycle F) (on_accepted : Order F → Cycle F → Cycle F)
        → IsQuiet on_sent
        → ((order : Order F) → IsQuiet (on_accepted order))
        → (symbol : Text) (i : Intent F) (s : Cycle F) → K i.side
        → Q s.submitted s.events
        → Ensures
            (λ t. Q t.submitted t.events)
            R
            X
            (attempt cfg p f.notes on_sent on_accepted symbol i s)) where
    abbrev Holds : Cycle F → Type 0
    Holds s = Q s.submitted s.events

    pub classify_all-Holds :
        (xs : List Text) (s : Cycle F) → Holds s → Holds (classify_all p f xs s)
    unfolding classify_all
    classify_all-Holds [] s h = h
    classify_all-Holds (x ∷ xs) s h =
        let q = classify-IsQuiet p f x in
        classify_all-Holds xs (classify p f x s) (rw (q.submitted, q.events) h)

    sell_step-Ensures :
        K Side.sell
        → (x : Delta F) (s : Cycle F) → Holds s
        → Ensures Holds R X (sell_step cfg p f x s)
    unfolding sell_step submit_order_intent
    sell_step-Ensures k x s h = elim (Bool-cases (ltb 0 (sell_quantity f x))) [
      | inl some_shares ↦ rw some_shares (
          attempts _ _ (record { submitted = λ t. refl; events = λ t. refl })
            (λ order. record { submitted = λ t. refl; events = λ t. refl }) x.symbol _ s k h)
      | inr nothing ↦ rw nothing h
    ]

    notional_buy_step-Ensures :
        K Side.buy
        → (x : Delta F) (s : Cycle F) → Holds s
        → Ensures Holds R X (notional_buy_step cfg p f x s)
    unfolding notional_buy_step submit_notional_buy_intent
    notional_buy_step-Ensures k x s h =
        let budget =
          apply_notional_cash_buffer (buy_budget_of f x s.investable_cash) s.investable_cash in
        elim (Bool-cases (flt budget min_notional_buy_usd)) [
          | inl too_small ↦ rw too_small h
          | inr enough ↦ rw enough (
              attempts _ _ (record { submitted = λ t. refl; events = λ t. refl })
                (λ order. record { submitted = λ t. refl; events = λ t. refl }) x.symbol _ s k h)
        ]

    share_buy_step-Ensures :
        K Side.buy
        → (x : Delta F) (s : Cycle F) → Holds s
        → Ensures Holds R X (share_buy_step cfg p f x s)
    unfolding share_buy_step submit_order_intent
    share_buy_step-Ensures k x s h =
        let target = get_or f.targets x.symbol nought in
        let request = buy_request cfg f x target s.investable_cash s.sell_submitted in
        elim (Bool-cases (ltb 0 (planned_buy_order_quantity request))) [
          | inl some_shares ↦ rw some_shares (
              attempts _ _ (record { submitted = λ t. refl; events = λ t. refl })
                (λ order. record { submitted = λ t. refl; events = λ t. refl }) x.symbol _ s k h)
          | inr nothing ↦ rw nothing h
        ]

    buy_step-Ensures :
        K Side.buy
        → (x : Delta F) (s : Cycle F) → Holds s
        → Ensures Holds R X (buy_step cfg p f x s)
    unfolding buy_step
    buy_step-Ensures k x s h = elim (Bool-cases cfg.notional_buy_execution) [
      | inl notional ↦ simp notional (notional_buy_step-Ensures k x s h)
      | inr whole_shares ↦ simp whole_shares (share_buy_step-Ensures k x s h)
    ]

    pub buy_phase-Ensures :
        K Side.buy → (s : Cycle F) → Holds s → Ensures Holds R X (buy_phase cfg p f s)
    unfolding buy_phase
    buy_phase-Ensures k s h =
        let buys = positive_deltas s.tradable_deltas in
        let quiet = guard_buys-quiet cfg f buys s in
        let (left, guarded) = guard_buys cfg f buys s in
        Ensures-each R X Holds (buy_step cfg p f) (buy_step-Ensures k) left guarded
          (rw (quiet.0, quiet.1) h)

    pub sell_phase-Ensures :
        K Side.sell → (s : Cycle F) → Holds s → Ensures Holds R X (sell_phase cfg p f s)
    unfolding sell_phase
    sell_phase-Ensures k s h =
        Ensures-each R X Holds (sell_step cfg p f) (sell_step-Ensures k)
          (negative_deltas s.tradable_deltas) s h

    -- What holds at the start, and what every attempt keeps, holds wherever the cycle ends; what it
    -- returns at its end is only asked to be right where the predicate holds.
    pub run_cycle-Ensures :
        ((side : Side) → K side)
        → Q [] []
        → ((s : Cycle F) → Holds s → R (finish p f s) s)
        → Ensures (λ s. ⊥) R X (run_cycle cfg p f)
    unfolding run_cycle initial release_cash
    run_cycle-Ensures both start end =
        let classified = classify_all p f (traded_symbols f) (initial f) in
        Ensures-after R X Holds (λ s. ⊥) (sell_phase cfg p f classified) _
          (sell_phase-Ensures (both Side.sell) classified
            (classify_all-Holds (traded_symbols f) (initial f) start))
          (λ sold held.
            Ensures-after R X Holds (λ s. ⊥) (buy_phase cfg p f (release_cash p f sold)) _
              (buy_phase-Ensures (both Side.buy) (release_cash p f sold) held) (λ s hs. end s hs))
