-- ===== src/Execution/Submission/Rules.antt =====
-- A postcondition of a flow, one part for each way in which it ends, and its rules for loops and
-- sequences.
use firstrade_platform.Prelude.{List, [], ◌∷◌}
use firstrade_platform.Execution.Orders.{CycleResult}
use firstrade_platform.Execution.Submission.{Cycle, Flow, go, give, raise, after, each}

module _ {F : Type 0} where
  -- `Q` of a state that goes on, `R` of an early return, `X` of an exception
  abbrev pub Ensures :
      (Cycle F → Type 0) → (CycleResult F → Cycle F → Type 0) → (Cycle F → Type 0) → Flow F → Type 0
  Ensures Q R X (go s) = Q s
  Ensures Q R X (give r s) = R r s
  Ensures Q R X (raise s) = X s

  module _ (R : CycleResult F → Cycle F → Type 0) (X : Cycle F → Type 0) where
    pub Ensures-after :
        (P Q : Cycle F → Type 0) (m : Flow F) (k : Cycle F → Flow F)
        → Ensures P R X m
        → ((s : Cycle F) → P s → Ensures Q R X (k s))
        → Ensures Q R X (after m k)
    unfolding after
    Ensures-after P Q (go s) k h next = next s h
    Ensures-after P Q (give r s) k h next = h
    Ensures-after P Q (raise s) k h next = h

    pub Ensures-each {κ} :
        {A : Type κ} (P : Cycle F → Type 0) (f : A → Cycle F → Flow F)
        → ((x : A) (s : Cycle F) → P s → Ensures P R X (f x s))
        → (xs : List A) (s : Cycle F) → P s
        → Ensures P R X (each f xs s)
    unfolding each
    Ensures-each P f step [] s h = h
    Ensures-each P f step (x ∷ xs) s h =
        Ensures-after P P (f x s) (each f xs) (step x s h) (λ t ht. Ensures-each P f step xs t ht)
