-- ===== src/Broker/Payload/Printed.antt =====
-- The digits of an index: the fuel with which they are printed is enough.
use firstrade_platform.Prelude.{
  ℕ, zero, suc, ◌+◌, ◌-◌, ◌*◌, ◌/◌, ◌%◌, ◌<◌, ◌≡◌, ap, ◌∙◌, Bool-cases, inl, inr, [], ◌∷◌, Text,
  ltb, arith,
}
use firstrade_platform.Broker.Payload.{digits, str_ℕ}

-- the number that digits stand for, after those of `acc`
unfoldable pub value_from : ℕ → Text → ℕ
value_from acc [] = acc
value_from acc (c ∷ s) = value_from (acc * 10 + (c - 48)) s

digits-value :
    (fuel n : ℕ) (tail : Text) → n < fuel → value_from 0 (digits fuel n tail) ≡ value_from n tail
unfolding digits value_from
digits-value zero n tail h = ground arith
digits-value (suc fuel) n tail h = elim (Bool-cases (ltb n 10)) [
  | inl small ↦ rw small (ap (λ (k : ℕ). value_from k tail) (omega arith))
  | inr large ↦ rw large (
      digits-value fuel (n / 10) ((48 + n % 10) ∷ tail) (ground arith)
      ∙ ap (λ (k : ℕ). value_from k tail) (omega arith))
]

-- The text of a number stands for that number.
pub str-value : (n : ℕ) → value_from 0 (str_ℕ n) ≡ n
unfolding value_from
str-value n = digits-value (suc n) n [] (omega arith)
