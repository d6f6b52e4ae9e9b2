-- ===== src/Fees/Decimals.antt =====
-- Python's `Decimal` for finite values, exact: an integer over a power of ten. The context rounds at
-- 28 digits, which the amounts of a statement do not reach.
pub mod Rounding
use firstrade_platform.Prelude.{
  ℕ, suc, ◌+◌, ◌-◌, ◌*◌, ◌/◌, ◌%◌, ◌^◌, Bool, true, false, not, ◌&&◌, ◌||◌, ltb, leb, ◌==◌, ℤ, pos,
  negsuc, pos_part, neg_part, ◌+ℤ◌, ◌-ℤ◌, ◌*ℤ◌, ltb_ℤ, leb_ℤ, if◌then◌else◌, List, [], ◌∷◌,
}

-- coefficient / 10 ^ digits
pub record Decimal : Type 0 where
  pub coefficient : ℤ
  pub digits : ℕ

abbrev pub decimal : ℕ → ℕ → Decimal
decimal m k = record { coefficient = pos m; digits = k }

-- the coefficient over 10 ^ k, for k at least `digits`
unfoldable pub scaled : Decimal → ℕ → ℤ
scaled a k = a.coefficient *ℤ pos (10 ^ (k - a.digits))

abbrev pub common : Decimal → Decimal → ℕ
common a b = if leb a.digits b.digits then b.digits else a.digits

unfoldable pub add : Decimal → Decimal → Decimal
add a b = record {
  coefficient = scaled a (common a b) +ℤ scaled b (common a b);
  digits = common a b;
}

unfoldable pub sub : Decimal → Decimal → Decimal
sub a b = record {
  coefficient = scaled a (common a b) -ℤ scaled b (common a b);
  digits = common a b;
}

unfoldable pub mul : Decimal → Decimal → Decimal
mul a b = record { coefficient = a.coefficient *ℤ b.coefficient; digits = a.digits + b.digits }

-- division by a power of ten
unfoldable pub shift_down : Decimal → ℕ → Decimal
shift_down a k = record a { digits = a.digits + k }

unfoldable pub lt : Decimal → Decimal → Bool
lt a b = ltb_ℤ (scaled a (common a b)) (scaled b (common a b))

abbrev pub le : Decimal → Decimal → Bool
le a b = not (lt b a)

abbrev pub same : Decimal → Decimal → Bool
same a b = le a b && le b a

unfoldable pub dmin : Decimal → Decimal → Decimal
dmin a b = if lt b a then b else a

unfoldable pub dmax : Decimal → Decimal → Decimal
dmax a b = if lt a b then b else a

unfoldable pub magnitude : Decimal → Decimal
magnitude a =
    if ltb_ℤ a.coefficient (pos 0) then record a { coefficient = pos 0 -ℤ a.coefficient } else a

unfoldable pub total : List Decimal → Decimal
total [] = decimal 0 0
total (x ∷ xs) = add x (total xs)

abbrev pub cents : ℤ → Decimal
cents n = record { coefficient = n; digits = 2 }

-- n / p, rounded up; to the nearest with a tie up; to the nearest with a tie to even
unfoldable pub ceil_div : ℕ → ℕ → ℕ
ceil_div n p = (n + (p - 1)) / p

unfoldable pub half_up_div : ℕ → ℕ → ℕ
half_up_div n p = (2 * n + p) / (2 * p)

unfoldable pub half_even_div : ℕ → ℕ → ℕ
half_even_div n p =
    let q = n / p in
    let r = n % p in if ltb (2 * r) p then q else if ltb p (2 * r) then q + 1 else q + q % 2

-- rounding by magnitude keeps the sign
abbrev pub by_magnitude : (ℕ → ℕ → ℕ) → ℤ → ℕ → ℤ
by_magnitude f (pos n) p = pos (f n p)
by_magnitude f (negsuc n) p = pos 0 -ℤ pos (f (suc n) p)

-- `quantize(Decimal("0.01"), rounding=ROUND_CEILING)` of an amount that is not negative
unfoldable pub round_up_cent : Decimal → Decimal
round_up_cent a = cents (by_magnitude ceil_div (a.coefficient *ℤ pos 100) (10 ^ a.digits))

unfoldable pub round_half_up_cent : Decimal → Decimal
round_half_up_cent a = cents (by_magnitude half_up_div (a.coefficient *ℤ pos 100) (10 ^ a.digits))

unfoldable pub round_half_even_cent : Decimal → Decimal
round_half_even_cent a =
    cents (by_magnitude half_even_div (a.coefficient *ℤ pos 100) (10 ^ a.digits))
