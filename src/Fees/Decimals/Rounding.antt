-- ===== src/Fees/Decimals/Rounding.antt =====
-- How far a rounded amount is from the exact one.

use firstrade_platform.Prelude.{ℕ, zero, suc, ◌+◌, ◌*◌, ◌^◌, ◌≤◌, ◌<◌, ◌≡◌, arith, pos, ◌*ℤ◌}
use firstrade_platform.Fees.Decimals.{
  decimal, cents, ceil_div, half_up_div, round_up_cent, round_half_up_cent,
}

-- Rounding up reaches the exact value and stays less than one unit above it.
ceil_div_bounds : (n p : ℕ) → 0 < p → (n ≤ ceil_div n p * p) × (ceil_div n p * p < n + p)
unfolding ceil_div
ceil_div_bounds n p h = grind arith

-- Rounding to the nearest is off by at most half a unit.
half_up_div_bounds :
    (n p : ℕ)
    → 0 < p
    → (2 * n ≤ 2 * (half_up_div n p * p) + p) × (2 * (half_up_div n p * p) ≤ 2 * n + p)
unfolding half_up_div
half_up_div_bounds n p h = grind arith

ten_pow_positive : (k : ℕ) → 0 < 10 ^ k
ten_pow_positive zero = omega arith
ten_pow_positive (suc k) = omega (arith, ten_pow_positive k)

hundredfold : (n : ℕ) → pos n *ℤ pos 100 ≡ pos (n * 100)
unfolding ◌*ℤ◌
hundredfold n = ground arith

-- An amount of n / 10^k that is not negative is rounded up to the least whole number of cents that
-- reaches it.
pub round_up_cent_bounds :
    (n k : ℕ)
    → let m = ceil_div (n * 100) (10 ^ k) in
      (round_up_cent (decimal n k) ≡ cents (pos m))
      × (n * 100 ≤ m * 10 ^ k)
      × (m * 10 ^ k < n * 100 + 10 ^ k)
unfolding round_up_cent
round_up_cent_bounds n k =
    let (reached, least) = ceil_div_bounds (n * 100) (10 ^ k) (ten_pow_positive k) in
    (rw (hundredfold n), reached, least)

-- An amount of n / 10^k that is not negative is rounded to whole cents with an error of at most half
-- a cent.
pub round_half_up_cent_bounds :
    (n k : ℕ)
    → let m = half_up_div (n * 100) (10 ^ k) in
      (round_half_up_cent (decimal n k) ≡ cents (pos m))
      × (2 * (n * 100) ≤ 2 * (m * 10 ^ k) + 10 ^ k)
      × (2 * (m * 10 ^ k) ≤ 2 * (n * 100) + 10 ^ k)
unfolding round_half_up_cent
round_half_up_cent_bounds n k =
    let (below, above) = half_up_div_bounds (n * 100) (10 ^ k) (ten_pow_positive k) in
    (rw (hundredfold n), below, above)
