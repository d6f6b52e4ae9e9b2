-- ===== src/Prelude/Floats.antt =====
-- Python's `float`. There are no floats here, so the type and its operations are an interface, and
-- the theorems that need an order state its laws as a hypothesis. The values are the finite ones:
-- NaN and the infinities are outside of the model.
use Prim.Native.Nat.{ℕ, ◌*◌, ◌/◌, ◌^◌, ◌+◌}
use mathlib.Core.Path.{◌≡◌}
use mathlib.Core.Bool.{Bool, true, false, not, ◌&&◌}
use mathlib.Core.Option.{Option, none, some}
use mathlib.Core.List.{List, [], ◌∷◌}
use native.Mathlib.Omega.{arith}
use firstrade_platform.Prelude.Tests.{if◌then◌else◌}
use firstrade_platform.Prelude.Ints.{ℤ, pos, negsuc, ◌+ℤ◌, ◌-ℤ◌, ltb_ℤ}

pub record Float {ℓ} (F : Type ℓ) : Type ℓ where
  pub nought : F
  -- the literal that is written m / 10 ^ k
  pub decimal : ℕ → ℕ → F
  pub of_ℕ : ℕ → F
  -- `max(0, int(x))`
  pub whole : F → ℕ
  -- `round(x, digits)`
  pub round : F → ℕ → F
  pub lt : F → F → Bool
  pub plus : F → F → F
  pub minus : F → F → F
  pub times : F → F → F
  pub over : F → F → F

-- What finite floats promise of `<`: a strict total order.
pub record IsOrdered {ℓ} (F : Type ℓ) ⦃d : Float F⦄ : Type ℓ where
  pub lt_irrefl : (a : F) → d.lt a a ≡ false
  pub lt_trans : (a b c : F) → d.lt a b ≡ true → d.lt b c ≡ true → d.lt a c ≡ true
  pub le_trans : (a b c : F) → d.lt b a ≡ false → d.lt c b ≡ false → d.lt c a ≡ false

module _ {ℓ} {F : Type ℓ} ⦃d : Float F⦄ where
  open d use {nought, lt, plus, minus}

  abbrev pub flt : F → F → Bool
  flt = lt

  abbrev pub fle : F → F → Bool
  fle a b = not (lt b a)

  abbrev pub is_nought : F → Bool
  is_nought a = fle a nought && fle nought a

  -- `min(a, b)`, `max(a, b)` and `abs(a)` as Python computes them
  unfoldable pub fmin : F → F → F
  fmin a b = if lt b a then b else a

  unfoldable pub fmax : F → F → F
  fmax a b = if lt a b then b else a

  unfoldable pub fabs : F → F
  fabs a = if lt a nought then minus nought a else a

  -- `o or d` on a number that may be missing: zero is falsy too
  unfoldable pub or_num : Option F → F → F
  or_num none e = e
  or_num (some v) e = if is_nought v then e else v

  unfoldable pub fsum : List F → F
  fsum [] = nought
  fsum (x ∷ xs) = plus x (fsum xs)

  module _ (o : IsOrdered F) where
    pub fmin-le_left : (a b : F) → fle (fmin a b) a ≡ true
    unfolding fmin
    fmin-le_left a b = ground (arith, o.lt_irrefl a, o.lt_trans a b a)

    pub fmin-le_right : (a b : F) → fle (fmin a b) b ≡ true
    unfolding fmin
    fmin-le_right a b = ground (arith, o.lt_irrefl b)

    pub le-fmax_left : (a b : F) → fle a (fmax a b) ≡ true
    unfolding fmax
    le-fmax_left a b = ground (arith, o.lt_irrefl a, o.lt_trans a b a)

    pub le-fmin : (a b c : F) → fle c a ≡ true → fle c b ≡ true → fle c (fmin a b) ≡ true
    unfolding fmin
    le-fmin a b c p q = ground arith

    pub le-fmax_right : (a b : F) → fle b (fmax a b) ≡ true
    unfolding fmax
    le-fmax_right a b = ground (arith, o.lt_irrefl b)

    pub fle_trans : (a b c : F) → fle a b ≡ true → fle b c ≡ true → fle a c ≡ true
    fle_trans a b c p q = ground (arith, o.le_trans a b c)

-- Whole cents stand for floats in the tests and the witnesses.
abbrev pub Cents : Type 0
Cents = ℤ

abbrev cents_parts : (ℕ → ℕ → ℕ) → ℤ → ℤ → ℤ
cents_parts f (pos a) (pos b) = pos (f a b)
cents_parts f (pos a) (negsuc b) = pos 0 -ℤ pos (f a (b + 1))
cents_parts f (negsuc a) (pos b) = pos 0 -ℤ pos (f (a + 1) b)
cents_parts f (negsuc a) (negsuc b) = pos (f (a + 1) (b + 1))

abbrev cents_whole : ℤ → ℕ
cents_whole (pos a) = a / 100
cents_whole (negsuc _) = 0

instance abbrev pub cents_float : Float ℤ
cents_float = record {
  nought = pos 0;
  decimal = λ m k. pos (m * 100 / 10 ^ k);
  of_ℕ = λ n. pos (n * 100);
  whole = cents_whole;
  round = λ x k. x;
  lt = ltb_ℤ;
  plus = ◌+ℤ◌;
  minus = ◌-ℤ◌;
  times = cents_parts (λ a b. a * b / 100);
  over = cents_parts (λ a b. a * 100 / b);
}

pub Cents-IsOrdered : IsOrdered ℤ
Cents-IsOrdered = record {
  lt_irrefl = λ a. ground arith;
  lt_trans = λ a b c p q. ground arith;
  le_trans = λ a b c p q. ground arith;
}
