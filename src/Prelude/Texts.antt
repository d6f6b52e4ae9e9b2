-- ===== src/Prelude/Texts.antt =====
-- Python's `str` over ASCII as the list of its codes, with the methods that the program calls.
use Prim.Native.Nat.{ℕ, ◌+◌, ◌-◌}
use Prim.Native.Char.{code}
use Prim.Native.String.{String}
use mathlib.Core.Path.{◌≡◌, refl, ap₂}
use mathlib.Core.Logic.{◌↔◌}
use mathlib.Core.Bool.{Bool, true, false, ◌&&◌, ◌||◌}
use mathlib.Core.List.{List, [], ◌∷◌, map, reverse}
use native.Mathlib.Omega.{arith}
use firstrade_platform.Prelude.Tests.{ltb, leb, ◌==◌, if◌then◌else◌}
use firstrade_platform.Prelude.Lists.{keep}

abbrev pub Text : Type 0
Text = List ℕ

-- a literal
abbrev pub codes : String → Text
codes String.[] = []
codes (String.◌∷◌ c s) = code c ∷ codes s

unfoldable pub text_eq : Text → Text → Bool
text_eq [] [] = true
text_eq (c ∷ s) (d ∷ t) = c == d && text_eq s t
text_eq _ _ = false

pub text_eq_refl : (s : Text) → text_eq s s ≡ true
unfolding text_eq
text_eq_refl [] = refl
text_eq_refl (c ∷ s) = ground (arith, text_eq_refl s)

pub text_eq_sound : (s t : Text) → text_eq s t ≡ true → s ≡ t
unfolding text_eq
text_eq_sound [] [] h = refl
text_eq_sound [] (d ∷ t) h = cc
text_eq_sound (c ∷ s) [] h = cc
text_eq_sound (c ∷ s) (d ∷ t) h = ground (arith, text_eq_sound s t)

pub text_eq_iff : (s t : Text) → (text_eq s t ≡ true) ↔ (s ≡ t)
text_eq_iff s t = (text_eq_sound s t, λ e. rw e (text_eq_refl t))

-- the order by which `sorted` compares texts: by code, a proper prefix first
unfoldable pub text_lt : Text → Text → Bool
text_lt [] [] = false
text_lt [] (d ∷ t) = true
text_lt (c ∷ s) [] = false
text_lt (c ∷ s) (d ∷ t) = let rest = text_lt s t in if c == d then rest else ltb c d

-- `sorted(set(xs))`
unfoldable pub insert_sorted : Text → List Text → List Text
insert_sorted x [] = x ∷ []
insert_sorted x (y ∷ ys) =
    let rest = y ∷ insert_sorted x ys in
    if text_eq x y then y ∷ ys else if text_lt x y then x ∷ y ∷ ys else rest

unfoldable pub sorted_set : List Text → List Text
sorted_set [] = []
sorted_set (x ∷ xs) = insert_sorted x (sorted_set xs)

abbrev pub is_lower : ℕ → Bool
is_lower c = leb b'a' c && leb c b'z'

abbrev pub is_upper : ℕ → Bool
is_upper c = leb b'A' c && leb c b'Z'

abbrev pub is_digit : ℕ → Bool
is_digit c = leb b'0' c && leb c b'9'

-- `str.isalnum` of one character
unfoldable pub is_alnum : ℕ → Bool
is_alnum c = is_lower c || is_upper c || is_digit c

unfoldable pub to_upper : ℕ → ℕ
to_upper c = if is_lower c then c - 32 else c

unfoldable pub to_lower : ℕ → ℕ
to_lower c = if is_upper c then c + 32 else c

unfoldable pub upper : Text → Text
unfolding to_upper
upper = map to_upper

unfoldable pub lower : Text → Text
unfolding to_lower
lower = map to_lower

-- the ASCII characters that `str.strip` removes
unfoldable pub is_space : ℕ → Bool
is_space c = c == 32 || (leb 9 c && leb c 13) || (leb 28 c && leb c 31)

unfoldable pub lstrip : Text → Text
unfolding is_space
lstrip [] = []
lstrip (c ∷ s) = let rest = lstrip s in if is_space c then rest else c ∷ s

unfoldable pub strip : Text → Text
unfolding lstrip
strip s = reverse (lstrip (reverse (lstrip s)))

-- `"".join(ch for ch in s if ch.isalnum())`
unfoldable pub only_alnum : Text → Text
unfolding is_alnum
only_alnum = keep is_alnum

-- `text in (…)` for a set of texts
unfoldable pub one_of : Text → List Text → Bool
unfolding text_eq
one_of s [] = false
one_of s (t ∷ ts) = text_eq s t || one_of s ts

unfoldable pub starts_with : Text → Text → Bool
starts_with s [] = true
starts_with [] (c ∷ p) = false
starts_with (d ∷ s) (c ∷ p) = d == c && starts_with s p

-- `p in s`
unfoldable pub is_substring : Text → Text → Bool
unfolding starts_with
is_substring p [] = starts_with [] p
is_substring p (c ∷ s) = starts_with (c ∷ s) p || is_substring p s

-- `str(symbol or "").strip().upper()`
unfoldable pub symbol_key : Text → Text
unfolding strip upper
symbol_key s = upper (strip s)

pub to_upper_idem : (c : ℕ) → to_upper (to_upper c) ≡ to_upper c
unfolding to_upper
to_upper_idem c = ground arith

pub upper_idem : (s : Text) → upper (upper s) ≡ upper s
unfolding upper
upper_idem [] = refl
upper_idem (c ∷ s) = ap₂ ◌∷◌ (to_upper_idem c) (upper_idem s)

text_methods : symbol_key (codes " soxx ") ≡ codes "SOXX"
unfolding symbol_key
text_methods = refl
