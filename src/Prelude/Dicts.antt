-- ===== src/Prelude/Dicts.antt =====
-- Python's `dict` with text keys: an association list in the order of insertion.
use mathlib.Core.Path.{◌≡◌, refl}
use mathlib.Core.Bool.{Bool, false, ◌||◌}
use mathlib.Core.Option.{Option, none, some}
use mathlib.Core.List.{List, [], ◌∷◌}
use native.Mathlib.Omega.{arith}
use firstrade_platform.Prelude.Tests.{if◌then◌else◌, or_default}
use firstrade_platform.Prelude.Texts.{Text, text_eq, text_eq_iff, one_of}

abbrev pub Dict {ℓ} : Type ℓ → Type ℓ
Dict V = List (Text × V)

module _ {ℓ} {V : Type ℓ} where
  -- `d.get(k)`
  unfoldable pub get : Dict V → Text → Option V
  unfolding text_eq
  get [] k = none
  get ((j, v) ∷ d) k = if text_eq j k then some v else get d k

  -- `d[k] = v`
  unfoldable pub put : Dict V → Text → V → Dict V
  unfolding text_eq
  put [] k v = (k, v) ∷ []
  put ((j, w) ∷ d) k v = if text_eq j k then (j, v) ∷ d else (j, w) ∷ put d k v

  unfoldable pub keys : Dict V → List Text
  keys [] = []
  keys ((k, _) ∷ d) = k ∷ keys d

  unfoldable pub values : Dict V → List V
  values [] = []
  values ((_, v) ∷ d) = v ∷ values d

  -- `d.get(k, default)`
  abbrev pub get_or : Dict V → Text → V → V
  get_or d k v = or_default (get d k) v

  -- `k in d`
  unfoldable pub has_key : Dict V → Text → Bool
  unfolding text_eq
  has_key [] k = false
  has_key ((j, _) ∷ d) k = text_eq j k || has_key d k

  pub get-put :
      (d : Dict V) (k j : Text) (v : V)
      → get (put d k v) j ≡ (if text_eq k j then some v else get d j)
  unfolding get put
  get-put [] k j v = refl
  get-put ((i, w) ∷ d) k j v =
      ground (arith, text_eq_iff k j, text_eq_iff i k, text_eq_iff i j, get-put d k j v)

-- `{f(k): v for k, v in d.items()}`: a later key that becomes the same wins.
module _ {ℓ} {V : Type ℓ} (f : Text → Text) where
  unfoldable pub rekey_onto : Dict V → Dict V → Dict V
  unfolding put
  rekey_onto acc [] = acc
  rekey_onto acc ((k, v) ∷ d) = rekey_onto (put acc (f k) v) d

  unfoldable pub rekey : Dict V → Dict V
  unfolding rekey_onto
  rekey d = rekey_onto [] d

-- `tuple(dict.fromkeys(xs))`: the first occurrence of each text, in order.
unfoldable pub unique_from : List Text → List Text → List Text
unfolding one_of
unique_from seen [] = []
unique_from seen (x ∷ xs) =
    let rest = unique_from (x ∷ seen) xs in
    let same = unique_from seen xs in if one_of x seen then same else x ∷ rest

unfoldable pub unique : List Text → List Text
unfolding unique_from
unique = unique_from []
