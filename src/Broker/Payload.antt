-- ===== src/Broker/Payload.antt =====
-- application/account_payload_utils.py: JSON payloads of the broker, and the flat view of one.
pub mod Printed
use firstrade_platform.Prelude.{
  ℕ, zero, suc, ◌+◌, ◌/◌, ◌%◌, Bool, true, false, not, ◌&&◌, Option, none, some, [], ◌∷◌, ◌++◌,
  Text, codes, Dict, put, strip, starts_with, is_empty, keep, ltb, ◌==◌, ℤ, Float, if◌then◌else◌,
}

-- A value that JSON can hold. A number is given by its `str`, its truth and its `int`.
mutual
  pub data Json : Type 0 where
    null : Json
    flag : Bool → Json
    text : Text → Json
    number : Text → Bool → Option ℤ → Json
    mapping : Members → Json
    listing : Items → Json

  pub data Members : Type 0 where
    no_member : Members
    member : Text → Json → Members → Members

  pub data Items : Type 0 where
    no_item : Items
    item : Json → Items → Items

-- Python's own conversions: `float(text)`, `int(text)`, and `str` of a list or a dictionary.
pub record Reading (F : Type 0) : Type 0 where
  pub parse_float : Text → Option F
  pub parse_int : Text → Option ℤ
  pub repr : Json → Text

-- `str(n)` of a natural number; n digits are enough
unfoldable pub digits : ℕ → ℕ → Text → Text
digits zero n tail = tail
digits (suc fuel) n tail =
    let rest = digits fuel (n / 10) ((48 + n % 10) ∷ tail) in
    if ltb n 10 then (48 + n) ∷ tail else rest

abbrev pub str_ℕ : ℕ → Text
str_ℕ n = digits (suc n) n []

-- `d.update(e)`
unfoldable pub update {ℓ} : {V : Type ℓ} → Dict V → Dict V → Dict V
update d [] = d
update d ((k, v) ∷ e) = update (put d k v) e

abbrev pub child_key : Text → Text → Text
child_key prefix key = if is_empty prefix then key else prefix ++ b'.' ∷ key

unfoldable mutual
  pub flatten_values : Json → Text → Dict Json
  flatten_values null prefix = (prefix, null) ∷ []
  flatten_values (flag b) prefix = (prefix, flag b) ∷ []
  flatten_values (text t) prefix = (prefix, text t) ∷ []
  flatten_values (number s b n) prefix = (prefix, number s b n) ∷ []
  flatten_values (mapping ms) prefix = flatten_members ms prefix []
  flatten_values (listing xs) prefix = flatten_items xs 0 prefix []

  pub flatten_members : Members → Text → Dict Json → Dict Json
  flatten_members no_member prefix values = values
  flatten_members (member key v ms) prefix values =
      flatten_members ms prefix (update values (flatten_values v (child_key prefix key)))

  pub flatten_items : Items → ℕ → Text → Dict Json → Dict Json
  flatten_items no_item index prefix values = values
  flatten_items (item v xs) index prefix values =
      flatten_items xs (suc index) prefix
        (update values (flatten_values v (prefix ++ b'.' ∷ str_ℕ index)))

abbrev pub flat : Json → Dict Json
flat payload = flatten_values payload []

-- `s.endswith(")")`
unfoldable pub ends_with_bracket : Text → Bool
ends_with_bracket [] = false
ends_with_bracket (c ∷ []) = c == b')'
ends_with_bracket (c ∷ d ∷ s) = ends_with_bracket (d ∷ s)

-- `s[1:-1]`
unfoldable pub drop_last : Text → Text
drop_last [] = []
drop_last (c ∷ []) = []
drop_last (c ∷ d ∷ s) = c ∷ drop_last (d ∷ s)

abbrev pub drop_first : Text → Text
drop_first [] = []
drop_first (c ∷ s) = s

abbrev pub is_comma : ℕ → Bool
is_comma c = c == b','

unfoldable pub without_dollar : Text → Text
without_dollar s = if starts_with s (codes "$") then strip (drop_first s) else s

abbrev pub negated : {F : Type 0} ⦃d : Float F⦄ → Option F → Option F
negated none = none
negated ⦃d⦄ (some x) = some (d.minus d.nought x)

-- `float_or_none` on the text of a value
unfoldable pub number_of_text : {F : Type 0} ⦃d : Float F⦄ → Reading F → Text → Option F
number_of_text py raw =
    let s = strip raw in
    let bracketed = starts_with s (codes "(") && ends_with_bracket s in
    let plain = without_dollar (if bracketed then strip (drop_last (drop_first s)) else s) in
    let number = py.parse_float (keep (λ c. not (is_comma c)) plain) in
    if is_empty s then none else if bracketed then negated number else number

unfoldable pub float_or_none : {F : Type 0} ⦃d : Float F⦄ → Reading F → Json → Option F
float_or_none py null = none
float_or_none py (flag true) = number_of_text py (codes "True")
float_or_none py (flag false) = number_of_text py (codes "False")
float_or_none py (text t) = number_of_text py t
float_or_none py (number s b n) = number_of_text py s
float_or_none py (mapping ms) = number_of_text py (py.repr (mapping ms))
float_or_none py (listing xs) = number_of_text py (py.repr (listing xs))
