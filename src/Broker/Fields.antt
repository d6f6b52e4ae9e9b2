-- ===== src/Broker/Fields.antt =====
-- Fields of a broker's payload: application/account_payload_utils.py, the private helpers at the
-- end of application/firstrade_client.py, and those at the start of
-- application/runtime_broker_adapters.py.
use firstrade_platform.Prelude.{
  Bool, true, false, not, ◌&&◌, ◌||◌, Option, none, some, List, [], ◌∷◌, Text, codes, Dict, get,
  put, has_key, text_eq, strip, lower, only_alnum, is_substring, is_empty, any, all, one_of, map,
  rekey, ◌==◌, ℤ, Float, if◌then◌else◌,
}
use firstrade_platform.Broker.Payload.{
  Json, null, flag, text, number, mapping, listing, Members, no_member, member, Items, no_item,
  item, Reading, flat, float_or_none,
}

-- `str(value or "")`
unfoldable pub text_or_empty : {F : Type 0} → Reading F → Json → Text
text_or_empty py null = []
text_or_empty py (flag true) = codes "True"
text_or_empty py (flag false) = []
text_or_empty py (text t) = t
text_or_empty py (number s true n) = s
text_or_empty py (number s false n) = []
text_or_empty py (mapping no_member) = []
text_or_empty py (mapping (member k v ms)) = py.repr (mapping (member k v ms))
text_or_empty py (listing no_item) = []
text_or_empty py (listing (item v xs)) = py.repr (listing (item v xs))

-- `str(value)`
unfoldable pub text_of_value : {F : Type 0} → Reading F → Json → Text
text_of_value py null = codes "None"
text_of_value py (flag true) = codes "True"
text_of_value py (flag false) = codes "False"
text_of_value py (text t) = t
text_of_value py (number s b n) = s
text_of_value py (mapping ms) = py.repr (mapping ms)
text_of_value py (listing xs) = py.repr (listing xs)

-- `text or None`
abbrev pub text_or_none : Text → Option Text
text_or_none s = if is_empty s then none else some s

-- `key.rsplit(".", 1)[-1]`
unfoldable pub leaf_from : Text → Text → Text
leaf_from leaf [] = leaf
leaf_from leaf (c ∷ s) = leaf_from (if c == b'.' then s else leaf) s

abbrev pub leaf_key : Text → Text
leaf_key key = leaf_from key key

unfoldable pub sanitize_payload_key : Text → Text
sanitize_payload_key s = only_alnum (lower s)

-- `_first_payload_value`
unfoldable pub first_in : Dict Json → List Text → Option Json
first_in [] candidates = none
first_in ((key, v) ∷ values) candidates =
    if one_of (sanitize_payload_key (leaf_key key)) candidates
    then some v
    else first_in values candidates

unfoldable pub first_payload_value : Json → List Text → Option Json
first_payload_value payload keys = first_in (flat payload) (map sanitize_payload_key keys)

abbrev pub or_null : Option Json → Json
or_null none = null
or_null (some v) = v

unfoldable pub first_text_from_payload : {F : Type 0} → Reading F → Json → List Text → Option Text
first_text_from_payload py payload keys =
    text_or_none (strip (text_or_empty py (or_null (first_payload_value payload keys))))

-- A key that may name an order's identifier.
abbrev pub is_order_key : Text → Bool
is_order_key key =
    let normalized = sanitize_payload_key key in
    is_substring (codes "order") normalized
    && (is_substring (codes "id") normalized
        || (is_substring (codes "number") normalized || is_substring (codes "orderno") normalized))

unfoldable pub payload_contains_order_id : {F : Type 0} → Reading F → Json → Text → Bool
payload_contains_order_id py payload order_id =
    let wanted = strip order_id in
    not (is_empty wanted)
    && any
        (λ (entry : Text × Json).
          is_order_key entry.0 && text_eq (strip (text_or_empty py entry.1)) wanted)
        (flat payload)

-- `_extract_broker_order_id`
unfoldable pub order_id_in : {F : Type 0} → Reading F → Dict Json → Option Text
order_id_in py [] = none
order_id_in py ((key, v) ∷ values) =
    let found = strip (text_or_empty py v) in
    if is_order_key key && not (is_empty found) then some found else order_id_in py values

abbrev pub extract_broker_order_id : {F : Type 0} → Reading F → Json → Option Text
extract_broker_order_id py payload = order_id_in py (flat payload)

-- `int(value)`, or nothing where it raises
unfoldable pub int_of : {F : Type 0} → Reading F → Json → Option ℤ
int_of py null = none
int_of py (flag true) = some (ℤ.pos 1)
int_of py (flag false) = some (ℤ.pos 0)
int_of py (text t) = py.parse_int t
int_of py (number s b n) = n
int_of py (mapping ms) = none
int_of py (listing xs) = none

-- `_extract_broker_status_code`
unfoldable pub status_code_in : {F : Type 0} → Reading F → Dict Json → Option ℤ
status_code_in py [] = none
status_code_in py ((key, v) ∷ values) =
    if text_eq (sanitize_payload_key (leaf_key key)) (codes "statuscode")
    then int_of py v
    else status_code_in py values

abbrev pub extract_broker_status_code : {F : Type 0} → Reading F → Json → Option ℤ
extract_broker_status_code py payload = status_code_in py (flat payload)

-- Whether a `refcode` of the payload is 1219.
unfoldable pub has_rejection_code : {F : Type 0} → Reading F → Json → Bool
has_rejection_code py payload =
    any
      (λ (entry : Text × Json).
        text_eq (sanitize_payload_key (leaf_key entry.0)) (codes "refcode")
        && text_eq (strip (text_of_value py entry.1)) (codes "1219"))
      (flat payload)

module _ {F : Type 0} ⦃d : Float F⦄ (py : Reading F) where
  -- `first_numeric_by_keywords`
  unfoldable pub first_numeric_in : Dict Json → List Text → Option F
  first_numeric_in [] keywords = none
  first_numeric_in ((key, v) ∷ values) keywords =
      let rest = first_numeric_in values keywords in
      if all (λ keyword. is_substring keyword (lower key)) keywords
      then elim (float_or_none py v) [ none ↦ rest | some x ↦ some x ]
      else rest

  abbrev pub first_numeric_by_keywords : Json → List Text → Option F
  first_numeric_by_keywords payload keywords = first_numeric_in (flat payload) keywords

  unfoldable pub first_numeric_by_keyword_groups : Json → List (List Text) → Option F
  first_numeric_by_keyword_groups payload [] = none
  first_numeric_by_keyword_groups payload (keywords ∷ groups) =
      let rest = first_numeric_by_keyword_groups payload groups in
      elim (first_numeric_by_keywords payload keywords) [ none ↦ rest | some x ↦ some x ]

  -- `selected_numeric_metrics`
  unfoldable pub metrics_in : Dict Json → List Text → Dict F
  metrics_in [] keywords = []
  metrics_in ((key, v) ∷ values) keywords =
      let rest = metrics_in values keywords in
      if any (λ keyword. is_substring keyword (lower key)) keywords
      then elim (float_or_none py v) [ none ↦ rest | some x ↦ (key, x) ∷ rest ]
      else rest

  abbrev pub selected_numeric_metrics : Json → List Text → Dict F
  selected_numeric_metrics payload keywords = metrics_in (flat payload) keywords

-- A mapping as a dictionary: a later member with the same key replaces an earlier one.
unfoldable pub members_onto : Dict Json → Members → Dict Json
members_onto d no_member = d
members_onto d (member key v ms) = members_onto (put d key v) ms

abbrev pub dict_of : Members → Dict Json
dict_of ms = members_onto [] ms

-- the rows of a list that are mappings
unfoldable pub rows_of : Items → List (Dict Json)
rows_of no_item = []
rows_of (item (mapping ms) xs) = dict_of ms ∷ rows_of xs
rows_of (item null xs) = rows_of xs
rows_of (item (flag b) xs) = rows_of xs
rows_of (item (text t) xs) = rows_of xs
rows_of (item (number s b n) xs) = rows_of xs
rows_of (item (listing ys) xs) = rows_of xs

-- the first of the keys that holds a list
unfoldable pub first_list : Dict Json → List Text → Option Items
first_list d [] = none
first_list d (key ∷ keys) =
    let rest = first_list d keys in
    elim (get d key) [ none ↦ rest | some v ↦ elim v [ listing xs ↦ some xs | _ ↦ rest ] ]

unfoldable pub iter_position_rows : Json → List (Dict Json)
iter_position_rows (mapping ms) =
    elim (first_list (dict_of ms)
      (codes "items" ∷ codes "positions" ∷ codes "data" ∷ codes "result" ∷ [])) [
        | some xs ↦ rows_of xs
        | none ↦ if has_key (dict_of ms) (codes "symbol") then dict_of ms ∷ [] else []
      ]
iter_position_rows (listing xs) = rows_of xs
iter_position_rows null = []
iter_position_rows (flag b) = []
iter_position_rows (text t) = []
iter_position_rows (number s b n) = []

-- the value of the first key that the row has
unfoldable pub first_key : Dict Json → List Text → Option Json
first_key row [] = none
first_key row (key ∷ keys) =
    let rest = first_key row keys in elim (get row key) [ none ↦ rest | some v ↦ some v ]

-- Exact keys first, then the keys in lower case.
unfoldable pub get_first : Dict Json → List Text → Json
get_first row keys = elim (first_key row keys) [
  | some v ↦ v
  | none ↦ or_null (first_key (rekey lower row) (map lower keys))
]
