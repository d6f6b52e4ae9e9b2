-- ===== src/Broker/Orders/Found.antt =====
-- application/firstrade_client.py: what `get_order_status` answers.
use firstrade_platform.Prelude.{
  ◌≢◌, map, one_of, or_default, fmax, ◌≡◌, refl, Bool, true, false, List, [], ◌∷◌, Text, strip,
  is_empty, Float, IsOrdered, fle, le-fmax_left, or_num, Option, none, some, Bool-cases, inl, inr,
}
use firstrade_platform.Broker.Payload.{
  Json, null, flag, text, number, mapping, listing, Members, Reading, flat, float_or_none,
}
use firstrade_platform.Broker.Fields.{
  payload_contains_order_id, sanitize_payload_key, leaf_key, first_payload_value,
  first_text_from_payload, text_or_empty, text_or_none, or_null,
}
use firstrade_platform.Broker.Orders.{
  OrderStatus, number_of_field, status_keys, StatusAnswer, unreadable, no_such_order, status_found,
  execution_number, quantity_keys, price_keys, status_of_row, status_among, status_in, get_orders,
  get_order_status,
}
use firstrade_platform.Broker.Orders.Entries.{
  entries, first_where, has_form, execution_field-first, first_in-first,
}

module _ {F : Type 0} ⦃d : Float F⦄ (py : Reading F) where
  open d use {nought}

  abbrev pub IsNamed : Text → Members → Bool → Type 0
  IsNamed wanted row b = payload_contains_order_id py (mapping row) wanted ≡ b

  -- the first of the rows that names the identifier
  pub data IsFirst (wanted : Text) : List Members → Members → Type 0 where
    here :
        {row : Members} {rows : List Members}
        → IsNamed wanted row true
        → IsFirst wanted (row ∷ rows) row
    later :
        {row other : Members} {rows : List Members}
        → IsNamed wanted other false
        → IsFirst wanted rows row
        → IsFirst wanted (other ∷ rows) row

  -- No row names it.
  pub data IsAbsent (wanted : Text) : List Members → Type 0 where
    no_row : IsAbsent wanted []
    other_row :
        {other : Members} {rows : List Members}
        → IsNamed wanted other false
        → IsAbsent wanted rows
        → IsAbsent wanted (other ∷ rows)

  -- The number of the first key that has a value: the value that comes first under the key.
  pub data IsNumber (row : Json) : List Text → Option F → Type 0 where
    no_key : IsNumber row [] none
    absent_key :
        {key : Text} {keys : List Text} {v : Option F}
        → first_where (has_form (sanitize_payload_key key)) (entries row) ≡ none
        → IsNumber row keys v
        → IsNumber row (key ∷ keys) v
    null_key :
        {key : Text} {keys : List Text} {v : Option F}
        → first_where (has_form (sanitize_payload_key key)) (entries row) ≡ some null
        → IsNumber row keys v
        → IsNumber row (key ∷ keys) v
    present_key :
        {key : Text} {keys : List Text} (value : Json)
        → first_where (has_form (sanitize_payload_key key)) (entries row) ≡ some value
        → value ≢ null
        → IsNumber row (key ∷ keys) (float_or_none py value)

  -- A quantity or price is the number, or zero where there is none or it is negative.
  abbrev pub IsAmount : Json → List Text → F → Type 0
  IsAmount row keys amount =
      (v : Option F) × IsNumber row keys v × (amount ≡ fmax nought (or_num v nought))

  -- The status is the text of the first value, in the flattened order, under one of the keys.
  abbrev pub status_text : Json → Text
  status_text row = strip (
      text_or_empty py (
        or_null (
          first_where
            (λ k. one_of (sanitize_payload_key (leaf_key k)) (map sanitize_payload_key status_keys))
            (flat row))))

  -- What an order says is read from its row.
  abbrev pub IsRead : OrderStatus F → Type 0
  IsRead s =
      (s.status ≡ status_text (mapping s.raw_payload))
      × IsAmount (mapping s.raw_payload) quantity_keys s.executed_qty
      × IsAmount (mapping s.raw_payload) price_keys s.executed_price

  field-IsNumber :
      (row : Json) (key : Text) (keys : List Text) (rest : Option F) (found : Option Json)
      → first_where (has_form (sanitize_payload_key key)) (entries row) ≡ found
      → IsNumber row keys rest
      → IsNumber row (key ∷ keys) (number_of_field py found rest)
  unfolding number_of_field
  field-IsNumber row key keys rest none e h = absent_key e h
  field-IsNumber row key keys rest (some null) e h = null_key e h
  field-IsNumber row key keys rest (some (flag b)) e h = present_key _ e (λ q. cc)
  field-IsNumber row key keys rest (some (text t)) e h = present_key _ e (λ q. cc)
  field-IsNumber row key keys rest (some (number s b n)) e h = present_key _ e (λ q. cc)
  field-IsNumber row key keys rest (some (mapping ms)) e h = present_key _ e (λ q. cc)
  field-IsNumber row key keys rest (some (listing xs)) e h = present_key _ e (λ q. cc)

  execution_number-IsNumber :
      (row : Json) (keys : List Text) → IsNumber row keys (execution_number py row keys)
  unfolding execution_number
  execution_number-IsNumber row [] = no_key
  execution_number-IsNumber row (key ∷ keys) =
      rw (execution_field-first row (sanitize_payload_key key))
        (field-IsNumber row key keys _ _ refl (execution_number-IsNumber row keys))

  or_default-text : (t : Text) → or_default (text_or_none t) [] ≡ t
  or_default-text [] = refl
  or_default-text (c ∷ t) = refl

  status_of_row-IsRead : (order_id : Text) (row : Members) → IsRead (status_of_row py order_id row)
  unfolding status_of_row first_text_from_payload first_payload_value
  status_of_row-IsRead order_id row = (
    rw (or_default-text, first_in-first) refl,
    (_, execution_number-IsNumber (mapping row) quantity_keys, refl),
    (_, execution_number-IsNumber (mapping row) price_keys, refl),
  )

  abbrev pub IsStatusAmong : Text → List Members → StatusAnswer F → Type 0
  IsStatusAmong wanted rows unreadable = ⊥
  IsStatusAmong wanted rows no_such_order = IsAbsent wanted rows
  IsStatusAmong wanted rows (status_found s) =
      IsFirst wanted rows s.raw_payload
      × (s.broker_order_id ≡ wanted)
      × (fle nought s.executed_qty ≡ true)
      × (fle nought s.executed_price ≡ true)
      × IsRead s

  abbrev pub IsStatusOf : Text → Option (List Members) → StatusAnswer F → Type 0
  IsStatusOf wanted none answer = answer ≡ unreadable
  IsStatusOf wanted (some rows) answer = IsStatusAmong wanted rows answer

  later-IsStatusAmong :
      (wanted : Text) (row : Members) (rows : List Members) (answer : StatusAnswer F)
      → IsNamed wanted row false
      → IsStatusAmong wanted rows answer
      → IsStatusAmong wanted (row ∷ rows) answer
  later-IsStatusAmong wanted row rows unreadable other h = h
  later-IsStatusAmong wanted row rows no_such_order other h = other_row other h
  later-IsStatusAmong wanted row rows (status_found s) other h =
      (later other h.0, h.1, h.2, h.3, h.4)

  module _ (o : IsOrdered F) where
    status_among-IsStatusAmong :
        (wanted : Text) (rows : List Members)
        → IsStatusAmong wanted rows (status_among py wanted rows)
    unfolding status_among status_of_row
    status_among-IsStatusAmong wanted [] = no_row
    status_among-IsStatusAmong wanted (row ∷ rows) =
        elim (Bool-cases (payload_contains_order_id py (mapping row) wanted)) [
          | inl named ↦ rw named (
            here named,
            refl,
            le-fmax_left o nought (or_num (execution_number py (mapping row) quantity_keys) nought),
            le-fmax_left o nought (or_num (execution_number py (mapping row) price_keys) nought),
            status_of_row-IsRead wanted row,
          )
          | inr other ↦ rw other (
              later-IsStatusAmong wanted row rows (status_among py wanted rows) other
                (status_among-IsStatusAmong wanted rows))
        ]

    status_in-IsStatusOf :
        (wanted : Text) (rows : Option (List Members))
        → IsStatusOf wanted rows (status_in py wanted rows)
    status_in-IsStatusOf wanted none = refl
    status_in-IsStatusOf wanted (some rows) = status_among-IsStatusAmong wanted rows

    -- The status of an identifier that is not blank is read from the first listed order that names
    -- it: its text is that of the first value under a status key, its executed quantity and price
    -- are the numbers under their first keys with a value, and they are not negative. No order is
    -- reported exactly where none names it, and nothing where the orders cannot be read, if floats
    -- are ordered.
    pub get_order_status-IsStatusOf :
        (order_id : Text) (payload : Json)
        → is_empty (strip order_id) ≡ false
        → IsStatusOf (strip order_id) (get_orders payload) (get_order_status py order_id payload)
    unfolding get_order_status
    get_order_status-IsStatusOf order_id payload h =
        rw h (status_in-IsStatusOf (strip order_id) (get_orders payload))
