-- ===== src/Broker/Orders.antt =====
-- application/firstrade_client.py: the orders that the broker lists, the status of one, and the
-- balances of an account.
pub mod Entries
pub mod Found
use firstrade_platform.Prelude.{
  Bool, true, false, Option, none, some, List, [], ◌∷◌, Text, codes, text_eq, strip, is_empty, get,
  has_key, put, Dict, Float, fmax, or_num, or_default, if◌then◌else◌,
}
use firstrade_platform.Broker.Payload.{
  Json, null, flag, text, number, mapping, listing, Members, no_member, member, Items, no_item,
  item, Reading, float_or_none,
}
use firstrade_platform.Broker.Fields.{
  dict_of, first_list, sanitize_payload_key, leaf_key, payload_contains_order_id,
  first_text_from_payload,
}

-- Every item as a mapping; nothing where one is none.
abbrev pub with_row : Members → Option (List Members) → Option (List Members)
with_row row none = none
with_row row (some rows) = some (row ∷ rows)

unfoldable pub all_rows : Items → Option (List Members)
all_rows no_item = some []
all_rows (item (mapping row) xs) = with_row row (all_rows xs)
all_rows (item null xs) = none
all_rows (item (flag b) xs) = none
all_rows (item (text t) xs) = none
all_rows (item (number s b n) xs) = none
all_rows (item (listing ys) xs) = none

abbrev pub rows_if_listed : Option Items → Option (List Members)
rows_if_listed none = none
rows_if_listed (some xs) = all_rows xs

-- `get_orders` on what the package answers; nothing where it raises.
unfoldable pub get_orders : Json → Option (List Members)
get_orders (mapping ms) =
    rows_if_listed (
      first_list (dict_of ms) (codes "items" ∷ codes "orders" ∷ codes "data" ∷ codes "result" ∷ []))
get_orders (listing xs) = all_rows xs
get_orders null = none
get_orders (flag b) = none
get_orders (text t) = none
get_orders (number s b n) = none

-- `execution_field`: the first value, depth first, whose key has the given form.
unfoldable mutual
  pub execution_field : Json → Text → Option Json
  execution_field null key = none
  execution_field (flag b) key = none
  execution_field (text t) key = none
  execution_field (number s b n) key = none
  execution_field (mapping ms) key = field_of_members ms key
  execution_field (listing xs) key = field_of_items xs key

  pub field_of_members : Members → Text → Option Json
  field_of_members no_member key = none
  field_of_members (member k v ms) key =
      let inside = execution_field v key in
      let rest = field_of_members ms key in
      if text_eq (sanitize_payload_key (leaf_key k)) key
      then some v
      else elim inside [ some found ↦ some found | none ↦ rest ]

  pub field_of_items : Items → Text → Option Json
  field_of_items no_item key = none
  field_of_items (item v xs) key =
      let inside = execution_field v key in
      let rest = field_of_items xs key in elim inside [ some found ↦ some found | none ↦ rest ]

pub record OrderStatus (F : Type 0) : Type 0 where
  pub status : Text
  pub executed_qty : F
  pub executed_price : F
  pub broker_order_id : Text
  pub raw_payload : Members

-- The orders cannot be read, no order has the identifier, or the status of the first that has it.
pub data StatusAnswer (F : Type 0) : Type 0 where
  unreadable : StatusAnswer F
  no_such_order : StatusAnswer F
  status_found : OrderStatus F → StatusAnswer F

abbrev pub status_keys : List Text
status_keys =
    codes "status"
    ∷ codes "order_status"
    ∷ codes "state"
    ∷ codes "status_description"
    ∷ codes "description"
    ∷ []

abbrev pub quantity_keys : List Text
quantity_keys =
    codes "executed_qty"
    ∷ codes "executed_quantity"
    ∷ codes "filled_quantity"
    ∷ codes "filled_qty"
    ∷ codes "filled"
    ∷ codes "filled_shares"
    ∷ codes "executed_shares"
    ∷ codes "quantity_filled"
    ∷ []

abbrev pub price_keys : List Text
price_keys =
    codes "executed_price"
    ∷ codes "average_fill_price"
    ∷ codes "avg_fill_price"
    ∷ codes "avg_price"
    ∷ codes "average_price"
    ∷ codes "fill_price"
    ∷ codes "filled_price"
    ∷ []

module _ {F : Type 0} ⦃d : Float F⦄ (py : Reading F) where
  open d use {nought}

  -- A value that is present decides, unless it is `None`.
  unfoldable pub number_of_field : Option Json → Option F → Option F
  number_of_field none rest = rest
  number_of_field (some null) rest = rest
  number_of_field (some (flag b)) rest = float_or_none py (flag b)
  number_of_field (some (text t)) rest = float_or_none py (text t)
  number_of_field (some (number s b n)) rest = float_or_none py (number s b n)
  number_of_field (some (mapping ms)) rest = float_or_none py (mapping ms)
  number_of_field (some (listing xs)) rest = float_or_none py (listing xs)

  unfoldable pub execution_number : Json → List Text → Option F
  execution_number row [] = none
  execution_number row (key ∷ keys) =
      number_of_field (execution_field row (sanitize_payload_key key)) (execution_number row keys)

  unfoldable pub status_of_row : Text → Members → OrderStatus F
  status_of_row order_id row = record {
    status = or_default (first_text_from_payload py (mapping row) status_keys) [];
    executed_qty = fmax nought (or_num (execution_number (mapping row) quantity_keys) nought);
    executed_price = fmax nought (or_num (execution_number (mapping row) price_keys) nought);
    broker_order_id = order_id;
    raw_payload = row;
  }

  unfoldable pub status_among : Text → List Members → StatusAnswer F
  status_among order_id [] = no_such_order
  status_among order_id (row ∷ rows) =
      if payload_contains_order_id py (mapping row) order_id
      then status_found (status_of_row order_id row)
      else status_among order_id rows

  abbrev pub status_in : Text → Option (List Members) → StatusAnswer F
  status_in order_id none = unreadable
  status_in order_id (some rows) = status_among order_id rows

  -- `get_order_status` on what the package answers
  unfoldable pub get_order_status : Text → Json → StatusAnswer F
  get_order_status order_id payload =
      let wanted = strip order_id in
      if is_empty wanted then no_such_order else status_in wanted (get_orders payload)

-- `get_balances`: the balances, with the value of the account list where they lack that key.
unfoldable pub get_balances : Dict Json → Option Json → Dict Json
get_balances balances none = balances
get_balances balances (some null) = balances
get_balances balances (some listed) =
    if has_key balances (codes "account_list_total_value")
    then balances
    else put balances (codes "account_list_total_value") listed
