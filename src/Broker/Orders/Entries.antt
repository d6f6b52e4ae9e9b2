-- ===== src/Broker/Orders/Entries.antt =====
-- application/firstrade_client.py: the searches of an order's fields, against the list of its entries.
use firstrade_platform.Prelude.{
  ap, sym, ◌∙◌, ◌++◌, text_eq, one_of, if◌then◌else◌, ◌≡◌, refl, Bool, List, [], ◌∷◌, Text, Option,
  none, some, Bool-cases, inl, inr,
}
use firstrade_platform.Broker.Payload.{
  Json, null, flag, text, number, mapping, listing, Members, no_member, member, Items, no_item,
  item,
}
use firstrade_platform.Broker.Fields.{sanitize_payload_key, leaf_key, first_in}
use firstrade_platform.Broker.Orders.{execution_field, field_of_members, field_of_items}

-- The members of a payload and of what it holds, each before those inside it.
mutual
  pub entries : Json → List (Text × Json)
  entries null = []
  entries (flag b) = []
  entries (text t) = []
  entries (number s b n) = []
  entries (mapping ms) = entries_of_members ms
  entries (listing xs) = entries_of_items xs

  pub entries_of_members : Members → List (Text × Json)
  entries_of_members no_member = []
  entries_of_members (member k v ms) = (k, v) ∷ (entries v ++ entries_of_members ms)

  pub entries_of_items : Items → List (Text × Json)
  entries_of_items no_item = []
  entries_of_items (item v xs) = entries v ++ entries_of_items xs

-- the value of the first entry whose key passes a test
unfoldable pub first_where : (Text → Bool) → List (Text × Json) → Option Json
first_where test [] = none
first_where test ((k, v) ∷ rest) = if test k then some v else first_where test rest

abbrev pub has_form : Text → Text → Bool
has_form key k = text_eq (sanitize_payload_key (leaf_key k)) key

abbrev pub or_else : Option Json → Option Json → Option Json
or_else found rest = elim found [ some v ↦ some v | none ↦ rest ]

first_where-append :
    (test : Text → Bool) (xs ys : List (Text × Json))
    → first_where test (xs ++ ys) ≡ or_else (first_where test xs) (first_where test ys)
unfolding first_where
first_where-append test [] ys = refl
first_where-append test ((k, v) ∷ xs) ys = elim (Bool-cases (test k)) [
  | inl h ↦ rw h refl
  | inr h ↦ rw h (first_where-append test xs ys)
]

mutual
  unfolding execution_field field_of_members field_of_items entries entries_of_members
      entries_of_items first_where

  pub execution_field-first :
      (j : Json) (key : Text) → execution_field j key ≡ first_where (has_form key) (entries j)
  execution_field-first null key = refl
  execution_field-first (flag b) key = refl
  execution_field-first (text t) key = refl
  execution_field-first (number s b n) key = refl
  execution_field-first (mapping ms) key = field_of_members-first ms key
  execution_field-first (listing xs) key = field_of_items-first xs key

  field_of_members-first :
      (ms : Members) (key : Text)
      → field_of_members ms key ≡ first_where (has_form key) (entries_of_members ms)
  field_of_members-first no_member key = refl
  field_of_members-first (member k v ms) key =
      rw
        (
          first_where-append (has_form key) (entries v) (entries_of_members ms),
          execution_field-first v key,
        )
        (ap
          (λ r.
            if has_form key k then some v else or_else (first_where (has_form key) (entries v)) r)
          (field_of_members-first ms key))

  field_of_items-first :
      (xs : Items) (key : Text)
      → field_of_items xs key ≡ first_where (has_form key) (entries_of_items xs)
  field_of_items-first no_item key = refl
  field_of_items-first (item v xs) key =
      ap (λ e. or_else e (field_of_items xs key)) (execution_field-first v key)
      ∙ ap (λ r. or_else (first_where (has_form key) (entries v)) r) (field_of_items-first xs key)
      ∙ sym (first_where-append (has_form key) (entries v) (entries_of_items xs))

pub first_in-first :
    (xs : List (Text × Json)) (keys : List Text)
    → first_in xs keys ≡ first_where (λ k. one_of (sanitize_payload_key (leaf_key k)) keys) xs
unfolding first_in first_where
first_in-first [] keys = refl
first_in-first ((k, v) ∷ xs) keys = rw (first_in-first xs keys) refl
