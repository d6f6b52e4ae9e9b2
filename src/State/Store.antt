-- ===== src/State/Store.antt =====
-- application/state_persistence.py: `GcsStateStore`, over a bucket whose objects are texts of JSON.
pub mod Masking
use firstrade_platform.Prelude.{
  ℕ, ◌-◌, Bool, true, false, Option, none, some, List, [], ◌∷◌, ◌++◌, Text, codes, Dict, get, put,
  length, leb, is_empty, ◌==◌, is_some, if◌then◌else◌,
}
use mathlib.Core.List.{reverse}

-- A value of a JSON object. A number, a list or an object is carried as what this code may read of
-- it: its `str(...)` and its truth.
pub data Field : Type 0 where
  null : Field
  text : Text → Field
  flag : Bool → Field
  json_value : Text → Bool → Field

abbrev pub Payload : Type 0
Payload = Dict Field

-- What an object of the bucket decodes to.
pub data Blob : Type 0 where
  object : Payload → Blob
  malformed : Blob
  not_an_object : Blob

pub record Bucket : Type 0 where
  pub objects : Dict Blob
  pub reachable : Bool

-- `ValueError` for an empty key, `StatePersistenceError`, and `ValueError` for a claim without the
-- persistence of runs
pub data Fault : Type 0 where
  empty_key persistence runs_not_persisted : Fault

pub data Result {ℓ} (A : Type ℓ) : Type ℓ where
  ok : A → Result A
  fault : Fault → Result A

infixl 5 ◌>>=◌
abbrev pub ◌>>=◌ {ℓ κ} : {A : Type ℓ} {B : Type κ} → Result A → (A → Result B) → Result B
ok a >>= f = f a
fault e >>= f = fault e

unfoldable pub stars : List ℕ → Text
stars [] = []
stars (_ ∷ s) = b'*' ∷ stars s

-- stars for all but the last four characters
unfoldable pub mask_all_but_four : Text → Text
unfolding stars
mask_all_but_four [] = []
mask_all_but_four (c ∷ s) =
    let rest = mask_all_but_four s in if leb 4 (length s) then b'*' ∷ rest else c ∷ s

unfoldable pub legacy_account_state_id : Text → Text
unfolding mask_all_but_four
legacy_account_state_id value =
    if leb (length value) 4 then stars value else mask_all_but_four value

unfoldable pub drop_slashes : Text → Text
drop_slashes [] = []
drop_slashes (c ∷ s) = let rest = drop_slashes s in if c == b'/' then rest else c ∷ s

-- `s.strip("/")`
unfoldable pub strip_slashes : Text → Text
unfolding drop_slashes
strip_slashes s = reverse (drop_slashes (reverse (drop_slashes s)))

-- `_object_uri`, less the bucket's own name
unfoldable pub object_name : Text → Text → Result Text
unfolding strip_slashes
object_name prefix key =
    let clean_key = strip_slashes key in
    let clean_prefix = strip_slashes prefix in
    if is_empty clean_key
    then fault empty_key
    else ok (if is_empty clean_prefix then clean_key else clean_prefix ++ b'/' ∷ clean_key)

unfoldable pub decode : Option Blob → Result (Option Payload)
decode none = ok none
decode (some (object payload)) = ok (some payload)
decode (some malformed) = fault persistence
decode (some not_an_object) = fault persistence

-- A missing object is `None`; any other failure of the store is an error.
unfoldable pub read_json : Text → Bucket → Text → Result (Option Payload)
read_json prefix b key = do
  name ← object_name prefix key
  if b.reachable then decode (get b.objects name) else fault persistence

unfoldable pub write_object : Bucket → Payload → Text → Result Bucket
write_object b payload name =
    if b.reachable
    then ok (record b { objects = put b.objects name (object payload) })
    else fault persistence

-- The store returns `True` or raises; the model returns the bucket that the write leaves.
unfoldable pub write_json : Text → Bucket → Text → Payload → Result Bucket
write_json prefix b key payload = object_name prefix key >>= write_object b payload

-- `if_generation_match=0`: an object that exists is left alone. The first flag tells whether the
-- store is reachable, the second whether the object exists.
unfoldable pub create_if_absent : Bool → Bool → Bucket → Payload → Text → Result (Bool × Bucket)
create_if_absent false exists b payload name = fault persistence
create_if_absent true true b payload name = ok (false, b)
create_if_absent true false b payload name =
    ok (true, record b { objects = put b.objects name (object payload) })

unfoldable pub create_object : Bucket → Payload → Text → Result (Bool × Bucket)
create_object b payload name =
    create_if_absent b.reachable (is_some (get b.objects name)) b payload name

unfoldable pub create_json : Text → Bucket → Text → Payload → Result (Bool × Bucket)
create_json prefix b key payload = object_name prefix key >>= create_object b payload
