-- ===== src/Fees/Schedule.antt =====
-- application/firstrade_fee_schedule.py: the validated fee schedule and its lookups by trade date.
-- A date is the number yyyymmdd. What a config holds is given as parsed: `none` is a date or a
-- decimal that does not parse, or a value of another type.
pub mod Lookup
pub mod Ordered
use firstrade_platform.Prelude.{
  ℕ, Bool, true, false, not, ◌&&◌, ◌||◌, Option, none, some, List, [], ◌∷◌, map, Text, codes, upper,
  strip, is_substring, text_eq, is_empty, any, leb, ltb, ◌==◌, if◌then◌else◌,
}
use firstrade_platform.Fees.Decimals.{Decimal, decimal, lt}

pub data Table : Type 0 where
  broker_assisted_fee sec_rate taf_rate : Table

-- `FeeScheduleError`, one constructor for each message
pub data Error : Type 0 where
  schema_version_unsupported : Error
  broker_assisted_markers_invalid : Error
  verified_through_missing : Error
  amount_invalid : Error
  date_invalid : Error
  table_missing : Table → Error
  table_invalid : Table → Error
  not_strictly_ordered : Table → Error
  not_verified_after : Table → ℕ → Error
  not_defined_for : Table → ℕ → Error

pub data Result {ℓ} (A : Type ℓ) : Type ℓ where
  ok : A → Result A
  err : Error → Result A

infixl 5 ◌>>=◌
abbrev pub ◌>>=◌ {ℓ κ} : {A : Type ℓ} {B : Type κ} → Result A → (A → Result B) → Result B
ok a >>= f = f a
err e >>= f = err e

pub record Row (V : Type 0) : Type 0 where
  pub effective_from : ℕ
  pub value : V

-- the rate, and the most that one trade is charged
pub record Taf : Type 0 where
  pub rate : Decimal
  pub max_per_trade : Decimal

pub record FeeSchedule : Type 0 where
  pub broker_assisted_markers : List Text
  pub broker_assisted_fee : List (Row Decimal)
  pub sec_rate_per_million : List (Row Decimal)
  pub taf_per_share : List (Row Taf)
  pub minimum_regulatory_fee : Decimal
  pub explained_residual_tolerance : Decimal
  pub verified_through : ℕ

module _ {V : Type 0} where
  -- the loop of `_lookup`
  unfoldable pub select : ℕ → List (Row V) → Option (Row V) → Option (Row V)
  select trade_date [] selected = selected
  select trade_date (row ∷ rows) selected =
      select trade_date rows (if leb row.effective_from trade_date then some row else selected)

  abbrev pub found : Error → Option (Row V) → Result (Row V)
  found e none = err e
  found e (some row) = ok row

  unfoldable pub lookup : ℕ → List (Row V) → ℕ → Table → Result (Row V)
  lookup verified_through table trade_date name =
      if ltb verified_through trade_date
      then err (not_verified_after name verified_through)
      else found (not_defined_for name trade_date) (select trade_date table none)

unfoldable pub broker_assisted_fee_on : FeeSchedule → ℕ → Result Decimal
broker_assisted_fee_on s trade_date =
    lookup s.verified_through s.broker_assisted_fee trade_date broker_assisted_fee >>= λ row.
    ok row.value

unfoldable pub sec_rate_on : FeeSchedule → ℕ → Result Decimal
sec_rate_on s trade_date =
    lookup s.verified_through s.sec_rate_per_million trade_date sec_rate >>= λ row. ok row.value

unfoldable pub taf_on : FeeSchedule → ℕ → Result Taf
taf_on s trade_date =
    lookup s.verified_through s.taf_per_share trade_date taf_rate >>= λ row. ok row.value

unfoldable pub is_broker_assisted : FeeSchedule → Text → Bool
is_broker_assisted s description =
    any (λ marker. is_substring (upper marker) (upper description)) s.broker_assisted_markers

-- One segment of a config; `none` for an item that is no mapping.
pub record RawRow : Type 0 where
  pub effective_from : Option ℕ
  pub values : List (Option Decimal)

unfoldable pub checked_decimal : Option Decimal → Result Decimal
checked_decimal none = err amount_invalid
checked_decimal (some number) = if lt number (decimal 0 0) then err amount_invalid else ok number

abbrev pub checked_date : Option ℕ → Result ℕ
checked_date none = err date_invalid
checked_date (some day) = ok day

-- the values of one key, and those of two
unfoldable pub one_value : List (Option Decimal) → Result Decimal
one_value [] = err amount_invalid
one_value (v ∷ _) = checked_decimal v

unfoldable pub two_values : List (Option Decimal) → Result Taf
two_values (v ∷ w ∷ _) = checked_decimal v >>= λ rate.
    checked_decimal w >>= λ most. ok (record { rate = rate; max_per_trade = most })
two_values _ = err amount_invalid

unfoldable pub insert : ℕ → List ℕ → List ℕ
insert x [] = x ∷ []
insert x (y ∷ ys) = let rest = insert x ys in if leb x y then x ∷ y ∷ ys else y ∷ rest

-- `sorted(dates)`
unfoldable pub sorted : List ℕ → List ℕ
sorted [] = []
sorted (x ∷ xs) = insert x (sorted xs)

unfoldable pub has_duplicates : List ℕ → Bool
has_duplicates [] = false
has_duplicates (x ∷ xs) = any (λ y. x == y) xs || has_duplicates xs

module _ {V : Type 0} (read : List (Option Decimal) → Result V) where
  abbrev pub read_row : Table → Option RawRow → Result (Row V)
  read_row name none = err (table_invalid name)
  read_row name (some raw) = checked_date raw.effective_from >>= λ day.
      read raw.values >>= λ v. ok (record { effective_from = day; value = v })

  unfoldable pub read_rows : Table → List (Option RawRow) → Result (List (Row V))
  read_rows name [] = ok []
  read_rows name (raw ∷ rest) =
      read_row name raw >>= λ row. read_rows name rest >>= λ rows. ok (row ∷ rows)

module _ {V : Type 0} where
  unfoldable pub dates_of : List (Row V) → List ℕ
  dates_of [] = []
  dates_of (row ∷ rows) = row.effective_from ∷ dates_of rows

-- `dates != sorted(dates) or len(set(dates)) != len(dates)`
unfoldable pub is_unordered : List ℕ → Bool
is_unordered dates = not (text_eq dates (sorted dates)) || has_duplicates dates

module _ {V : Type 0} (read : List (Option Decimal) → Result V) where
  abbrev pub ordered : Table → List (Row V) → Result (List (Row V))
  ordered name rows =
      if is_unordered (dates_of rows) then err (not_strictly_ordered name) else ok rows

  -- `_segments`; `none` is a value that is no list.
  unfoldable pub segments : Option (List (Option RawRow)) → Table → Result (List (Row V))
  segments none name = err (table_missing name)
  segments (some []) name = err (table_missing name)
  segments (some (raw ∷ rest)) name = read_rows read name (raw ∷ rest) >>= ordered name

-- The mapping that `load_fee_schedule` validates. A marker of `none` is no text.
pub record RawSchedule : Type 0 where
  pub schema_version : Text
  pub broker_assisted_markers : Option (List (Option Text))
  pub verified_through : Option (Option ℕ)
  pub broker_assisted_fee : Option (List (Option RawRow))
  pub sec_rate_per_million : Option (List (Option RawRow))
  pub taf_per_share : Option (List (Option RawRow))
  pub minimum_regulatory_fee : Option Decimal
  pub explained_residual_tolerance : Option Decimal

unfoldable pub read_markers : List (Option Text) → Result (List Text)
read_markers [] = ok []
read_markers (none ∷ rest) = err broker_assisted_markers_invalid
read_markers (some marker ∷ rest) =
    if is_empty (strip marker)
    then err broker_assisted_markers_invalid
    else (read_markers rest >>= λ markers. ok (marker ∷ markers))

unfoldable pub markers_of : Option (List (Option Text)) → Result (List Text)
markers_of none = err broker_assisted_markers_invalid
markers_of (some []) = err broker_assisted_markers_invalid
markers_of (some (m ∷ ms)) = read_markers (m ∷ ms)

-- A missing or empty `verified_through` comes first, one that is no date last.
abbrev pub present : Option (Option ℕ) → Result (Option ℕ)
present none = err verified_through_missing
present (some day) = ok day

unfoldable pub load_fee_schedule : RawSchedule → Result FeeSchedule
load_fee_schedule raw =
    if not (text_eq raw.schema_version (codes "firstrade_fee_schedule.v1"))
    then err schema_version_unsupported
    else do
      markers ← markers_of raw.broker_assisted_markers
      through ← present raw.verified_through
      fees ← segments one_value raw.broker_assisted_fee broker_assisted_fee
      sec ← segments one_value raw.sec_rate_per_million sec_rate
      taf ← segments two_values raw.taf_per_share taf_rate
      minimum ← checked_decimal raw.minimum_regulatory_fee
      tolerance ← checked_decimal raw.explained_residual_tolerance
      day ← checked_date through
      ok (record {
        broker_assisted_markers = markers;
        broker_assisted_fee = fees;
        sec_rate_per_million = sec;
        taf_per_share = taf;
        minimum_regulatory_fee = minimum;
        explained_residual_tolerance = tolerance;
        verified_through = day;
      })

abbrev pub rate_from : ℕ → Decimal → Option RawRow
rate_from day rate = some (record { effective_from = some day; values = some rate ∷ [] })

abbrev pub taf_from : ℕ → Decimal → Decimal → Option RawRow
taf_from day rate most =
    some (record { effective_from = some day; values = some rate ∷ some most ∷ [] })

-- `DEFAULT_FEE_SCHEDULE_CONFIG`
abbrev pub default_fee_schedule_config : RawSchedule
default_fee_schedule_config = record {
  schema_version = codes "firstrade_fee_schedule.v1";
  broker_assisted_markers = some (some (codes "BROKER/DEALER ORDER") ∷ []);
  verified_through = some (some 20261201);
  broker_assisted_fee = some (rate_from 20000101 (decimal 1995 2) ∷ []);
  sec_rate_per_million = some (
      rate_from 20240522 (decimal 2780 2)
      ∷ rate_from 20250514 (decimal 0 2)
      ∷ rate_from 20260404 (decimal 2060 2)
      ∷ []);
  taf_per_share = some (
      taf_from 20240101 (decimal 166 6) (decimal 830 2)
      ∷ taf_from 20260101 (decimal 195 6) (decimal 979 2)
      ∷ taf_from 20261001 (decimal 0 0) (decimal 0 0)
      ∷ taf_from 20270101 (decimal 195 6) (decimal 979 2)
      ∷ taf_from 20290101 (decimal 232 6) (decimal 1161 2)
      ∷ taf_from 20300101 (decimal 240 6) (decimal 1205 2)
      ∷ taf_from 20310101 (decimal 249 6) (decimal 1250 2)
      ∷ []);
  minimum_regulatory_fee = some (decimal 1 2);
  explained_residual_tolerance = some (decimal 1 2);
}
