-- ===== src/Fees/Schedule/Ordered.antt =====
-- The order of the dates in a table that the schedule accepts.
use firstrade_platform.Prelude.{
  ℕ, ◌≤◌, ◌<◌, ◌≡◌, ◌≢◌, false, Option, none, some, List, [], ◌∷◌, All, any, ◌==◌, text_eq_sound,
  arith,
}
use firstrade_platform.Fees.Decimals.{Decimal}
use firstrade_platform.Fees.Schedule.{
  Table, Row, Result, ok, err, ◌>>=◌, RawRow, insert, sorted, has_duplicates, dates_of,
  is_unordered, ordered, read_rows, segments,
}

-- strictly increasing dates
abbrev pub IsIncreasing : List ℕ → Type 0
IsIncreasing [] = Unit
IsIncreasing (x ∷ xs) = All (λ y. x < y) xs × IsIncreasing xs

abbrev IsSorted : List ℕ → Type 0
IsSorted [] = Unit
IsSorted (x ∷ xs) = All (λ y. x ≤ y) xs × IsSorted xs

All-weaken : (x y : ℕ) (xs : List ℕ) → x ≤ y → All (λ z. y ≤ z) xs → All (λ z. x ≤ z) xs
All-weaken x y [] h a = tt
All-weaken x y (z ∷ zs) h a = (omega arith, All-weaken x y zs h a.1)

insert-All : (b x : ℕ) (xs : List ℕ) → b ≤ x → All (λ z. b ≤ z) xs → All (λ z. b ≤ z) (insert x xs)
unfolding insert
insert-All b x [] h a = (h, tt)
insert-All b x (y ∷ ys) h a = ground (arith, insert-All b x ys h a.1)

insert-IsSorted : (x : ℕ) (xs : List ℕ) → IsSorted xs → IsSorted (insert x xs)
unfolding insert
insert-IsSorted x [] h = (tt, tt)
insert-IsSorted x (y ∷ ys) h =
    ground (arith, insert-IsSorted x ys h.1, insert-All y x ys, All-weaken x y ys)

sorted-IsSorted : (xs : List ℕ) → IsSorted (sorted xs)
unfolding sorted
sorted-IsSorted [] = tt
sorted-IsSorted (x ∷ xs) = insert-IsSorted x (sorted xs) (sorted-IsSorted xs)

strict-above :
    (x : ℕ) (xs : List ℕ) → All (λ z. x ≤ z) xs → any (λ y. x == y) xs ≡ false → All (λ z. x < z) xs
strict-above x [] a h = tt
strict-above x (y ∷ ys) a h = ground (arith, strict-above x ys a.1)

sorted_strict : (xs : List ℕ) → IsSorted xs → has_duplicates xs ≡ false → IsIncreasing xs
unfolding has_duplicates
sorted_strict [] s h = tt
sorted_strict (x ∷ xs) s h = ground (arith, strict-above x xs s.0, sorted_strict xs s.1)

ordered-IsIncreasing : (dates : List ℕ) → is_unordered dates ≡ false → IsIncreasing dates
unfolding is_unordered
ordered-IsIncreasing dates h =
    let e = text_eq_sound dates (sorted dates) (ground arith) in
    sorted_strict dates (rw e (sorted-IsSorted dates)) (ground arith)

module _ {V : Type 0} (read : List (Option Decimal) → Result V) where
  read_rows-not_empty :
      (name : Table) (raw : Option RawRow) (rest : List (Option RawRow)) {rows : List (Row V)}
      → read_rows read name (raw ∷ rest) ≡ ok rows
      → rows ≢ []
  unfolding read_rows
  read_rows-not_empty name none rest e h = cc
  read_rows-not_empty name (some raw) rest e h = ground arith

  passed :
      (r : Result (List (Row V))) (name : Table) {rows : List (Row V)}
      → (r >>= ordered read name) ≡ ok rows
      → (r ≡ ok rows) × (is_unordered (dates_of rows) ≡ false)
  passed (ok rows) name e = ground arith
  passed (err x) name e = cc

  -- A table is accepted only where its dates increase strictly, and never where it is empty.
  pub segments-IsIncreasing :
      (raw : Option (List (Option RawRow))) (name : Table) {rows : List (Row V)}
      → segments read raw name ≡ ok rows
      → IsIncreasing (dates_of rows) × (rows ≢ [])
  unfolding segments
  segments-IsIncreasing none name e = cc
  segments-IsIncreasing (some []) name e = cc
  segments-IsIncreasing (some (raw ∷ rest)) name {rows} e =
      let (read_ok, in_order) = passed (read_rows read name (raw ∷ rest)) name e in
      (ordered-IsIncreasing (dates_of rows) in_order, read_rows-not_empty name raw rest read_ok)
