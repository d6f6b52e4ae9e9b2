-- ===== src/Fees/Schedule/Lookup.antt =====
-- The segment that a lookup finds on a trade date.
use mathlib.Core.Option.{some-injective}
use firstrade_platform.Prelude.{
  ℕ, ◌≤◌, ◌<◌, ◌≡◌, refl, ap, ◌⊎◌, inl, inr, Option, none, some, List, [], ◌∷◌, ◌++◌, All, leb, ltb,
  arith, Bool-cases,
}
use firstrade_platform.Fees.Schedule.{
  Table, Row, Result, ok, err, not_verified_after, not_defined_for, found, select, lookup, dates_of,
}
use firstrade_platform.Fees.Schedule.Ordered.{IsIncreasing}

module _ {V : Type 0} where
  -- `row` is in effect on the day: it has begun, and every later segment begins after the day.
  pub record InEffect (day : ℕ) (table : List (Row V)) (row : Row V) : Type 0 where
    pub before : List (Row V)
    pub later : List (Row V)
    pub split : table ≡ before ++ row ∷ later
    pub begun : row.effective_from ≤ day
    pub not_begun : All (λ (r : Row V). day < r.effective_from) later

  -- no segment of the table has begun
  abbrev pub NoneBegun : ℕ → List (Row V) → Type 0
  NoneBegun day table = All (λ (r : Row V). day < r.effective_from) table

  later_not_begun :
      (day x : ℕ) (rows : List (Row V))
      → day < x
      → All (λ y. x < y) (dates_of rows)
      → NoneBegun day rows
  unfolding dates_of
  later_not_begun day x [] h a = tt
  later_not_begun day x (r ∷ rs) h a = (omega arith, later_not_begun day x rs h a.1)

  select-NoneBegun :
      (day : ℕ) (rows : List (Row V)) (selected : Option (Row V))
      → NoneBegun day rows
      → select day rows selected ≡ selected
  unfolding select
  select-NoneBegun day [] selected h = refl
  select-NoneBegun day (r ∷ rs) selected h = ground (arith, select-NoneBegun day rs selected h.1)

  -- what the loop ends with
  abbrev Selected : ℕ → List (Row V) → Option (Row V) → Option (Row V) → Type 0
  Selected day rows selected none = NoneBegun day rows × (selected ≡ none)
  Selected day rows selected (some row) =
      InEffect day rows row ⊎ (NoneBegun day rows × (selected ≡ some row))

  extend :
      (day : ℕ) (r : Row V) (rs : List (Row V)) (selected out : Option (Row V))
      → r.effective_from ≤ day
      → Selected day rs (some r) out
      → Selected day (r ∷ rs) selected out
  extend day r rs selected none h s = cc (s.1)
  extend day r rs selected (some row) h (inl e) = inl (record {
    before = r ∷ e.before;
    later = e.later;
    split = ap (λ (t : List (Row V)). r ∷ t) e.split;
    begun = e.begun;
    not_begun = e.not_begun;
  })
  extend day r rs selected (some row) h (inr (nb, same)) =
      let e = some-injective r row same in
      inl (record {
        before = [];
        later = rs;
        split = ap (λ (q : Row V). q ∷ rs) e;
        begun = rw (← e) h;
        not_begun = nb;
      })

  unchanged :
      (day : ℕ) (rows : List (Row V)) (o : Option (Row V))
      → NoneBegun day rows
      → Selected day rows o o
  unchanged day rows none h = (h, refl)
  unchanged day rows (some row) h = inr (h, refl)

  select-Selected :
      (day : ℕ) (rows : List (Row V)) (selected : Option (Row V))
      → IsIncreasing (dates_of rows)
      → Selected day rows selected (select day rows selected)
  unfolding select dates_of
  select-Selected day [] selected inc = unchanged day [] selected tt
  select-Selected day (r ∷ rs) selected inc = elim (Bool-cases (leb r.effective_from day)) [
    | inl begun ↦ rw begun (
        extend day r rs selected (select day rs (some r)) (ground arith)
          (select-Selected day rs (some r) inc.1))
    | inr not_begun ↦
        let later : day < r.effective_from = ground arith in
        let none_begun = later_not_begun day r.effective_from rs later inc.0 in
        rw (not_begun, select-NoneBegun day rs selected none_begun)
          (unchanged day (r ∷ rs) selected (later, none_begun))
  ]

  -- what a lookup answers on a day
  abbrev pub Answers : ℕ → List (Row V) → ℕ → Table → Result (Row V) → Type 0
  Answers through table day name (ok row) = (day ≤ through) × InEffect day table row
  Answers through table day name (err e) =
      ((e ≡ not_verified_after name through) × (through < day))
      ⊎ ((e ≡ not_defined_for name day) × NoneBegun day table)

  found-Answers :
      (through : ℕ) (table : List (Row V)) (day : ℕ) (name : Table) (o : Option (Row V))
      → day ≤ through
      → Selected day table none o
      → Answers through table day name (found (not_defined_for name day) o)
  found-Answers through table day name none h s = inr (refl, s.0)
  found-Answers through table day name (some row) h (inl e) = (h, e)
  found-Answers through table day name (some row) h (inr (nb, e)) = cc

  -- On an ordered table a lookup returns the segment in effect on the day, which is then within the
  -- verified range. It fails exactly where the day is past that range, or no segment has begun.
  pub lookup_lem :
      (through : ℕ) (table : List (Row V)) (day : ℕ) (name : Table)
      → IsIncreasing (dates_of table)
      → Answers through table day name (lookup through table day name)
  unfolding lookup
  lookup_lem through table day name inc = elim (Bool-cases (ltb through day)) [
    | inl past ↦ rw past (inl (refl, ground arith))
    | inr within ↦ rw within (
        found-Answers through table day name (select day table none) (ground arith)
          (select-Selected day table none inc))
  ]
