-- ===== src/Broker/Adapters/Reconciled/Complete.antt =====
-- Which accounts the consumer of paper commands may act on.
use firstrade_platform.Prelude.{
  is_nought, true, false, Option, none, some, List, [], ◌∷◌, Dict, Float, ◌⊎◌, inl, inr, ◌≡◌, ◌↔◌,
  refl, Bool-cases,
}
use firstrade_platform.Broker.Payload.{Json, Reading}
use firstrade_platform.Broker.Fields.{
  text_or_empty, iter_position_rows, first_numeric_by_keyword_groups,
}
use firstrade_platform.Broker.Adapters.{
  Position, is_falsy, row_symbol, normalize_symbol, row_quantity, row_value, row_cost,
  market_value_of, cash_balance_keywords,
}
use firstrade_platform.Broker.Adapters.Reconciled.{
  ReconcileError, ReconciledSnapshot, evidence_with, evidence_for, row_evidence, with_evidence,
  reconciled_positions, reconciled_with, reconciled_from, build_reconciled_paper_portfolio_snapshot,
}

module _ {F : Type 0} ⦃d : Float F⦄ (py : Reading F) where
  open d use {nought, plus}

  -- The row shows the symbol, the quantity and the value of the position.
  abbrev pub IsEvidence : Dict Json → Position F → Type 0
  IsEvidence row p =
      (is_falsy (row_symbol row) ≡ false)
      × (normalize_symbol (text_or_empty py (row_symbol row)) ≡ some p.symbol)
      × (row_quantity py row ≡ some p.quantity)
      × (row_value py row ≡ some p.market_value)
      × (row_cost py row ≡ p.average_cost)

  -- Every row that is a mapping is evidence, and the positions are those of the rows with a quantity, in their order.
  pub data IsComplete : List (Dict Json) → List (Position F) → Type 0 where
    no_row : IsComplete [] []
    open_row :
        {row : Dict Json} {rows : List (Dict Json)} {ps : List (Position F)} (p : Position F)
        → IsEvidence row p
        → is_nought p.quantity ≡ false
        → IsComplete rows ps
        → IsComplete (row ∷ rows) (p ∷ ps)
    closed_row :
        {row : Dict Json} {rows : List (Dict Json)} {ps : List (Position F)} (p : Position F)
        → IsEvidence row p
        → is_nought p.quantity ≡ true
        → IsComplete rows ps
        → IsComplete (row ∷ rows) ps

  abbrev pub IsReconciled : Json → Json → ReconciledSnapshot F → Type 0
  IsReconciled balances positions_payload s =
      IsComplete (iter_position_rows positions_payload) s.positions
      × (first_numeric_by_keyword_groups py balances cash_balance_keywords ≡ some s.cash_balance)
      × (s.buying_power ≡ s.cash_balance)
      × (s.total_equity ≡ plus s.cash_balance (market_value_of nought s.positions))

  -- what an answer has to show
  abbrev Shows {ℓ} : {A : Type ℓ} → (A → Type 0) → ReconcileError ⊎ A → Type 0
  Shows P (inl e) = Unit
  Shows P (inr a) = P a

  evidence_with-Shows :
      (row : Dict Json) (symbol : _) (q v : Option F)
      → is_falsy (row_symbol row) ≡ false
      → normalize_symbol (text_or_empty py (row_symbol row)) ≡ some symbol
      → row_quantity py row ≡ q
      → row_value py row ≡ v
      → Shows (IsEvidence row) (evidence_with py row symbol q v)
  unfolding evidence_with
  evidence_with-Shows row symbol none v f n h k = tt
  evidence_with-Shows row symbol (some q) none f n h k = tt
  evidence_with-Shows row symbol (some q) (some v) f n h k = (f, n, h, k, refl)

  evidence_for-Shows :
      (row : Dict Json) (symbol : Option _)
      → is_falsy (row_symbol row) ≡ false
      → normalize_symbol (text_or_empty py (row_symbol row)) ≡ symbol
      → Shows (IsEvidence row) (evidence_for py row symbol)
  unfolding evidence_for
  evidence_for-Shows row none f n = tt
  evidence_for-Shows row (some symbol) f n = evidence_with-Shows row symbol _ _ f n refl refl

  row_evidence-Shows : (row : Dict Json) → Shows (IsEvidence row) (row_evidence py row)
  unfolding row_evidence
  row_evidence-Shows row = elim (Bool-cases (is_falsy (row_symbol row))) [
    | inl absent ↦ rw absent tt
    | inr present ↦ rw present (evidence_for-Shows row _ present refl)
  ]

  with_evidence-Shows :
      (row : Dict Json) (rows : List (Dict Json)) (p : ReconcileError ⊎ Position F)
      (ps : ReconcileError ⊎ List (Position F))
      → Shows (IsEvidence row) p
      → Shows (IsComplete rows) ps
      → Shows (IsComplete (row ∷ rows)) (with_evidence p ps)
  unfolding with_evidence
  with_evidence-Shows row rows (inl e) ps h k = tt
  with_evidence-Shows row rows (inr p) (inl e) h k = tt
  with_evidence-Shows row rows (inr p) (inr ps) h k = elim (Bool-cases (is_nought p.quantity)) [
    | inl closed ↦ rw closed (closed_row p h closed k)
    | inr kept ↦ rw kept (open_row p h kept k)
  ]

  reconciled_positions-Shows :
      (rows : List (Dict Json)) → Shows (IsComplete rows) (reconciled_positions py rows)
  unfolding reconciled_positions
  reconciled_positions-Shows [] = no_row
  reconciled_positions-Shows (row ∷ rows) =
      with_evidence-Shows row rows (row_evidence py row) (reconciled_positions py rows)
        (row_evidence-Shows row) (reconciled_positions-Shows rows)

  evidence-row_evidence :
      (row : Dict Json) (p : Position F) → IsEvidence row p → row_evidence py row ≡ inr p
  unfolding row_evidence evidence_for evidence_with
  evidence-row_evidence row p (f, n, q, v, c) = rw (f, n, q, v, c) refl

  complete-reconciled_positions :
      {rows : List (Dict Json)} {ps : List (Position F)}
      → IsComplete rows ps
      → reconciled_positions py rows ≡ inr ps
  unfolding reconciled_positions with_evidence
  complete-reconciled_positions no_row = refl
  complete-reconciled_positions (open_row {row = row} p e h rest) =
      rw (evidence-row_evidence row p e, complete-reconciled_positions rest, h) refl
  complete-reconciled_positions (closed_row {row = row} p e h rest) =
      rw (evidence-row_evidence row p e, complete-reconciled_positions rest, h) refl

  reconciled_from-Shows :
      (balances payload : Json) (ps : ReconcileError ⊎ List (Position F)) (cash : Option F)
      → Shows (IsComplete (iter_position_rows payload)) ps
      → first_numeric_by_keyword_groups py balances cash_balance_keywords ≡ cash
      → Shows (IsReconciled balances payload) (reconciled_from cash ps)
  unfolding reconciled_from reconciled_with
  reconciled_from-Shows balances payload (inl e) cash k c = tt
  reconciled_from-Shows balances payload (inr ps) none k c = tt
  reconciled_from-Shows balances payload (inr ps) (some cash) k c = (k, c, refl, refl)

  built-IsReconciled :
      (balances payload : Json)
      → Shows
          (IsReconciled balances payload)
          (build_reconciled_paper_portfolio_snapshot py balances payload)
  unfolding build_reconciled_paper_portfolio_snapshot
  built-IsReconciled balances payload =
      reconciled_from-Shows balances payload (reconciled_positions py (iter_position_rows payload))
        _ (reconciled_positions-Shows (iter_position_rows payload)) refl

  reconciled-built :
      (balances payload : Json) (s : ReconciledSnapshot F)
      → IsReconciled balances payload s
      → build_reconciled_paper_portfolio_snapshot py balances payload ≡ inr s
  unfolding build_reconciled_paper_portfolio_snapshot reconciled_from reconciled_with
  reconciled-built balances payload s (k, c, b, t) =
      rw (complete-reconciled_positions k, c, b, t) refl

  -- A snapshot for paper commands is built exactly where every row of the positions that is a mapping
  -- shows a symbol, a quantity and a value, and the cash can be read: it holds the rows with a
  -- quantity, in their order, may buy for its cash and is worth the cash and the positions. An entry
  -- of the list that is no mapping is left out and refuses nothing.
  pub build_reconciled_paper_portfolio_snapshot_iff :
      (balances positions_payload : Json) (s : ReconciledSnapshot F)
      → (build_reconciled_paper_portfolio_snapshot py balances positions_payload ≡ inr s)
        ↔ IsReconciled balances positions_payload s
  build_reconciled_paper_portfolio_snapshot_iff balances positions_payload s = (
    λ built. rw built at (built-IsReconciled balances positions_payload),
    reconciled-built balances positions_payload s,
  )
