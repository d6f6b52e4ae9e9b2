-- ===== src/Broker/Adapters/Reconciled.antt =====
-- application/runtime_broker_adapters.py: the snapshot that the consumer of paper commands takes.
pub mod Complete
use firstrade_platform.Prelude.{
  is_nought, Bool, not, ◌&&◌, Option, none, some, List, [], ◌∷◌, Text, Dict, Float, flt, ◌⊎◌, inl,
  inr, if◌then◌else◌,
}
use firstrade_platform.Broker.Payload.{Json, Reading}
use firstrade_platform.Broker.Fields.{
  text_or_empty, iter_position_rows, first_numeric_by_keyword_groups,
}
use firstrade_platform.Broker.Adapters.{
  Position, is_falsy, row_symbol, normalize_symbol, row_quantity, row_value, row_cost,
  market_value_of, cash_balance_keywords,
}

-- Why an account is not reconciled.
pub data ReconcileError : Type 0 where
  without_symbol : ReconcileError
  blank_symbol : ReconcileError
  without_evidence : Text → ReconcileError
  without_cash : ReconcileError

pub record ReconciledSnapshot (F : Type 0) : Type 0 where
  pub total_equity : F
  pub cash_balance : F
  pub buying_power : F
  pub positions : List (Position F)

module _ {F : Type 0} ⦃d : Float F⦄ where
  open d use {nought, plus}

  unfoldable pub evidence_with :
      Reading F → Dict Json → Text → Option F → Option F → ReconcileError ⊎ Position F
  evidence_with py row symbol none value = inl (without_evidence symbol)
  evidence_with py row symbol (some quantity) none = inl (without_evidence symbol)
  evidence_with py row symbol (some quantity) (some value) = inr (record {
    symbol = symbol;
    quantity = quantity;
    market_value = value;
    average_cost = row_cost py row;
  })

  unfoldable pub evidence_for : Reading F → Dict Json → Option Text → ReconcileError ⊎ Position F
  evidence_for py row none = inl blank_symbol
  evidence_for py row (some symbol) =
      evidence_with py row symbol (row_quantity py row) (row_value py row)

  -- The position that a row is evidence of, a closed one included.
  unfoldable pub row_evidence : Reading F → Dict Json → ReconcileError ⊎ Position F
  row_evidence py row =
      if is_falsy (row_symbol row)
      then inl without_symbol
      else evidence_for py row (normalize_symbol (text_or_empty py (row_symbol row)))

  unfoldable pub with_evidence :
      ReconcileError ⊎ Position F
      → ReconcileError ⊎ List (Position F)
      → ReconcileError ⊎ List (Position F)
  with_evidence (inl e) rest = inl e
  with_evidence (inr p) (inl e) = inl e
  with_evidence (inr p) (inr ps) = inr (if is_nought p.quantity then ps else p ∷ ps)

  unfoldable pub reconciled_positions :
      Reading F → List (Dict Json) → ReconcileError ⊎ List (Position F)
  reconciled_positions py [] = inr []
  reconciled_positions py (row ∷ rows) =
      with_evidence (row_evidence py row) (reconciled_positions py rows)

  unfoldable pub reconciled_with :
      List (Position F) → Option F → ReconcileError ⊎ ReconciledSnapshot F
  reconciled_with ps none = inl without_cash
  reconciled_with ps (some cash) = inr (record {
    total_equity = plus cash (market_value_of nought ps);
    cash_balance = cash;
    buying_power = cash;
    positions = ps;
  })

  unfoldable pub reconciled_from :
      Option F → ReconcileError ⊎ List (Position F) → ReconcileError ⊎ ReconciledSnapshot F
  reconciled_from cash (inl e) = inl e
  reconciled_from cash (inr ps) = reconciled_with ps cash

  unfoldable pub build_reconciled_paper_portfolio_snapshot :
      Reading F → Json → Json → ReconcileError ⊎ ReconciledSnapshot F
  build_reconciled_paper_portfolio_snapshot py balances positions_payload =
      reconciled_from (first_numeric_by_keyword_groups py balances cash_balance_keywords)
        (reconciled_positions py (iter_position_rows positions_payload))
