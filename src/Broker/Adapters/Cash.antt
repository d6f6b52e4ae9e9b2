-- ===== src/Broker/Adapters/Cash.antt =====
-- How much a cash account may buy for.
use firstrade_platform.Prelude.{
  ◌≡◌, true, Option, none, some, List, Float, IsOrdered, fle, fmin, fmax, or_num, fmin-le_left,
  le-fmax_left, le-fmax_right, fle_trans, arith,
}
use firstrade_platform.Broker.Payload.{Json, Reading}
use firstrade_platform.Broker.Fields.{iter_position_rows}
use firstrade_platform.Broker.Adapters.{
  Adapters, Position, PortfolioSnapshot, least, resolve_buying_power, snapshot_of, positions_of,
  build_portfolio_snapshot,
}

module _ {F : Type 0} ⦃d : Float F⦄ (o : IsOrdered F) where
  open d use {nought}

  -- Nothing is bought for more than the cash, and for nothing where there is none.
  abbrev pub IsCovered : Option F → F → Type 0
  IsCovered none power = fle power nought ≡ true
  IsCovered (some cash) power = fle power (fmax nought cash) ≡ true

  fmax-le : (a b c : F) → fle a c ≡ true → fle b c ≡ true → fle (fmax a b) c ≡ true
  unfolding fmax
  fmax-le a b c p q = ground arith

  least-le : (cash : F) (reported : Option F) → fle (least reported cash) (fmax nought cash) ≡ true
  least-le cash none = le-fmax_right o nought cash
  least-le cash (some x) =
      fmax-le nought (fmin cash x) (fmax nought cash) (le-fmax_left o nought cash) (
        fle_trans o (fmin cash x) cash (fmax nought cash) (fmin-le_left o cash x)
          (le-fmax_right o nought cash))

  resolved-IsCovered :
      (cash reported : Option F)
      → IsCovered cash (or_num (resolve_buying_power cash reported true) nought)
  unfolding resolve_buying_power or_num
  resolved-IsCovered none reported = ground (arith, o.lt_irrefl nought)
  resolved-IsCovered (some cash) reported =
      ground (arith, least-le cash reported, le-fmax_left o nought cash)

  abbrev pub IsCoveredIfBuilt : Option (PortfolioSnapshot F) → Type 0
  IsCoveredIfBuilt none = Unit
  IsCoveredIfBuilt (some s) = IsCovered s.cash_balance s.buying_power

  snapshot_of-IsCovered :
      (py : Reading F) (a : Adapters F) (balances : Json) (positions : Option (List (Position F)))
      → a.cash_only_execution ≡ true
      → IsCoveredIfBuilt (snapshot_of py a balances positions)
  unfolding snapshot_of
  snapshot_of-IsCovered py a balances none h = tt
  snapshot_of-IsCovered py a balances (some positions) h = simp h (resolved-IsCovered _ _)

  -- The snapshot of a cash account, whatever the payloads of the broker, shows a buying power of at
  -- most its cash or zero, and of at most zero where no cash balance can be read, if floats are
  -- ordered.
  pub build_portfolio_snapshot-IsCovered :
      (py : Reading F) (a : Adapters F) (balances positions_payload : Json)
      → a.cash_only_execution ≡ true
      → IsCoveredIfBuilt (build_portfolio_snapshot py a balances positions_payload)
  unfolding build_portfolio_snapshot
  build_portfolio_snapshot-IsCovered py a balances positions_payload h =
      snapshot_of-IsCovered py a balances
        (positions_of py a.strategy_symbols (iter_position_rows positions_payload)) h
