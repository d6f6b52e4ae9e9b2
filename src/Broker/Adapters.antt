-- ===== src/Broker/Adapters.antt =====
-- application/runtime_broker_adapters.py: the ports of a run over the broker's client.
pub mod Statuses
pub mod Cash
pub mod Reconciled
use firstrade_platform.Prelude.{
  ℕ, Bool, true, false, not, ◌&&◌, ◌||◌, Option, none, some, List, [], ◌∷◌, ◌++◌, Text, codes, Dict,
  strip, upper, one_of, is_empty, is_some, or_default, map, ℤ, pos, leb_ℤ, ltb_ℤ, Float, flt, fle,
  fmin, fmax, or_num, if◌then◌else◌,
}
use firstrade_platform.Execution.Orders.{Side, Amount, shares, dollars, Intent, Report}
use firstrade_platform.Broker.Payload.{
  Json, null, flag, text, number, mapping, listing, Members, no_member, member, Items, no_item,
  item, Reading, float_or_none,
}
use firstrade_platform.Broker.Fields.{
  text_or_empty, dict_of, iter_position_rows, get_first, first_numeric_by_keyword_groups,
  extract_broker_order_id, extract_broker_status_code, has_rejection_code,
}
use firstrade_platform.Broker.Order.{
  StockOrderRequest, PlaceOrder, Placement, refused, not_connected, unknown_word, placed, Client,
  place_stock_order,
}

-- `FirstradeBrokerAdapters`, and the package's `place_order`, which may raise.
pub record Adapters (F : Type 0) : Type 0 where
  pub client : Client
  pub account : Text
  pub strategy_symbols : List Text
  pub live_orders : Bool
  pub live_order_ack : Bool
  pub max_order_notional_usd : Option F
  pub cash_only_execution : Bool
  pub place_order : PlaceOrder F → Option Members

abbrev pub side_text : Side → Text
side_text Side.buy = codes "buy"
side_text Side.sell = codes "sell"

abbrev pub or_cap : {F : Type 0} → Option F → Option F → Option F
or_cap none cap = cap
or_cap (some own) cap = some own

-- 2xx, or no code
abbrev pub is_success_code : Option ℤ → Bool
is_success_code none = true
is_success_code (some code) = not (ltb_ℤ code (pos 200)) && ltb_ℤ code (pos 300)

abbrev pub is_code_400 : Option ℤ → Bool
is_code_400 none = false
is_code_400 (some code) = not (ltb_ℤ code (pos 400)) && not (ltb_ℤ (pos 400) code)

module _ {F : Type 0} where
  unfoldable pub request_of : Adapters F → Intent F → Amount F → StockOrderRequest F
  request_of a i (dollars usd) = record {
    account = a.account;
    symbol = i.symbol;
    side = side_text i.side;
    quantity = none;
    notional_usd = some usd;
    price_type = codes "market";
    duration = codes "day";
    limit_price = none;
    stop_price = none;
    max_notional_usd = or_cap i.max_notional_usd a.max_order_notional_usd;
  }
  request_of a i (shares n price) = record {
    account = a.account;
    symbol = i.symbol;
    side = side_text i.side;
    quantity = some (pos n);
    notional_usd = none;
    price_type = codes "limit";
    duration = codes "day";
    limit_price = some price;
    stop_price = none;
    max_notional_usd = or_cap i.max_notional_usd a.max_order_notional_usd;
  }

  unfoldable pub live_order_accepted : Reading F → Json → Bool
  live_order_accepted py raw =
      is_some (extract_broker_order_id py raw)
      && is_success_code (extract_broker_status_code py raw)

  unfoldable pub live_order_rejected : Reading F → Json → Bool
  live_order_rejected py raw =
      not (is_some (extract_broker_order_id py raw))
      && is_code_400 (extract_broker_status_code py raw)
      && has_rejection_code py raw

  unfoldable pub status_of : Reading F → Bool → Json → Text
  status_of py live_orders raw =
      if not live_orders
      then codes "previewed"
      else if live_order_accepted py raw
      then codes "submitted"
      else if live_order_rejected py raw
      then codes "rejected"
      else codes "unknown"

  abbrev pub entry_text : Reading F → Text × Json → Text × Text
  entry_text py entry = (entry.0, text_or_empty py entry.1)

  abbrev pub reported_quantity : ⦃d : Float F⦄ → Amount F → F
  reported_quantity ⦃d⦄ (shares n price) = d.of_ℕ n
  reported_quantity ⦃d⦄ (dollars usd) = d.of_ℕ 0

module _ {F : Type 0} ⦃d : Float F⦄ where
  -- The report on the package's answer. A missing identifier is an empty one here.
  unfoldable pub report_of : Reading F → Bool → Intent F → Members → Report F
  report_of py live_orders i raw = record {
    symbol = i.symbol;
    side = i.side;
    quantity = reported_quantity i.amount;
    status = status_of py live_orders (mapping raw);
    broker_order_id = or_default (extract_broker_order_id py (mapping raw)) [];
    raw_payload = map (entry_text py) (dict_of raw);
  }

  abbrev pub answered : Reading F → Bool → Intent F → Option Members → Option (Report F)
  answered py live_orders i none = none
  answered py live_orders i (some raw) = some (report_of py live_orders i raw)

  unfoldable pub after_placement :
      Reading F → Adapters F → Intent F → Placement F → Option (Report F)
  after_placement py a i (refused e) = none
  after_placement py a i not_connected = none
  after_placement py a i unknown_word = none
  after_placement py a i (placed call) = answered py a.live_orders i (a.place_order call)

  -- `submit`, the execution port; nothing where an exception is raised.
  unfoldable pub submit : Reading F → Adapters F → Intent F → Option (Report F)
  submit py a i =
      after_placement py a i
        (place_stock_order a.client (request_of a i i.amount) (not a.live_orders) a.live_order_ack)

abbrev pub total_equity_keywords : List (List Text)
total_equity_keywords =
    (codes "total" ∷ codes "value" ∷ [])
    ∷ (codes "total" ∷ codes "equity" ∷ [])
    ∷ (codes "account" ∷ codes "value" ∷ [])
    ∷ (codes "account" ∷ codes "equity" ∷ [])
    ∷ (codes "net" ∷ codes "liquid" ∷ [])
    ∷ (codes "liquidation" ∷ [])
    ∷ (codes "equity" ∷ [])
    ∷ []

abbrev pub buying_power_keywords : List (List Text)
buying_power_keywords =
    (codes "buying" ∷ codes "power" ∷ []) ∷ (codes "buying" ∷ []) ∷ (codes "bp" ∷ []) ∷ []

abbrev pub cash_balance_keywords : List (List Text)
cash_balance_keywords =
    (codes "cash" ∷ codes "balance" ∷ [])
    ∷ (codes "available" ∷ codes "cash" ∷ [])
    ∷ (codes "cash" ∷ codes "available" ∷ [])
    ∷ (codes "cash" ∷ [])
    ∷ []

pub record Position (F : Type 0) : Type 0 where
  pub symbol : Text
  pub quantity : F
  pub market_value : F
  pub average_cost : Option F

pub record PortfolioSnapshot (F : Type 0) : Type 0 where
  pub total_equity : F
  pub buying_power : F
  pub cash_balance : Option F
  pub positions : List (Position F)
  pub total_equity_source : Text
  pub broker_account_equity : Option F
  pub available_funds : Option F

-- `not value`
abbrev pub is_falsy : Json → Bool
is_falsy null = true
is_falsy (flag b) = not b
is_falsy (text t) = is_empty t
is_falsy (number s b n) = not b
is_falsy (mapping no_member) = true
is_falsy (mapping (member k v ms)) = false
is_falsy (listing no_item) = true
is_falsy (listing (item v xs)) = false

-- `normalize_symbol`, which raises for an empty one
unfoldable pub normalize_symbol : Text → Option Text
normalize_symbol symbol =
    let value = upper (strip symbol) in if is_empty value then none else some value

abbrev pub row_symbol : Dict Json → Json
row_symbol row = get_first row (codes "symbol" ∷ codes "ticker" ∷ codes "security_symbol" ∷ [])

abbrev pub is_unmanaged : List Text → Text → Bool
is_unmanaged managed symbol = not (is_empty managed) && not (one_of symbol managed)

module _ {F : Type 0} ⦃d : Float F⦄ where
  open d use {nought, plus}

  abbrev pub or_value : Option F → Option F → Option F
  or_value none y = y
  or_value (some x) y = some x

  abbrev pub least : Option F → F → F
  least none cash = cash
  least (some reported) cash = fmax nought (fmin cash reported)

  abbrev pub cash_power : Option F → Option F → Option F
  cash_power none reported = none
  cash_power (some cash) reported = some (least reported cash)

  unfoldable pub resolve_buying_power : Option F → Option F → Bool → Option F
  resolve_buying_power cash_balance reported cash_only_execution =
      if not cash_only_execution
      then or_value reported cash_balance
      else cash_power cash_balance reported

  abbrev pub with_positions : Option F → F → Bool → Text → Option (F × Text)
  with_positions none held prefer source = none
  with_positions (some cash) held prefer source =
      let combined = plus cash (fmax nought held) in
      if prefer || flt nought combined then some (combined, source) else none

  abbrev pub positive_or_none : F → Option F
  positive_or_none x = if flt nought x then some x else none

  abbrev pub equity_of : Option (F × Text) → Option F → Option F → F × Text
  equity_of (some found) balance held = found
  equity_of none (some balance) held = (balance, codes "balance_total")
  equity_of none none (some held) = (held, codes "positions")
  equity_of none none none = (nought, codes "unresolved")

  unfoldable pub resolve_total_equity :
      Reading F → Json → Option F → Option F → F → Bool → Bool → F × Text
  resolve_total_equity py balances cash buying_power held prefer cash_only =
      equity_of
        (if cash_only
          then with_positions cash held prefer (codes "cash_plus_positions")
          else with_positions buying_power held prefer (codes "buying_power_plus_positions"))
        (first_numeric_by_keyword_groups py balances total_equity_keywords) (positive_or_none held)

  -- `sum(...)`, from the left
  unfoldable pub market_value_of : F → List (Position F) → F
  market_value_of total [] = total
  market_value_of total (p ∷ ps) = market_value_of (plus total p.market_value) ps

  abbrev pub row_quantity : Reading F → Dict Json → Option F
  row_quantity py row =
      float_or_none py (get_first row (codes "quantity" ∷ codes "shares" ∷ codes "qty" ∷ []))

  abbrev pub row_value : Reading F → Dict Json → Option F
  row_value py row = float_or_none py (
      get_first row
        (codes "market_value" ∷ codes "marketValue" ∷ codes "value" ∷ codes "current_value" ∷ []))

  abbrev pub row_cost : Reading F → Dict Json → Option F
  row_cost py row = float_or_none py (
      get_first row
        (codes "average_cost" ∷ codes "avg_cost" ∷ codes "cost_basis" ∷ codes "averagePrice" ∷ []))

  abbrev pub position_of : Reading F → Dict Json → Text → Option F → List (Position F)
  position_of py row symbol none = []
  position_of py row symbol (some quantity) =
      record {
        symbol = symbol;
        quantity = quantity;
        market_value = or_num (row_value py row) nought;
        average_cost = row_cost py row;
      }
      ∷ []

  -- The position of a row whose symbol is not falsy; nothing where the symbol raises.
  abbrev pub named_position :
      Reading F → List Text → Dict Json → Option Text → Option (List (Position F))
  named_position py managed row none = none
  named_position py managed row (some symbol) =
      some (
        if is_unmanaged managed symbol then [] else position_of py row symbol (row_quantity py row))

  unfoldable pub row_position : Reading F → List Text → Dict Json → Option (List (Position F))
  row_position py managed row =
      if is_falsy (row_symbol row)
      then some []
      else named_position py managed row (normalize_symbol (text_or_empty py (row_symbol row)))

  abbrev pub joined :
      Option (List (Position F)) → Option (List (Position F)) → Option (List (Position F))
  joined none ps = none
  joined (some p) none = none
  joined (some p) (some ps) = some (p ++ ps)

  unfoldable pub positions_of :
      Reading F → List Text → List (Dict Json) → Option (List (Position F))
  positions_of py managed [] = some []
  positions_of py managed (row ∷ rows) =
      joined (row_position py managed row) (positions_of py managed rows)

  unfoldable pub snapshot_of :
      Reading F → Adapters F → Json → Option (List (Position F)) → Option (PortfolioSnapshot F)
  snapshot_of py a balances none = none
  snapshot_of py a balances (some positions) =
      let cash = first_numeric_by_keyword_groups py balances cash_balance_keywords in
      let reported = first_numeric_by_keyword_groups py balances buying_power_keywords in
      let power = resolve_buying_power cash reported a.cash_only_execution in
      let (total, source) =
        resolve_total_equity py balances cash power (market_value_of nought positions)
          (not (is_empty a.strategy_symbols)) a.cash_only_execution in
      some (record {
        total_equity = total;
        buying_power = or_num power nought;
        cash_balance = cash;
        positions = positions;
        total_equity_source = source;
        broker_account_equity = first_numeric_by_keyword_groups py balances total_equity_keywords;
        available_funds = reported;
      })

  unfoldable pub build_portfolio_snapshot :
      Reading F → Adapters F → Json → Json → Option (PortfolioSnapshot F)
  build_portfolio_snapshot py a balances positions_payload =
      snapshot_of py a balances
        (positions_of py a.strategy_symbols (iter_position_rows positions_payload))
