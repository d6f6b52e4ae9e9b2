-- ===== src/Broker/Order.antt =====
-- application/firstrade_client.py: the check of an order, and the request that reaches the broker.
pub mod Safe
use firstrade_platform.Prelude.{
  ℕ, zero, suc, Bool, true, false, not, ◌&&◌, ◌||◌, Option, none, some, List, [], ◌∷◌, ◌++◌, Text,
  codes, strip, upper, lower, text_eq, one_of, is_empty, is_some, or_default, ℤ, pos, negsuc, Float,
  flt, fle, or_num, if◌then◌else◌,
}

pub record StockOrderRequest (F : Type 0) : Type 0 where
  pub account : Text
  pub symbol : Text
  pub side : Text
  pub quantity : Option ℤ
  pub notional_usd : Option F
  pub price_type : Text
  pub duration : Text
  pub limit_price : Option F
  pub stop_price : Option F
  pub max_notional_usd : Option F

-- The messages of `FirstradeSafetyError`.
pub data OrderError : Type 0 where
  empty_symbol bad_side quantity_or_notional bad_quantity bad_notional bad_cap bad_price_type :
      OrderError
  bad_duration notional_sell notional_price_type notional_over_cap : OrderError
  bad_limit_price bad_stop_price live_blocked no_acknowledgement : OrderError
  no_limit_price estimate_over_cap : OrderError

-- Each guard in its order, with its error.
unfoldable pub first_refusal : List (Bool × OrderError) → Option OrderError
first_refusal [] = none
first_refusal ((bad, e) ∷ guards) = let rest = first_refusal guards in if bad then some e else rest

abbrev pub sides : List Text
sides = codes "buy" ∷ codes "sell" ∷ []

abbrev pub price_types : List Text
price_types = codes "market" ∷ codes "limit" ∷ codes "stop" ∷ codes "stop_limit" ∷ []

abbrev pub durations : List Text
durations = codes "day" ∷ codes "day_ext" ∷ codes "overnight" ∷ codes "gt90" ∷ []

-- `str(value or "").strip().lower()`
abbrev pub word : Text → Text
word s = lower (strip s)

abbrev pub is_same : Bool → Bool → Bool
is_same true b = b
is_same false b = not b

abbrev pub not_positive_int : Option ℤ → Bool
not_positive_int none = false
not_positive_int (some (pos zero)) = true
not_positive_int (some (pos (suc n))) = false
not_positive_int (some (negsuc n)) = true

abbrev pub of_int : {F : Type 0} ⦃d : Float F⦄ → ℤ → F
of_int ⦃d⦄ (pos n) = d.of_ℕ n
of_int ⦃d⦄ (negsuc n) = d.minus d.nought (d.of_ℕ (suc n))

module _ {F : Type 0} ⦃d : Float F⦄ where
  open d use {nought, times}

  -- `_coerce_positive_float` raises
  abbrev pub not_positive : Option F → Bool
  not_positive none = false
  not_positive (some x) = fle x nought

  abbrev pub exceeds : F → Option F → Bool
  exceeds x none = false
  exceeds x (some cap) = flt cap x

  abbrev pub exceeds_cap : Option F → Option F → Bool
  exceeds_cap none cap = false
  exceeds_cap (some x) cap = exceeds x cap

  -- `int(request.quantity) * float(request.limit_price)` is over the cap
  abbrev pub estimate_exceeds : Option ℤ → Option F → Option F → Bool
  estimate_exceeds (some n) (some price) cap = exceeds (times (of_int n) price) cap
  estimate_exceeds none price cap = false
  estimate_exceeds (some n) none cap = false

  unfoldable pub shape_guards : StockOrderRequest F → List (Bool × OrderError)
  shape_guards r =
      (is_empty (upper (strip r.symbol)), empty_symbol)
      ∷ (not (one_of (word r.side) sides), bad_side)
      ∷ (is_same (is_some r.quantity) (is_some r.notional_usd), quantity_or_notional)
      ∷ (not_positive_int r.quantity, bad_quantity)
      ∷ (not_positive r.notional_usd, bad_notional)
      ∷ (not_positive r.max_notional_usd, bad_cap)
      ∷ (not (one_of (word r.price_type) price_types), bad_price_type)
      ∷ (not (one_of (word r.duration) durations), bad_duration)
      ∷ (is_some r.notional_usd && not (text_eq (word r.side) (codes "buy")), notional_sell)
      ∷ (
        is_some r.notional_usd && not (text_eq (word r.price_type) (codes "market")),
        notional_price_type,
      )
      ∷ (exceeds_cap r.notional_usd r.max_notional_usd, notional_over_cap)
      ∷ (
        one_of (word r.price_type) (codes "limit" ∷ codes "stop_limit" ∷ [])
            && not_positive r.limit_price,
        bad_limit_price,
      )
      ∷ (
        one_of (word r.price_type) (codes "stop" ∷ codes "stop_limit" ∷ [])
            && not_positive r.stop_price,
        bad_stop_price,
      )
      ∷ []

  unfoldable pub live_guards : StockOrderRequest F → Bool → Bool → List (Bool × OrderError)
  live_guards r live_trading_enabled explicit_live_ack =
      (not live_trading_enabled, live_blocked)
      ∷ (not explicit_live_ack, no_acknowledgement)
      ∷ (is_some r.quantity && not (is_some r.limit_price), no_limit_price)
      ∷ (estimate_exceeds r.quantity r.limit_price r.max_notional_usd, estimate_over_cap)
      ∷ []

  unfoldable pub validate_stock_order : StockOrderRequest F → Bool → Bool → Bool → Option OrderError
  validate_stock_order r dry_run live_trading_enabled explicit_live_ack = first_refusal (
      if dry_run
      then shape_guards r
      else shape_guards r ++ live_guards r live_trading_enabled explicit_live_ack)

-- The arguments of the package's `place_order`.
pub record PlaceOrder (F : Type 0) : Type 0 where
  pub account : Text
  pub symbol : Text
  pub price_type : Text
  pub order_type : Text
  pub duration : Text
  pub quantity : ℤ
  pub price : F
  pub stop_price : Option F
  pub dry_run : Bool
  pub notional : Bool

-- The check refuses, the client is not connected, a word of the request is in no table, or the
-- request goes to the broker.
pub data Placement (F : Type 0) : Type 0 where
  refused : OrderError → Placement F
  not_connected : Placement F
  unknown_word : Placement F
  placed : PlaceOrder F → Placement F

-- What `FirstradeBrokerClient` keeps that an order reads.
pub record Client : Type 0 where
  pub connected : Bool
  pub live_trading_enabled : Bool

abbrev pub price_of : {F : Type 0} ⦃d : Float F⦄ → StockOrderRequest F → F
price_of ⦃d⦄ r = or_default r.notional_usd (or_num r.limit_price d.nought)

module _ {F : Type 0} ⦃d : Float F⦄ where
  -- The words are looked up in lower case, but not stripped.
  unfoldable pub has_known_words : StockOrderRequest F → Bool
  has_known_words r =
      one_of (lower r.price_type) price_types
      && one_of (lower r.duration) durations
      && one_of (lower r.side) sides

  unfoldable pub call_of : StockOrderRequest F → Bool → PlaceOrder F
  call_of r dry_run = record {
    account = r.account;
    symbol = upper r.symbol;
    price_type = lower r.price_type;
    order_type = lower r.side;
    duration = lower r.duration;
    quantity = or_default r.quantity (pos 0);
    price = price_of r;
    stop_price = r.stop_price;
    dry_run = dry_run;
    notional = is_some r.notional_usd;
  }

  unfoldable pub place_checked :
      Option OrderError → Client → StockOrderRequest F → Bool → Placement F
  place_checked (some e) client r dry_run = refused e
  place_checked none client r dry_run =
      if not client.connected
      then not_connected
      else if not (has_known_words r)
      then unknown_word
      else placed (call_of r dry_run)

  unfoldable pub place_stock_order : Client → StockOrderRequest F → Bool → Bool → Placement F
  place_stock_order client r dry_run explicit_live_ack =
      place_checked (validate_stock_order r dry_run client.live_trading_enabled explicit_live_ack)
        client r dry_run
