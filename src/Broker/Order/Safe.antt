-- ===== src/Broker/Order/Safe.antt =====
-- What is known of an order that reaches the broker.
use firstrade_platform.Prelude.{
  ℕ, zero, suc, text_eq_sound, ◌≡◌, refl, Bool, true, false, Option, none, some, List, [], ◌∷◌,
  ◌++◌, codes, is_some, ℤ, pos, negsuc, Float, fle, All, All-append_left, All-append_right, arith,
}
use firstrade_platform.Broker.Order.{
  StockOrderRequest, OrderError, first_refusal, word, of_int, shape_guards, live_guards, exceeds,
  is_same, validate_stock_order, PlaceOrder, placed, Client, has_known_words, call_of,
  place_checked, place_stock_order,
}

abbrev IsClear : Bool × OrderError → Type 0
IsClear g = g.0 ≡ false

first_refusal-All :
    (guards : List (Bool × OrderError)) → first_refusal guards ≡ none → All IsClear guards
unfolding first_refusal
first_refusal-All [] h = tt
first_refusal-All ((bad, e) ∷ guards) h = (ground arith, first_refusal-All guards (ground arith))

module _ {F : Type 0} ⦃d : Float F⦄ where
  open d use {nought, times}

  -- A number of shares, at least one, or a positive amount of a market buy that keeps to its cap.
  abbrev pub HasSafeAmount : StockOrderRequest F → PlaceOrder F → Option F → Type 0
  HasSafeAmount r call none = (call.notional ≡ false) × ((n : ℕ) × (call.quantity ≡ pos (suc n)))
  HasSafeAmount r call (some amount) =
      (call.notional ≡ true)
      × (call.price ≡ amount)
      × (fle amount nought ≡ false)
      × (exceeds amount r.max_notional_usd ≡ false)
      × (word r.side ≡ codes "buy")
      × (word r.price_type ≡ codes "market")

  -- The shares at the request's limit price keep to the cap.
  abbrev pub HasSafeEstimate : StockOrderRequest F → PlaceOrder F → Option F → Option F → Type 0
  HasSafeEstimate r call (some amount) limit = Unit
  HasSafeEstimate r call none none = ⊥
  HasSafeEstimate r call none (some price) =
      exceeds (times (of_int call.quantity) price) r.max_notional_usd ≡ false

  -- What a live order needs.
  abbrev pub IsPermitted : Bool → Client → Bool → StockOrderRequest F → PlaceOrder F → Type 0
  IsPermitted true client ack r call = Unit
  IsPermitted false client ack r call =
      (client.live_trading_enabled ≡ true)
      × (ack ≡ true)
      × HasSafeEstimate r call r.notional_usd r.limit_price

  abbrev with_amounts : StockOrderRequest F → Option ℤ → Option F → StockOrderRequest F
  with_amounts r q n = record r { quantity = q; notional_usd = n }

  shape-HasSafeAmount :
      (r : StockOrderRequest F) (dry : Bool) (q : Option ℤ) (n : Option F)
      → All IsClear (shape_guards (with_amounts r q n))
      → HasSafeAmount (with_amounts r q n) (call_of (with_amounts r q n) dry) n
  unfolding shape_guards call_of
  shape-HasSafeAmount r dry none none (a, (b, (c, h))) = cc
  shape-HasSafeAmount r dry (some (pos zero)) none (a, (b, (c, (e, h)))) = cc
  shape-HasSafeAmount r dry (some (pos (suc m))) none h = (refl, (m, refl))
  shape-HasSafeAmount r dry (some (negsuc m)) none (a, (b, (c, (e, h)))) = cc
  shape-HasSafeAmount r dry (some k) (some x) (a, (b, (c, h))) = cc
  shape-HasSafeAmount r dry none (some x) (a, (b, (c, (e, (f, (g, (k, (l, (m, (o, (q, h))))))))))) =
      (
        refl,
        refl,
        f,
        q,
        text_eq_sound (word r.side) (codes "buy") (ground arith),
        text_eq_sound (word r.price_type) (codes "market") (ground arith),
      )

  abbrev with_limit : StockOrderRequest F → Option ℤ → Option F → Option F → StockOrderRequest F
  with_limit r q n limit = record r { quantity = q; notional_usd = n; limit_price = limit }

  live-HasSafeEstimate :
      (r : StockOrderRequest F) (dry switch ack : Bool) (q : Option ℤ) (n limit : Option F)
      → is_same (is_some q) (is_some n) ≡ false
      → All IsClear (live_guards (with_limit r q n limit) switch ack)
      → HasSafeEstimate (with_limit r q n limit) (call_of (with_limit r q n limit) dry) n limit
  unfolding live_guards call_of
  live-HasSafeEstimate r dry switch ack none none limit e h = cc
  live-HasSafeEstimate r dry switch ack q (some x) limit e h = tt
  live-HasSafeEstimate r dry switch ack (some k) none none e (a, (b, (c, h))) = cc
  live-HasSafeEstimate r dry switch ack (some k) none (some price) e (a, (b, (c, (g, h)))) = g

  guards-IsPermitted :
      (client : Client) (r : StockOrderRequest F) (dry ack : Bool)
      → validate_stock_order r dry client.live_trading_enabled ack ≡ none
      → HasSafeAmount r (call_of r dry) r.notional_usd
        × IsPermitted dry client ack r (call_of r dry)
  unfolding validate_stock_order live_guards
  guards-IsPermitted client r true ack h = (
    shape-HasSafeAmount r true r.quantity r.notional_usd (first_refusal-All (shape_guards r) h),
    tt,
  )
  guards-IsPermitted client r false ack h =
      let live = live_guards r client.live_trading_enabled ack in
      let clear = first_refusal-All (shape_guards r ++ live) h in
      let shape = All-append_left IsClear (shape_guards r) live clear in
      let permitted = All-append_right IsClear (shape_guards r) live clear in
      (
        shape-HasSafeAmount r false r.quantity r.notional_usd shape,
        (
          ground (arith, permitted),
          ground (arith, permitted),
          live-HasSafeEstimate r false client.live_trading_enabled ack r.quantity r.notional_usd
              r.limit_price (unfold shape_guards in shape.1.1.0) permitted,
        ),
      )

  placed-checked :
      (m : Option OrderError) (client : Client) (r : StockOrderRequest F) (dry : Bool)
      {call : PlaceOrder F}
      → place_checked m client r dry ≡ placed call
      → (m ≡ none) × (call ≡ call_of r dry) × (client.connected ≡ true) × (has_known_words r ≡ true)
  unfolding place_checked
  placed-checked (some e) client r dry h = cc
  placed-checked none client r dry h = ground arith

  -- An order that reaches the broker is for at least one share, or it is a market buy for a positive
  -- amount that is not over its cap. If it is no dry run, live trading is switched on, the caller
  -- gave the acknowledgement, and an order for shares has a limit price, at which its value is not
  -- over the cap. The client is connected, and the flag that reaches the broker is the caller's.
  pub placed_order_is_safe :
      (client : Client) (r : StockOrderRequest F) (dry ack : Bool) {call : PlaceOrder F}
      → place_stock_order client r dry ack ≡ placed call
      → (call.dry_run ≡ dry)
        × (client.connected ≡ true)
        × HasSafeAmount r call r.notional_usd
        × IsPermitted dry client ack r call
  unfolding place_stock_order call_of
  placed_order_is_safe client r dry ack h =
      let (clear, same, connected, known) =
        placed-checked (validate_stock_order r dry client.live_trading_enabled ack) client r dry
          h in
      let safe = guards-IsPermitted client r dry ack clear in
      rw same (refl, connected, safe.0, safe.1)
