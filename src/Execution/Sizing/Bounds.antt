-- ===== src/Execution/Sizing/Bounds.antt =====
-- What limits the budget of a sell, the amount of a notional buy and the quantity of a share buy.
use firstrade_platform.Prelude.{
  ◌<◌, ◌≡◌, refl, ◌⊎◌, inl, inr, true, Option, none, some, Float, IsOrdered, flt, fle, fmin, fmax,
  fabs, fmin-le_left, fmin-le_right, le-fmax_left, fle_trans, le-fmin, arith, Bool-cases,
}
use firstrade_platform.Execution.Sizing.{
  at_least_nought, capped_sell_budget, sell_budget, BuyRequest, planned_buy_order_quantity,
  floor_quantity, apply_notional_cash_buffer, buffered_cash, should_top_up_existing_whole_share_buy,
}

module _ {F : Type 0} ⦃d : Float F⦄ where
  open d use {nought, times, minus, over, whole}

  abbrev pub UnderCap : Option F → F → Type 0
  UnderCap none b = Unit {0}
  UnderCap (some c) b = fle b (at_least_nought c) ≡ true

  module _ (o : IsOrdered F) where
    nought-le : (x : F) → fle nought (at_least_nought x) ≡ true
    unfolding at_least_nought
    nought-le x = le-fmax_left o nought x

    nought-le-demand : (delta x : F) → fle nought (fmax (at_least_nought (fabs delta)) x) ≡ true
    nought-le-demand delta x =
        let a = at_least_nought (fabs delta) in
        fle_trans o nought a _ (nought-le (fabs delta)) (le-fmax_left o a x)

    capped_sell_budget-bounds :
        (delta target notional : F) (cap : Option F)
        → fle nought notional ≡ true
        → (fle (capped_sell_budget delta target notional cap) notional ≡ true)
          × UnderCap cap (capped_sell_budget delta target notional cap)
          × (fle nought (capped_sell_budget delta target notional cap) ≡ true)
    unfolding capped_sell_budget
    capped_sell_budget-bounds delta target notional none h =
        let p =
          fmax (at_least_nought (fabs delta))
            (at_least_nought (minus notional (at_least_nought target))) in
        (fmin-le_right o p notional, tt, le-fmin o p notional nought (nought-le-demand delta _) h)
    capped_sell_budget-bounds delta target notional (some c) h =
        let p =
          fmax (at_least_nought (fabs delta))
            (at_least_nought (minus notional (at_least_nought target))) in
        let b = fmin p notional in
        let limit = at_least_nought c in
        (
          fle_trans o _ b _ (fmin-le_left o b limit) (fmin-le_right o p notional),
          fmin-le_right o b limit,
          le-fmin o b limit nought (le-fmin o p notional nought (nought-le-demand delta _) h)
              (nought-le c),
        )

    UnderCap-nought : (cap : Option F) → UnderCap cap nought
    UnderCap-nought none = tt
    UnderCap-nought (some c) = nought-le c

    -- A sell is never sized above what the sellable position is worth, nor above the order cap, and
    -- never below nothing.
    pub sell_budget-bounds :
        (delta target quantity price : F) (cap : Option F)
        → let b = sell_budget delta target quantity price cap in
          let worth = times (at_least_nought quantity) (at_least_nought price) in
          ((fle b worth ≡ true) ⊎ (b ≡ nought)) × UnderCap cap b × (fle nought b ≡ true)
    unfolding sell_budget
    sell_budget-bounds delta target quantity price cap =
        let worth = times (at_least_nought quantity) (at_least_nought price) in
        elim (Bool-cases (flt nought worth)) [
          | inl held ↦
              let (le, capped, nonneg) =
                capped_sell_budget-bounds delta target worth cap
                  (ground (arith, o.lt_irrefl nought, o.lt_trans nought worth nought)) in
              rw held (inl le, capped, nonneg)
          | inr empty ↦ rw empty (inr refl, UnderCap-nought cap, ground (arith, o.lt_irrefl nought))
        ]

    -- A notional order never exceeds the budget that it was sized from.
    pub apply_notional_cash_buffer-le :
        (budget cash : F)
        → fle (apply_notional_cash_buffer budget cash) (at_least_nought budget) ≡ true
    unfolding apply_notional_cash_buffer
    apply_notional_cash_buffer-le budget cash = ground (
      arith,
      o.lt_irrefl (at_least_nought budget),
      fmin-le_left o (at_least_nought budget)
          (buffered_cash (at_least_nought budget) (at_least_nought cash)),
    )

  fmax-fmax : (x : F) → fmax nought (fmax nought x) ≡ fmax nought x
  unfolding fmax
  fmax-fmax x = ground arith

  topped_up :
      (target current quantity price : F)
      → should_top_up_existing_whole_share_buy target current quantity (fmax nought price) ≡ true
      → let gap = fmax nought (minus target current) in
        let held_quantity = fmax nought quantity in
        (fle (d.decimal 1 0) held_quantity ≡ true)
        × (0 < whole held_quantity)
        × (flt nought gap ≡ true)
        × (flt gap (fmax nought price) ≡ true)
        × (fle
              (d.plus (d.of_ℕ (whole held_quantity)) (d.decimal 5 1))
              (over (fmax nought target) (fmax nought price))
            ≡ true)
  unfolding should_top_up_existing_whole_share_buy at_least_nought
  topped_up target current quantity price h = ground (arith, fmax-fmax price)

  -- Where a quantity is planned, the price is positive, and the quantity is what the budget pays for;
  -- or the budget pays for no share, and it is the single share of a top-up, which needs the
  -- permission, the price in buying power, at least one whole share in the account, a gap to the
  -- target that is positive and under the price, and a target of at least half a share more than
  -- the whole shares in the account.
  pub planned_buy_cases :
      (b : BuyRequest F)
      → 0 < planned_buy_order_quantity b
      → let price = fmax nought b.limit_price in
        let paid_for = whole (over (fmax nought b.buy_budget) price) in
        let held_quantity = fmax nought b.quantity in
        let gap = fmax nought (minus b.target_value b.current_value) in
        (flt nought price ≡ true)
        × ((planned_buy_order_quantity b ≡ paid_for)
            ⊎ ((planned_buy_order_quantity b ≡ 1)
                × (paid_for ≡ 0)
                × (b.allow_top_up ≡ true)
                × (fle price (fmax nought b.available_buying_power) ≡ true)
                × (fle (d.decimal 1 0) held_quantity ≡ true)
                × (0 < whole held_quantity)
                × (flt nought gap ≡ true)
                × (flt gap price ≡ true)
                × (fle
                      (d.plus (d.of_ℕ (whole held_quantity)) (d.decimal 5 1))
                      (over (fmax nought b.target_value) price)
                    ≡ true)))
  unfolding planned_buy_order_quantity at_least_nought floor_quantity
  planned_buy_cases b h =
      ground (arith, topped_up b.target_value b.current_value b.quantity b.limit_price)
