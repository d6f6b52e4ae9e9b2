-- ===== src/Execution/Sizing.antt =====
-- Prices, budgets and quantities of single orders. Everything here is pure.
pub mod Bounds
use firstrade_platform.Prelude.{
  ℕ, ◌+◌, Bool, true, false, not, ◌&&◌, ◌||◌, Option, none, some, List, [], ◌∷◌, Text, codes, Dict,
  get, symbol_key, one_of, Float, flt, fle, fmin, fmax, fabs, or_num, if◌then◌else◌, ltb, get_or,
}

-- The tables of the shared kit, merged with the entries of this platform.
pub record Ratios (F : Type 0) : Type 0 where
  pub retention_symbols : List Text
  pub kit_retention_ratio : Dict F
  pub kit_bootstrap_ratio : Dict F

-- The amounts that `_planned_buy_order_quantity` sizes an order by.
pub record BuyRequest (F : Type 0) : Type 0 where
  pub target_value : F
  pub current_value : F
  pub quantity : F
  pub buy_budget : F
  pub available_buying_power : F
  pub limit_price : F
  pub allow_top_up : Bool

module _ {F : Type 0} ⦃d : Float F⦄ where
  open d use {nought, decimal, of_ℕ, whole, round, plus, minus, times, over}

  -- `{**KIT_TABLE, "SOXX": 0.90}`
  unfoldable pub with_soxx : Dict F → Text → Option F
  with_soxx table symbol =
      if one_of symbol (codes "SOXX" ∷ []) then some (decimal 90 2) else get table symbol

  unfoldable pub limit_buy_premium_for_symbol : Text → F → Dict F → F
  limit_buy_premium_for_symbol symbol fallback premium_by_symbol =
      elim (get premium_by_symbol (symbol_key symbol)) [
        | none ↦ fallback
        | some premium ↦ if flt nought premium then premium else fallback
      ]

  unfoldable pub limit_buy_price : Text → F → F → Dict F → F
  limit_buy_price symbol price premium by_symbol =
      round (times price (limit_buy_premium_for_symbol symbol premium by_symbol)) 2

  unfoldable pub floor_quantity : F → ℕ
  floor_quantity quantity = whole quantity

  -- `max(0.0, x)`
  unfoldable pub at_least_nought : F → F
  at_least_nought x = fmax nought x

  -- the last lines of `_sell_budget`, for a position that is worth something
  unfoldable pub capped_sell_budget : F → F → F → Option F → F
  capped_sell_budget delta_value target_value sellable_notional cap =
      let value_delta_budget = at_least_nought (fabs delta_value) in
      let position_budget =
        at_least_nought (minus sellable_notional (at_least_nought target_value)) in
      let budget = fmin (fmax value_delta_budget position_budget) sellable_notional in
      elim cap [ none ↦ budget | some c ↦ fmin budget (at_least_nought c) ]

  unfoldable pub sell_budget : F → F → F → F → Option F → F
  sell_budget delta_value target_value sellable_quantity price cap =
      let sellable_notional = times (at_least_nought sellable_quantity) (at_least_nought price) in
      if fle sellable_notional nought
      then nought
      else capped_sell_budget delta_value target_value sellable_notional cap

  unfoldable pub should_retain_existing_whole_share : Ratios F → Text → F → F → F → Bool
  should_retain_existing_whole_share r symbol target price held =
      let key = symbol_key symbol in
      let quote_price = at_least_nought price in
      if flt nought held
        && flt nought target
        && flt nought quote_price
        && fle (times quote_price (decimal 85 2)) target
      then true
      else if one_of key r.retention_symbols
      then true
      else elim (with_soxx r.kit_retention_ratio key) [
        | none ↦ false
        | some ratio ↦
            if fle quote_price nought then false else fle (times quote_price ratio) target
      ]

  unfoldable pub should_bootstrap_whole_share_buy : Ratios F → Text → F → F → Bool
  should_bootstrap_whole_share_buy r symbol target_value limit_price =
      elim (with_soxx r.kit_bootstrap_ratio (symbol_key symbol)) [
        | none ↦ false
        | some ratio ↦
            let price = at_least_nought limit_price in
            if fle price nought
            then false
            else fle (times price ratio) (at_least_nought target_value)
      ]

  unfoldable pub should_top_up_existing_whole_share_buy : F → F → F → F → Bool
  should_top_up_existing_whole_share_buy target_value current_value quantity limit_price =
      let held_quantity = at_least_nought quantity in
      let price = at_least_nought limit_price in
      let remaining_value = at_least_nought (minus target_value current_value) in
      let held_whole_shares = whole held_quantity in
      if flt held_quantity (decimal 1 0) || fle price nought
      then false
      else if fle remaining_value nought || fle price remaining_value
      then false
      else if not (ltb 0 held_whole_shares)
      then false
      else fle (plus (of_ℕ held_whole_shares) (decimal 5 1))
          (over (at_least_nought target_value) price)

  unfoldable pub planned_buy_order_quantity : BuyRequest F → ℕ
  planned_buy_order_quantity b =
      let price = at_least_nought b.limit_price in
      let planned_quantity = floor_quantity (over (at_least_nought b.buy_budget) price) in
      if fle price nought
      then 0
      else if ltb 0 planned_quantity
      then planned_quantity
      else if not b.allow_top_up
      then 0
      else if flt (at_least_nought b.available_buying_power) price
      then 0
      else if should_top_up_existing_whole_share_buy b.target_value b.current_value b.quantity price
      then 1
      else 0

  -- `_quote_price`: what the market data port raises and a price that is not positive are no quote.
  unfoldable pub quote_price : (Text → Option F) → Text → Option F
  quote_price get_quote symbol = elim (get_quote symbol) [
    | none ↦ none
    | some price ↦ if flt nought price then some price else none
  ]

  -- `MIN_NOTIONAL_BUY_USD`
  abbrev pub min_notional_buy_usd : F
  min_notional_buy_usd = decimal 1 0

  -- the cash that a notional order may use, in whole cents
  unfoldable pub buffered_cash : F → F → F
  buffered_cash budget available =
      let floored =
        over (of_ℕ (whole (times (times available (decimal 98 2)) (decimal 100 0))))
          (decimal 100 0) in
      if fle min_notional_buy_usd budget && fle min_notional_buy_usd available
      then fmax floored min_notional_buy_usd
      else floored

  unfoldable pub apply_notional_cash_buffer : F → F → F
  apply_notional_cash_buffer buy_budget investable_cash =
      let budget = at_least_nought buy_budget in
      let available = at_least_nought investable_cash in
      if flt (plus budget (decimal 5 3)) available
      then budget
      else fmin budget (buffered_cash budget available)
