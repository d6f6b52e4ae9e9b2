-- ===== src/Execution/Compatibility.antt =====
-- application/execution_service.py: `_apply_small_account_whole_share_compatibility`, which keeps or
-- buys single whole shares in an account that is too small for the targets.
pub mod Raises
use firstrade_platform.Prelude.{
  Bool, true, false, not, ◌&&◌, Option, none, some, List, [], ◌∷◌, ◌++◌, map, Text, Dict, get, put,
  get_or, keys, rekey, unique, symbol_key, one_of, Float, flt, fle, fmax, or_num, keep, is_empty,
  if◌then◌else◌,
}
use firstrade_platform.Execution.Plan.{Allocation, Portfolio, Plan, Note}
use firstrade_platform.Execution.Sizing.{
  Ratios, limit_buy_price, should_retain_existing_whole_share, should_bootstrap_whole_share_buy,
  quote_price,
}
use firstrade_platform.Execution.SafeHaven.{listed_candidates, safe_haven_cash_symbols}

-- What `apply_small_account_cash_compatibility` of the shared kit returns.
pub record CashCompatibility (F : Type 0) : Type 0 where
  pub targets : Dict F
  pub whole_share_substituted_symbols : List Text
  pub safe_haven_cash_substituted_symbols : List Text
  pub cash_substitution_notes : List Note

-- What the loop over the candidates builds.
pub record Adjusted (F : Type 0) : Type 0 where
  pub targets : Dict F
  pub retained_symbols : List Text
  pub bootstrap_symbols : List Text

pub data Adjustment : Type 0 where
  leave retain bootstrap : Adjustment

-- The amounts of one candidate, none of them negative but `held`.
pub record Candidate (F : Type 0) : Type 0 where
  pub target_value : F
  pub price : F
  pub limit_price : F
  pub held : F
  pub buying_power : F

-- the values of the call that all candidates share
pub record Setting (F : Type 0) : Type 0 where
  pub ratios : Ratios F
  pub premium : F
  pub premium_by_symbol : Dict F
  pub prices : Dict F
  pub quantities : Dict F
  pub buying_power : F

unfoldable pub compatibility_candidates {ℓ} :
    {F : Type ℓ} → List Text → List Text → Dict F → List Text
compatibility_candidates listed havens targets =
    if is_empty listed
    then keep (λ s. not (one_of s havens)) (map symbol_key (keys targets))
    else listed

-- a list that replaces the old one where it is not empty
abbrev pub if_any : List Text → List Text → List Text
if_any old new = if is_empty new then old else new

module _ {F : Type 0} ⦃d : Float F⦄ where
  open d use {nought, minus, decimal}

  unfoldable pub candidate_prices : (Text → Option F) → Dict F → List Text → Dict F
  candidate_prices get_quote prices [] = prices
  candidate_prices get_quote prices (s ∷ ss) =
      candidate_prices get_quote
        (elim (quote_price get_quote s) [ none ↦ prices | some p ↦ put prices s p ]) ss

  -- an affordable first share of a position that the account does not hold
  unfoldable pub may_bootstrap : Ratios F → Text → Candidate F → Bool
  may_bootstrap r symbol c =
      fle c.held nought
      && (flt nought c.target_value && flt c.target_value c.limit_price)
      && (flt nought c.limit_price && fle c.limit_price c.buying_power)
      && should_bootstrap_whole_share_buy r symbol c.target_value c.limit_price

  unfoldable pub adjustment : Ratios F → Text → Candidate F → Adjustment
  adjustment r symbol c =
      let first_share = if may_bootstrap r symbol c then bootstrap else leave in
      if not (should_retain_existing_whole_share r symbol c.target_value c.price c.held)
      then first_share
      else if flt nought c.price
          && (flt nought c.target_value && flt c.target_value c.price)
          && fle (decimal 1 0) c.held
      then retain
      else first_share

  unfoldable pub candidate_of : Setting F → Dict F → Text → Candidate F
  candidate_of e targets symbol =
      let price = fmax nought (get_or e.prices symbol nought) in
      record {
        target_value = fmax nought (get_or targets symbol nought);
        price = price;
        limit_price =
            if flt nought price
            then limit_buy_price symbol price e.premium e.premium_by_symbol
            else nought;
        held = get_or e.quantities symbol nought;
        buying_power = e.buying_power;
      }

  unfoldable pub apply_adjustment : Adjustment → Text → Candidate F → Adjusted F → Adjusted F
  apply_adjustment leave symbol c a = a
  apply_adjustment retain symbol c a = record a {
    targets = put a.targets symbol c.price;
    retained_symbols = a.retained_symbols ++ symbol ∷ [];
  }
  apply_adjustment bootstrap symbol c a = record a {
    targets = put a.targets symbol c.limit_price;
    bootstrap_symbols = a.bootstrap_symbols ++ symbol ∷ [];
  }

  unfoldable pub adjust_one : Setting F → Text → Adjusted F → Adjusted F
  adjust_one e symbol a =
      let c = candidate_of e a.targets symbol in
      apply_adjustment (adjustment e.ratios symbol c) symbol c a

  unfoldable pub adjust_all : Setting F → List Text → Adjusted F → Adjusted F
  adjust_all e [] a = a
  adjust_all e (s ∷ ss) a = adjust_all e ss (adjust_one e s a)

  unfoldable pub record_compatibility :
      Allocation F → Adjusted F → CashCompatibility F → Allocation F
  record_compatibility allocation a k = record allocation {
    targets = k.targets;
    whole_share_cash_notes = k.cash_substitution_notes;
    whole_share_substituted =
        if_any allocation.whole_share_substituted k.whole_share_substituted_symbols;
    safe_haven_substituted =
        if_any allocation.safe_haven_substituted k.safe_haven_cash_substituted_symbols;
    whole_share_retained = if_any allocation.whole_share_retained (unique a.retained_symbols);
    whole_share_bootstrap = if_any allocation.whole_share_bootstrap (unique a.bootstrap_symbols);
  }

  -- `max(0.0, liquid_cash - reserved_cash)`
  unfoldable pub estimated_buying_power : Plan F → F
  estimated_buying_power plan = fmax nought (
      minus (or_num plan.portfolio.liquid_cash nought) (or_num plan.execution.reserved_cash nought))

  -- The kit's function takes the targets, the prices, the candidates and the safe havens.
  unfoldable pub apply_small_account_whole_share_compatibility :
      (Dict F → Dict F → List Text → List Text → CashCompatibility F)
      → Ratios F
      → (Text → Option F)
      → F
      → Dict F
      → Plan F
      → Plan F
  apply_small_account_whole_share_compatibility kit r get_quote premium by_symbol plan =
      let allocation = plan.allocation in
      let havens = safe_haven_cash_symbols plan.portfolio allocation in
      let candidates =
        compatibility_candidates (listed_candidates allocation) havens allocation.targets in
      let prices = candidate_prices get_quote [] candidates in
      let setting : Setting F = record {
        ratios = r;
        premium = premium;
        premium_by_symbol = by_symbol;
        prices = prices;
        quantities = rekey symbol_key plan.portfolio.quantities;
        buying_power = estimated_buying_power plan;
      } in
      let a = adjust_all setting candidates (record {
        targets = rekey symbol_key allocation.targets;
        retained_symbols = [];
        bootstrap_symbols = [];
      }) in
      record plan {
        allocation = record_compatibility allocation a (kit a.targets prices candidates havens);
      }
