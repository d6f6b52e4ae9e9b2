-- ===== src/Paper.antt =====
-- application/paper_execution_command_consumer.py: how a paper command is compared with the account.
-- A number is `none` where `_finite` raises. A quote is the finite last price of a symbol, `none`
-- where the loader raises or the price is not finite.
pub mod Positions
pub mod Agreed
mod Tests
use firstrade_platform.Prelude.{
  Bool, true, false, not, ◌&&◌, ◌||◌, Option, none, some, List, [], ◌∷◌, Text, codes, text_eq,
  strip, upper, lower, one_of, is_empty, all, any, map, Dict, get, get_or, put, keys, values, Float,
  flt, fmax, fabs, sorted_set, if◌then◌else◌, is_some,
}

abbrev pub clean_symbol : Text → Text
clean_symbol symbol = upper (strip symbol)

-- `_symbols`: a list without blanks stands for the set.
unfoldable pub symbols : List Text → List Text
symbols [] = []
symbols (s ∷ rest) =
    let others = symbols rest in
    if is_empty (clean_symbol s) then others else clean_symbol s ∷ others

abbrev pub is_same_set : List Text → List Text → Bool
is_same_set xs ys = all (λ x. one_of x ys) xs && all (λ y. one_of y xs) ys

-- `command.intent`; no targets where they are no mapping, no symbols where they are no list.
pub record PaperIntent (F : Type 0) : Type 0 where
  pub schema_version : Text
  pub target_mode : Text
  pub targets : Option (List (Text × Option F))
  pub strategy_symbols : List Text

pub record PaperPosition (F : Type 0) : Type 0 where
  pub symbol : Text
  pub quantity : Option F
  pub market_value : Option F

pub record PaperPortfolio (F : Type 0) : Type 0 where
  pub positions : List (PaperPosition F)
  pub market_currency_cash : Option F
  pub total_equity : Option F

pub data ExposureEffect : Type 0 where
  reduces increases neutral : ExposureEffect

pub record PaperProposal (F : Type 0) : Type 0 where
  pub symbol : Text
  pub exposure_effect : ExposureEffect
  pub is_buy : Bool
  pub quantity : F
  pub reference_price : F
  pub current_value : F
  pub target_value : F
  pub target_notional_delta : F
  pub current_quantity : F

-- The command is refused unread, or its proposals and whether a position does not agree: the one
-- finding there is, whose repeats are dropped.
pub data Reconciliation (F : Type 0) : Type 0 where
  data_artifact_invalid : Reconciliation F
  compared : List (PaperProposal F) → Bool → Reconciliation F

-- What the loop over the positions has gathered.
pub record Gathered (F : Type 0) : Type 0 where
  pub mismatch : Bool
  pub quantities : Dict F
  pub current_values : Dict F

module _ {F : Type 0} where
  unfoldable pub with_target : Option (Dict F) → Text → Option F → Option (Dict F)
  with_target none symbol value = none
  with_target (some targets) symbol none = if is_empty symbol then some targets else none
  with_target (some targets) symbol (some value) =
      some (if is_empty symbol then targets else put targets symbol value)

  unfoldable pub read_targets : Option (Dict F) → List (Text × Option F) → Option (Dict F)
  read_targets targets [] = targets
  read_targets targets (entry ∷ rest) =
      read_targets (with_target targets (clean_symbol entry.0) entry.1) rest

abbrev pub nothing_gathered : {F : Type 0} → Gathered F
nothing_gathered = record { mismatch = false; quantities = []; current_values = [] }

module _ {F : Type 0} ⦃d : Float F⦄ where
  open d use {nought, decimal, of_ℕ, round, plus, minus, times, over}

  abbrev pub notional_tolerance : F
  notional_tolerance = decimal 1 2

  abbrev pub value_tolerance : F → F
  value_tolerance value = fmax (of_ℕ 1) (times (fabs value) (decimal 5 3))

  abbrev pub is_priced : Option F → Option F
  is_priced none = none
  is_priced (some price) = if flt nought price then some price else none

  unfoldable pub does_disagree : F → F → F → Bool
  does_disagree quantity recorded quoted =
      flt quantity (minus nought notional_tolerance)
      || flt recorded (minus nought notional_tolerance)
      || flt (value_tolerance quoted) (fabs (minus recorded quoted))

  abbrev pub noted : Gathered F → Gathered F
  noted g = record g { mismatch = true }

  unfoldable pub gather_priced : Text → Option F → Option F → Option F → Gathered F → Gathered F
  gather_priced symbol (some quantity) (some recorded) (some price) g =
      let quoted = times quantity price in
      record {
        mismatch = g.mismatch || does_disagree quantity recorded quoted;
        quantities = put g.quantities symbol (plus (get_or g.quantities symbol nought) quantity);
        current_values =
            put g.current_values symbol (plus (get_or g.current_values symbol nought) quoted);
      }
  gather_priced symbol (some quantity) (some recorded) none g = noted g
  gather_priced symbol (some quantity) none price g = noted g
  gather_priced symbol none recorded price g = noted g

  unfoldable pub gather_one :
      (Text → Option F) → List Text → PaperPosition F → Gathered F → Gathered F
  gather_one quote managed p g =
      let symbol = clean_symbol p.symbol in
      if one_of symbol managed
      then gather_priced symbol p.quantity p.market_value (is_priced (quote symbol)) g
      else noted g

  unfoldable pub gather :
      (Text → Option F) → List Text → List (PaperPosition F) → Gathered F → Gathered F
  gather quote managed [] g = g
  gather quote managed (p ∷ ps) g = gather quote managed ps (gather_one quote managed p g)

  -- `sum`, from the left
  unfoldable pub sum_of : F → List F → F
  sum_of total [] = total
  sum_of total (x ∷ xs) = sum_of (plus total x) xs

  unfoldable pub equity_disagrees : Option F → Option F → Dict F → Bool
  equity_disagrees (some cash) (some total) held =
      flt (value_tolerance total) (fabs (minus (plus cash (sum_of nought (values held))) total))
  equity_disagrees (some cash) none held = true
  equity_disagrees none total held = true

  unfoldable pub effect_of : F → F → ExposureEffect
  effect_of target current =
      if flt (fabs target) (minus (fabs current) notional_tolerance)
      then ExposureEffect.reduces
      else if flt (plus (fabs current) notional_tolerance) (fabs target)
      then ExposureEffect.increases
      else ExposureEffect.neutral

  unfoldable pub proposal_of : Gathered F → Text → F → F → F → PaperProposal F
  proposal_of g symbol target current price =
      let delta = minus target current in
      record {
        symbol = symbol;
        exposure_effect = effect_of target current;
        is_buy = flt nought delta;
        quantity = round (over (fabs delta) price) 8;
        reference_price = round price 8;
        current_value = round current 8;
        target_value = round target 8;
        target_notional_delta = round delta 8;
        current_quantity = round (get_or g.quantities symbol nought) 8;
      }

  abbrev pub is_small_change : F → F → Bool
  is_small_change target current = not (flt notional_tolerance (fabs (minus target current)))

  unfoldable pub with_proposal :
      Gathered F
      → Text
      → F
      → F
      → Option F
      → List (PaperProposal F) × Bool
      → List (PaperProposal F) × Bool
  with_proposal g symbol target current none rest = (rest.0, true)
  with_proposal g symbol target current (some price) rest =
      (proposal_of g symbol target current price ∷ rest.0, rest.1)

  -- The proposals, and whether a position does not agree.
  unfoldable pub propose :
      (Text → Option F) → Gathered F → Dict F → List Text → List (PaperProposal F) × Bool
  propose quote g targets [] = ([], g.mismatch)
  propose quote g targets (symbol ∷ rest) =
      let target = get_or targets symbol nought in
      let current = get_or g.current_values symbol nought in
      let others = propose quote g targets rest in
      if is_small_change target current
      then others
      else with_proposal g symbol target current (is_priced (quote symbol)) others

  unfoldable pub compare :
      (Text → Option F) → PaperPortfolio F → List Text → Dict F → Reconciliation F
  compare quote portfolio managed targets =
      let g = gather quote managed portfolio.positions nothing_gathered in
      let unequal =
        equity_disagrees portfolio.market_currency_cash portfolio.total_equity g.current_values in
      let (proposals, mismatch) = propose quote g targets (sorted_set managed) in
      compared proposals (mismatch || unequal)

  unfoldable pub does_misfit : List Text → List Text → Dict F → Bool
  does_misfit strategy managed targets =
      is_empty strategy
      || not (is_same_set strategy managed)
      || not (is_same_set (keys targets) strategy)
      || any (λ value. flt value nought) (values targets)

  unfoldable pub with_read_targets :
      (Text → Option F)
      → PaperPortfolio F
      → List Text
      → List Text
      → Option (Dict F)
      → Reconciliation F
  with_read_targets quote portfolio managed strategy none = data_artifact_invalid
  with_read_targets quote portfolio managed strategy (some targets) =
      if does_misfit strategy managed targets
      then data_artifact_invalid
      else compare quote portfolio strategy targets

  abbrev pub targets_in : Option (List (Text × Option F)) → Option (Dict F)
  targets_in none = none
  targets_in (some entries) = read_targets (some []) entries

  unfoldable pub has_value_schema : PaperIntent F → Bool
  has_value_schema intent =
      text_eq intent.schema_version (codes "firstrade.paper-execution-intent.v1")
      && text_eq intent.target_mode (codes "value")

  unfoldable pub reconcile :
      (Text → Option F) → PaperPortfolio F → List Text → PaperIntent F → Reconciliation F
  reconcile quote portfolio managed intent =
      if has_value_schema intent
      then with_read_targets quote portfolio (symbols managed) (symbols intent.strategy_symbols)
          (targets_in intent.targets)
      else data_artifact_invalid

-- `resolve_paper_execution_command_consumer_enabled`, which raises outside a dry run
unfoldable pub resolve_paper_execution_command_consumer_enabled : Text → Bool → Option Bool
resolve_paper_execution_command_consumer_enabled value dry_run_only =
    let enabled =
      one_of (lower (strip value))
        (codes "1" ∷ codes "true" ∷ codes "t" ∷ codes "yes" ∷ codes "y" ∷ codes "on" ∷ []) in
    if enabled && not dry_run_only then none else some enabled
