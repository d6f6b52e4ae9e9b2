-- ===== src/Paper/Tests.antt =====
-- The comparison at one small account.
use firstrade_platform.Prelude.{
  ℕ, Bool, true, Option, none, some, List, [], ◌∷◌, Text, codes, text_eq, ℤ, pos, cents_float,
  if◌then◌else◌,
}
use firstrade_platform.Paper.{
  PaperIntent, PaperPosition, PaperPortfolio, PaperProposal, ExposureEffect,
}

abbrev dollars_of : ℕ → ℤ
dollars_of n = cents_float.of_ℕ n

abbrev soxx_quote : Text → Option ℤ
soxx_quote symbol = if text_eq symbol (codes "SOXX") then some (dollars_of 20) else none

abbrev three_shares : PaperPortfolio ℤ
three_shares = record {
  positions =
      record {
        symbol = codes "soxx";
        quantity = some (dollars_of 3);
        market_value = some (dollars_of 60);
      }
      ∷ [];
  market_currency_cash = some (dollars_of 500);
  total_equity = some (dollars_of 560);
}

abbrev five_shares_wanted : PaperIntent ℤ
five_shares_wanted = record {
  schema_version = codes "firstrade.paper-execution-intent.v1";
  target_mode = codes "value";
  targets = some ((codes "soxx", some (dollars_of 100)) ∷ []);
  strategy_symbols = codes "SOXX" ∷ [];
}

abbrev two_more : PaperProposal ℤ
two_more = record {
  symbol = codes "SOXX";
  exposure_effect = ExposureEffect.increases;
  is_buy = true;
  quantity = dollars_of 2;
  reference_price = dollars_of 20;
  current_value = dollars_of 60;
  target_value = dollars_of 100;
  target_notional_delta = dollars_of 40;
  current_quantity = dollars_of 3;
}
