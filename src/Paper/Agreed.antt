-- ===== src/Paper/Agreed.antt =====
-- What a reconciliation without findings says of the account.

use firstrade_platform.Prelude.{
  values, fabs, fle, ◌≡◌, true, false, Option, some, List, [], ◌∷◌, Text, Float, get_or, Dict,
}
use firstrade_platform.Paper.{PaperPortfolio, Reconciliation, data_artifact_invalid, compared}
use firstrade_platform.Paper.Positions.{tolerance, AllAgreed, worth}

module _ {F : Type 0} ⦃d : Float F⦄ (quote : Text → Option F) (managed : List Text) where
  open d use {nought}

  -- the sum of a list, from the left
  unfoldable pub summed : F → List F → F
  summed total [] = total
  summed total (x ∷ xs) = summed (d.plus total x) xs

  -- The cash and the equity are known; with the worth of each symbol, the cash makes up the equity
  -- within the tolerance.
  abbrev pub IsBalanced : PaperPortfolio F → Type 0
  IsBalanced portfolio =
      (cash : F) × (total : F) × (held : Dict F) × (portfolio.market_currency_cash ≡ some cash)
      × (portfolio.total_equity ≡ some total)
      × ((s : Text) → get_or held s nought ≡ worth quote managed s portfolio.positions nought)
      × (fle (fabs (d.minus (d.plus cash (summed nought (values held))) total))
            (tolerance quote managed total)
          ≡ true)

  -- The positions agree, and with the cash they make up the equity.
  abbrev pub IsAgreedAccount : PaperPortfolio F → Type 0
  IsAgreedAccount portfolio = AllAgreed quote managed portfolio.positions × IsBalanced portfolio

  abbrev pub IsAgreedIfClean : PaperPortfolio F → Reconciliation F → Type 0
  IsAgreedIfClean portfolio data_artifact_invalid = Unit
  IsAgreedIfClean portfolio (compared proposals mismatch) =
      mismatch ≡ false → IsAgreedAccount portfolio
