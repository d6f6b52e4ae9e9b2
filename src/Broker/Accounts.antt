-- ===== src/Broker/Accounts.antt =====
-- application/firstrade_client.py: account identifiers, and the account that a run trades on.
pub mod Selected
use firstrade_platform.Prelude.{
  ℕ, Bool, true, false, Option, none, some, List, [], ◌∷◌, Text, strip, length, leb, is_empty,
  one_of, if◌then◌else◌, ◌==◌,
}
use firstrade_platform.State.Store.{stars}

-- stars for all but the last two characters
unfoldable pub mask_all_but_two : Text → Text
mask_all_but_two [] = []
mask_all_but_two (c ∷ s) =
    let rest = mask_all_but_two s in if leb 2 (length s) then b'*' ∷ rest else c ∷ s

unfoldable pub mask_account_id : Text → Text
unfolding mask_all_but_two
mask_account_id value = if leb (length value) 2 then stars value else mask_all_but_two value

-- What the broker's package may name an account by. A whole number is given by its digits.
pub data Identifier : Type 0 where
  missing : Identifier
  boolean : Identifier
  whole_number : Text → Identifier
  fraction : Identifier
  named : Text → Identifier
  other : Identifier

abbrev pub filled : Text → Option Text
filled s = if is_empty s then none else some s

unfoldable pub normalize_account_number : Identifier → Option Text
normalize_account_number missing = none
normalize_account_number boolean = none
normalize_account_number (whole_number digits) = filled digits
normalize_account_number fraction = none
normalize_account_number (named s) = filled (strip s)
normalize_account_number other = none

abbrev pub with_account : Option Text → List Text → List Text
with_account none accounts = accounts
with_account (some account) accounts = account ∷ accounts

unfoldable pub account_numbers : List Identifier → List Text
account_numbers [] = []
account_numbers (i ∷ is) = with_account (normalize_account_number i) (account_numbers is)

pub data Selection : Type 0 where
  selected : Text → Selection
  not_returned : Selection
  no_accounts : Selection
  ambiguous : Selection

abbrev pub selected_if : Bool → Text → Selection
selected_if true account = selected account
selected_if false account = not_returned

unfoldable pub select_requested : Option Text → List Text → Selection
select_requested none accounts = not_returned
select_requested (some wanted) accounts = selected_if (one_of wanted accounts) wanted

unfoldable pub select_only : List Text → Selection
select_only [] = no_accounts
select_only (account ∷ []) = selected account
select_only (account ∷ another ∷ more) = ambiguous

-- An empty request is no request.
unfoldable pub select_account : Text → List Identifier → Selection
select_account requested identifiers =
    let accounts = account_numbers identifiers in
    if is_empty requested
    then select_only accounts
    else select_requested (normalize_account_number (named requested)) accounts
