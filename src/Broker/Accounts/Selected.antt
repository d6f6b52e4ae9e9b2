-- ===== src/Broker/Accounts/Selected.antt =====
-- Which account a run selects.
use firstrade_platform.Prelude.{
  ℕ, leb, ◌||◌, ◌≡◌, refl, Bool, true, false, not, none, some, List, [], ◌∷◌, Text, one_of,
  is_empty, strip, text_eq_refl, length, arith, if◌then◌else◌,
}
use firstrade_platform.Broker.Accounts.{
  Identifier, normalize_account_number, account_numbers, Selection, selected, not_returned,
  no_accounts, ambiguous, select_requested, select_only, select_account,
}

-- How a selection may end, for a request and the accounts of the broker.
abbrev pub IsSelected : Text → List Text → Selection → Type 0
IsSelected requested accounts (selected account) =
    (one_of account accounts ≡ true)
    × (if is_empty requested then accounts ≡ account ∷ [] else account ≡ strip requested)
IsSelected requested accounts not_returned =
    (is_empty requested ≡ false)
    × ((is_empty (strip requested) || not (one_of (strip requested) accounts)) ≡ true)
IsSelected requested accounts no_accounts = (is_empty requested ≡ true) × (accounts ≡ [])
IsSelected requested accounts ambiguous =
    (is_empty requested ≡ true) × (leb 2 (length accounts) ≡ true)

only-IsSelected : (accounts : List Text) → IsSelected [] accounts (select_only accounts)
unfolding select_only one_of
only-IsSelected [] = (refl, refl)
only-IsSelected (account ∷ []) = (ground (arith, text_eq_refl account), refl)
only-IsSelected (account ∷ another ∷ more) = (refl, ground arith)

wanted-IsSelected :
    (c : ℕ) (request wanted : Text) (accounts : List Text) (blank known : Bool)
    → wanted ≡ strip (c ∷ request)
    → is_empty wanted ≡ blank
    → one_of wanted accounts ≡ known
    → IsSelected
        (c ∷ request)
        accounts
        (select_requested (if blank then none else some wanted) accounts)
unfolding select_requested
wanted-IsSelected c request wanted accounts true known e b k = (refl, rw⁻¹ e (ground arith))
wanted-IsSelected c request wanted accounts false true e b k = rw k (k, e)
wanted-IsSelected c request wanted accounts false false e b k = rw k (refl, rw⁻¹ e (ground arith))

-- An account is selected only where the broker returned it: the requested one, stripped, or the only
-- one where none is requested. A request for a blank account or for one that the broker did not
-- return is refused, and without a request so are no accounts and several.
pub select_account-IsSelected :
    (requested : Text) (identifiers : List Identifier)
    → IsSelected requested (account_numbers identifiers) (select_account requested identifiers)
unfolding select_account normalize_account_number
select_account-IsSelected [] identifiers = only-IsSelected (account_numbers identifiers)
select_account-IsSelected (c ∷ request) identifiers =
    let accounts = account_numbers identifiers in
    let wanted = strip (c ∷ request) in
    wanted-IsSelected c request wanted accounts (is_empty wanted) (one_of wanted accounts) refl refl
      refl
