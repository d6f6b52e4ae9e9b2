-- ===== src/State/Store/Masking.antt =====
-- What the masked identifier of an account keeps of the account.
use firstrade_platform.Prelude.{
  ℕ, ◌+◌, ◌≤◌, ◌≡◌, refl, List, [], ◌∷◌, Text, length, ◌==◌, arith, if◌then◌else◌,
}
use firstrade_platform.State.Store.{stars, mask_all_but_four, legacy_account_state_id}

-- the characters that are no star
unfoldable pub shown : Text → ℕ
shown [] = 0
shown (c ∷ s) = let rest = shown s in if c == b'*' then rest else rest + 1

length-stars : (s : List ℕ) → length (stars s) ≡ length s
unfolding stars
length-stars [] = refl
length-stars (c ∷ s) = omega (arith, length-stars s)

shown-stars : (s : List ℕ) → shown (stars s) ≡ 0
unfolding stars shown
shown-stars [] = refl
shown-stars (c ∷ s) = shown-stars s

shown-le-length : (s : Text) → shown s ≤ length s
unfolding shown
shown-le-length [] = omega arith
shown-le-length (c ∷ s) = ground (arith, shown-le-length s)

length-mask : (s : Text) → length (mask_all_but_four s) ≡ length s
unfolding mask_all_but_four
length-mask [] = refl
length-mask (c ∷ s) = ground (arith, length-mask s)

shown-mask : (s : Text) → shown (mask_all_but_four s) ≤ 4
unfolding mask_all_but_four shown
shown-mask [] = omega arith
shown-mask (c ∷ s) = ground (arith, shown-mask s, shown-le-length s)

-- The identifier is as long as the account and shows at most four of its characters; an account of
-- at most four characters shows none.
pub legacy_account_state_id-masked :
    (account : Text)
    → (length (legacy_account_state_id account) ≡ length account)
      × (shown (legacy_account_state_id account) ≤ 4)
      × (length account ≤ 4 → shown (legacy_account_state_id account) ≡ 0)
unfolding legacy_account_state_id
legacy_account_state_id-masked account =
    ground
      (arith, length-stars account, shown-stars account, length-mask account, shown-mask account)
