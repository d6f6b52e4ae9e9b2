-- ===== src/Execution/Orders/Statuses.antt =====
-- How the statuses of orders decide what a cycle reports.
use firstrade_platform.Prelude.{
  ◌≡◌, true, false, List, [], ◌∷◌, Text, codes, text_eq, text_eq_sound, one_of, Bool, all, any,
  arith, ◌&&◌, not, is_empty, refl, Bool-cases, inl, inr,
}
use firstrade_platform.Execution.Orders.{
  Order, accepted_order_statuses, normalized_status, order_submission_accepted,
  order_submission_unknown, has_status, pending_statuses, completed_statuses, cycle_pending,
  cycle_done,
}

-- An accepted status is pending unless it is one of the two that are final.
accepted-pending :
    (s : Text)
    → one_of s accepted_order_statuses ≡ true
    → one_of s pending_statuses ≡ not (one_of s (codes "previewed" ∷ codes "filled" ∷ []))
unfolding one_of text_eq
accepted-pending s h = elim (Bool-cases (text_eq s (codes "accepted"))) [
  | inl e ↦ rw (text_eq_sound s (codes "accepted") e) refl
  | inr no_p ↦ elim (Bool-cases (text_eq s (codes "filled"))) [
    | inl e ↦ rw (text_eq_sound s (codes "filled") e) refl
    | inr no_q ↦ elim (Bool-cases (text_eq s (codes "partiallyfilled"))) [
      | inl e ↦ rw (text_eq_sound s (codes "partiallyfilled") e) refl
      | inr no_r ↦ elim (Bool-cases (text_eq s (codes "previewed"))) [
        | inl e ↦ rw (text_eq_sound s (codes "previewed") e) refl
        | inr no_t ↦ rw (text_eq_sound s (codes "submitted") (ground arith)) refl
      ]
    ]
  ]
]

final-accepted :
    (s : Text)
    → one_of s accepted_order_statuses ≡ false
    → one_of s (codes "previewed" ∷ codes "filled" ∷ []) ≡ false
unfolding one_of text_eq
final-accepted s h = ground arith

any-not {ℓ} : {A : Type ℓ} (f : A → Bool) (xs : List A) → any (λ x. not (f x)) xs ≡ not (all f xs)
any-not f [] = refl
any-not f (x ∷ xs) = ground (arith, any-not f xs)

module _ {F : Type 0} where
  -- An accepted order is not unknown.
  accepted-not_unknown :
      (order : Order F)
      → order_submission_accepted order ≡ true
      → order_submission_unknown order ≡ false
  unfolding order_submission_accepted order_submission_unknown
  accepted-not_unknown order h = ground arith

  -- The broker previewed or filled the order.
  abbrev pub is_final : Order F → Bool
  is_final order = one_of (normalized_status order.status) (codes "previewed" ∷ codes "filled" ∷ [])

  abbrev pub is_open : Order F → Bool
  is_open order = not (is_final order)

  accepted-is_open :
      (order : Order F)
      → order_submission_accepted order ≡ true
      → has_status pending_statuses order ≡ is_open order
  unfolding has_status order_submission_accepted
  accepted-is_open order h = accepted-pending (normalized_status order.status) h

  pub unknown-is_open :
      (order : Order F) → order_submission_unknown order ≡ true → is_open order ≡ true
  unfolding order_submission_unknown
  unknown-is_open order h = ground (arith, final-accepted (normalized_status order.status))

  pub pending-is_open :
      (orders : List (Order F))
      → all order_submission_accepted orders ≡ true
      → cycle_pending orders ≡ any is_open orders
  unfolding cycle_pending
  pending-is_open [] h = refl
  pending-is_open (order ∷ rest) h = ground (arith, accepted-is_open order, pending-is_open rest)

  completed-is_final :
      (orders : List (Order F)) → all (has_status completed_statuses) orders ≡ all is_final orders
  unfolding has_status
  completed-is_final orders = refl

  pub done-is_open :
      (orders : List (Order F))
      → all order_submission_accepted orders ≡ true
      → cycle_done orders ≡ (not (is_empty orders) && not (any is_open orders))
  unfolding cycle_done
  done-is_open [] h = refl
  done-is_open (order ∷ rest) h =
      rw (pending-is_open (order ∷ rest) h, completed-is_final (order ∷ rest))
        (ground (arith, any-not is_final (order ∷ rest)))
