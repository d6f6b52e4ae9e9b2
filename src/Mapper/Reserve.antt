-- ===== src/Mapper/Reserve.antt =====
-- The reserve of cash that a plan keeps.
use firstrade_platform.Prelude.{
  ◌≡◌, Option, none, some, true, Float, IsOrdered, fle, fmax, or_num, fmin-le_left, fmin-le_right,
  le-fmin, le-fmax_left, le-fmax_right,
}
use firstrade_platform.Mapper.{
  Semantics, PortfolioInputs, ExecutionPolicy, base_investable_cash, reserved_cash_of,
  resolve_platform_reserved_cash, apply_reserved_cash_policy,
}

module _ {F : Type 0} ⦃d : Float F⦄ (o : IsOrdered F) where
  open d use {nought, minus}

  -- `reserve` is at least what the strategy and the platform reserve; `cash` is not negative, at
  -- most what is left of the liquid cash after the reserve, and at most what it was before.
  abbrev pub IsReserved :
      Semantics F → PortfolioInputs F → Option (ExecutionPolicy F) → Option F → Option F → Type 0
  IsReserved s inputs policy none cash = ⊥
  IsReserved s inputs policy (some reserve) none = ⊥
  IsReserved s inputs policy (some reserve) (some cash) =
      (fle (or_num s.reserved_cash nought) reserve ≡ true)
      × (fle (resolve_platform_reserved_cash inputs.total_equity policy) reserve ≡ true)
      × (fle nought cash ≡ true)
      × (fle cash (fmax nought (minus inputs.liquid_cash reserve)) ≡ true)
      × (fle cash (fmax nought (base_investable_cash s inputs)) ≡ true)

  -- After the policy of the platform the reserve is at least what the strategy reserves and what
  -- the platform does; the cash to invest is not negative, and at most what the reserve leaves of
  -- the liquid cash, and what it was before, each of them or zero, if floats are ordered.
  pub apply_reserved_cash_policy-IsReserved :
      (s : Semantics F) (inputs : PortfolioInputs F) (policy : Option (ExecutionPolicy F))
      → IsReserved s inputs policy
          (apply_reserved_cash_policy s inputs policy).reserved_cash
          (apply_reserved_cash_policy s inputs policy).investable_cash
  unfolding apply_reserved_cash_policy reserved_cash_of
  apply_reserved_cash_policy-IsReserved s inputs policy =
      let own = or_num s.reserved_cash nought in
      let platform = resolve_platform_reserved_cash inputs.total_equity policy in
      let before = fmax nought (base_investable_cash s inputs) in
      let left = fmax nought (minus inputs.liquid_cash (fmax own platform)) in
      (
        le-fmax_left o own platform,
        le-fmax_right o own platform,
        le-fmin o before left nought (le-fmax_left o nought (base_investable_cash s inputs))
            (le-fmax_left o nought (minus inputs.liquid_cash (fmax own platform))),
        fmin-le_right o before left,
        fmin-le_left o before left,
      )
