-- ===== src/Risk/Sizing/Budget.antt =====
-- The dollar-budget size of backend/src/risk/sizing.ts.
use tera_trade.Prelude.{ℕ, ◌≤◌, ◌≡◌, ◌↔◌, ◌⊎◌, true, arith}
use tera_trade.Number.{Number, lte, times, of_nat}
use tera_trade.Risk.Sizing.{compute_position_size}

module _ {D : Type 0} ⦃n : Number D⦄ where
  -- A size never exceeds the account's limit, whatever the budget, and it is zero exactly when the
  -- stop distance, the dollar risk of one contract or that limit is not positive.
  pub compute_position_size_bounds :
      (risk stop value : D) (max_position_size : ℕ)
      → let size = compute_position_size risk stop value max_position_size in
        (size.quantity ≤ max_position_size)
        × ((size.quantity ≡ 0) ↔ (
            (lte stop (of_nat 0) ≡ true)
            ⊎ (lte (times stop value) (of_nat 0) ≡ true)
            ⊎ (max_position_size ≡ 0)))
  unfolding compute_position_size
  compute_position_size_bounds risk stop value max_position_size = ground arith
