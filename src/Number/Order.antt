-- ===== src/Number/Order.antt =====
-- `larger` and `smaller` of ordered numbers.
use tera_trade.Prelude.{◌≡◌, ◌⊎◌, arith}
use tera_trade.Number.Interface.{Number, IsOrdered, larger, smaller, ◌≼◌}

module _ {D : Type 0} ⦃n : Number D⦄ (laws : IsOrdered D) where
  open laws use {lte_total}

  pub larger_lem : (a b : D) → let t = larger a b in (a ≼ t) × (b ≼ t) × ((a ≡ t) ⊎ (b ≡ t))
  larger_lem a b = ground (arith, lte_total a a, lte_total b b, lte_total a b)

  pub smaller_lem : (a b : D) → let t = smaller a b in (t ≼ a) × (t ≼ b) × ((a ≡ t) ⊎ (b ≡ t))
  smaller_lem a b = ground (arith, lte_total a a, lte_total b b, lte_total a b)
