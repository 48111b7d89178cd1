-- ===== src/Analytics/SupportResistance/Clusters.antt =====
-- Clustering the pivots of backend/src/analytics/supportResistance.ts.
use tera_trade.Prelude.{ℕ, ◌+◌, List, [], ◌∷◌, length}
use tera_trade.Number.{Number}

module _ {D : Type 0} ⦃n : Number D⦄ where
  abbrev total_length : List (List D) → ℕ
  total_length [] = 0
  total_length (c ∷ cs) = length c + total_length cs

  -- The touches of all levels together.
  abbrev pub total_touches : List (D × ℕ) → ℕ
  total_touches [] = 0
  total_touches (l ∷ ls) = l.1 + total_touches ls
