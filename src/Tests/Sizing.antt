-- ===== src/Tests/Sizing.antt =====
-- Sizes of the test account.
use tera_trade.Prelude.{arith, ◌≡◌, ◌≤◌, refl}
use tera_trade.Prelude.Int.{pos}
use tera_trade.Number.Fixed.{fixed_number, Fixed-IsOrdered}
use tera_trade.Tests.Data.{tiers, whole_points}
use tera_trade.Risk.Sizing.{compute_position_size, compute_confidence_tier_quantity}
use tera_trade.Risk.Sizing.Tiers.{compute_confidence_tier_quantity_mono, IsLadder}

sized : (compute_position_size (whole_points 200) (whole_points 4) (whole_points 5) 5).quantity ≡ 5
unfolding compute_position_size
sized = refl

tiers_taken : compute_confidence_tier_quantity (pos 7500) 5 tiers ≡ 2
unfolding compute_confidence_tier_quantity
tiers_taken = refl

tiers-IsLadder : IsLadder tiers
tiers-IsLadder = ground arith

compute_confidence_tier_quantity_mono_example :
    compute_confidence_tier_quantity (pos 6500) 5 tiers
    ≤ compute_confidence_tier_quantity (pos 7500) 5 tiers
compute_confidence_tier_quantity_mono_example =
    compute_confidence_tier_quantity_mono Fixed-IsOrdered (pos 6500) (pos 7500) 5 tiers
      tiers-IsLadder refl
