-- ===== src/Tests/Levels.antt =====
-- Levels near a price, and the clusters that they come from.
use tera_trade.Prelude.Int.{◌-ℤ◌}
use tera_trade.Prelude.{◌≡◌, refl, some, List, [], ◌∷◌}
use tera_trade.Number.Fixed.{Fixed, fixed_number}
use tera_trade.Market.{long}
use tera_trade.Tests.Data.{whole_points}
use tera_trade.Analytics.SupportResistance.{
  SrLevel, support, resistance, Pivot, pivot_low, find_nearest_target_level,
}

abbrev level : SrLevel Fixed
level = record { price = whole_points 5012; touches = 3; type = resistance }

abbrev levels : List (SrLevel Fixed)
levels =
    record { price = whole_points 4990; touches = 4; type = support }
    ∷ record { price = whole_points 5030; touches = 2; type = resistance }
    ∷ level
    ∷ []

level_found : find_nearest_target_level levels long (whole_points 5000) ≡ some level
unfolding find_nearest_target_level ◌-ℤ◌
level_found = refl

abbrev pivots : List (Pivot Fixed)
pivots =
    record { price = whole_points 5000; kind = pivot_low }
    ∷ record { price = whole_points 5010; kind = pivot_low }
    ∷ record { price = whole_points 5001; kind = pivot_low }
    ∷ []
