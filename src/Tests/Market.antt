-- ===== src/Tests/Market.antt =====
-- Ticks, sessions and simulated outcomes.
use tera_trade.Prelude.Int.{◌-ℤ◌}
use tera_trade.Prelude.{
  ℕ, ◌*◌, ◌+◌, inr, ◌≡◌, ◌≤◌, ◌<◌, ◌↔◌, refl, some, none, List, [], ◌∷◌, All, arith,
}
use tera_trade.Number.Fixed.{Fixed, fixed_number, Fixed-IsOrdered}
use tera_trade.Market.{long, OhlcBar}
use tera_trade.Tests.Data.{whole_points, flat_bar}
use tera_trade.MarketData.MinuteBars.{Tick, Aggregator, add_tick}
use tera_trade.MarketData.MinuteBars.Bounds.{
  run_ticks, run_ticks-IsBar, IsBar, IsBarOrNone, add_tick_rejects,
}
use tera_trade.Analytics.Session.{get_session_start, get_session_end}
use tera_trade.Analytics.Outcome.{evaluate_hypothetical_outcome, win, loss}
use tera_trade.Analytics.Outcome.First.{evaluate_hypothetical_outcome_iff, IsWon, IsLost}

abbrev tick_at : ℕ → ℕ → Tick Fixed
tick_at seconds price = record {
  price = whole_points price;
  volume = whole_points 1;
  time = seconds * 1000;
}

abbrev ticks : List (Tick Fixed)
ticks = tick_at 600 5000 ∷ tick_at 610 5003 ∷ tick_at 620 960 ∷ tick_at 665 5001 ∷ []

abbrev idle : Aggregator Fixed
idle = record { current = none; last_accepted = none; pending_outlier = none }

run_ticks-IsBar_example :
    let (next, completed) = run_ticks ticks idle in IsBarOrNone next.current × All IsBar completed
run_ticks-IsBar_example = run_ticks-IsBar Fixed-IsOrdered ticks idle tt

abbrev running : Aggregator Fixed
running = record {
  current = none;
  last_accepted = some record { price = whole_points 7500; accepted_at = 600_000 };
  pending_outlier = none;
}

add_tick_rejects_example :
    let (next, completed) = add_tick (tick_at 610 960) running in
    (next.current ≡ none) × (next.last_accepted ≡ running.last_accepted) × (completed ≡ none)
unfolding ◌-ℤ◌
add_tick_rejects_example = add_tick_rejects (tick_at 610 960) running refl (refl, refl) (inr refl)

-- Ten in the evening of a day, in the Asian session that ends on the next.
abbrev evening : ℕ
evening = 20_000 * 86_400_000 + 22 * 3_600_000

evening_start : get_session_start evening ≤ evening + 1000
unfolding get_session_start
evening_start = omega arith

evening_end : evening + 1000 < get_session_end evening
unfolding get_session_end
evening_end = omega arith

abbrev later_bars : List (OhlcBar Fixed)
later_bars = flat_bar 0 4998 5004 ∷ flat_bar 1 4997 5013 ∷ flat_bar 2 4990 5000 ∷ []

evaluate_hypothetical_outcome_iff_example :
    let label =
      (evaluate_hypothetical_outcome long
        (whole_points 5000)
        (whole_points 4996)
        (whole_points 5012)
        later_bars).label in
    ((label ≡ win) ↔ IsWon long (whole_points 4996) (whole_points 5012) later_bars)
    × ((label ≡ loss) ↔ IsLost long (whole_points 4996) (whole_points 5012) later_bars)
evaluate_hypothetical_outcome_iff_example =
    evaluate_hypothetical_outcome_iff long (whole_points 5000) (whole_points 4996)
      (whole_points 5012) later_bars
