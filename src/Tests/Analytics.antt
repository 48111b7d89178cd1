-- ===== src/Tests/Analytics.antt =====
-- Readings of bars, and the entries that rest on them.
use tera_trade.Prelude.Int.{◌+ℤ◌}
use tera_trade.Number.Fixed.{Fixed, fixed_number, Fixed-IsOrdered}
use tera_trade.Prelude.{
  All, Any, List, [], arith, refl, some, suc, zero, ℕ, ◌%◌, ◌*◌, ◌+◌, ◌/◌, ◌∷◌, ◌≡◌, is_some, true,
  ◌++◌,
}
use tera_trade.Analytics.VolumeProfile.{VolumeProfileLevel, value_area}
use tera_trade.Market.{OhlcBar, long}
use tera_trade.Analytics.OpeningRange.{SessionBars, WallClock, count_sessions, no_counts}
use tera_trade.Analytics.Fibonacci.{Swing, find_swing}
use tera_trade.Analytics.EmaTrend.{aggregate_bars, bucket_start}
use tera_trade.Analytics.EmaTrend.Buckets.{aggregate_bars-IsHolding, IsHolding, IsChronological}
use tera_trade.Analytics.SmartEntry.{compute_smart_entry_price}
use tera_trade.Analytics.SmartEntry.Discount.{compute_smart_entry_price-IsEntry, IsEntry}
use tera_trade.Analytics.OpeningRange.Counts.{count_sessions-IsBalanced, IsBalanced}
use tera_trade.Number.{decimal}
use tera_trade.Analytics.Fibonacci.Swings.{find_swing-IsSwingOf, IsSwingOf}
use tera_trade.Tests.Data.{flat_bar, whole_points, bars_from}
use tera_trade.Strategy.Broken.{IsBreak, generate_breakout_signal-IsBreak}
use tera_trade.News.Window.{IsNearestEvent, get_news_risk_status-IsNearestEvent}
use tera_trade.News.{NewsEvent, NewsRiskStatus, get_news_risk_status}
use tera_trade.Strategy.{StrategySignal, bars_before_last, generate_breakout_signal}
use tera_trade.Risk.Engine.{breakout}

abbrev rising_bars : ℕ → ℕ → List (OhlcBar Fixed)
rising_bars zero k = []
rising_bars (suc left) k = flat_bar (k * 300_000) (4996 + k) (5000 + k) ∷ rising_bars left (1 + k)

abbrev volume_levels : List (VolumeProfileLevel Fixed)
volume_levels =
    record { price = whole_points 4999; volume = whole_points 2 }
    ∷ record { price = whole_points 5000; volume = whole_points 9 }
    ∷ record { price = whole_points 5001; volume = whole_points 4 }
    ∷ record { price = whole_points 5002; volume = whole_points 1 }
    ∷ []

value_area_run :
    value_area (decimal 7 1) volume_levels
    ≡ some (record { low_idx = 1; high_idx = 2; covered_volume = whole_points 13 })
unfolding value_area ◌+ℤ◌
value_area_run = refl

find_swing-IsSwingOf_example :
    (s : Swing Fixed) × (find_swing (flat_bar 0 4990 5000 ∷ rising_bars 3 1) ≡ some s)
    × IsSwingOf (flat_bar 0 4990 5000 ∷ rising_bars 3 1) s.high s.low
find_swing-IsSwingOf_example =
    find_swing-IsSwingOf Fixed-IsOrdered (flat_bar 0 4990 5000) (rising_bars 3 1)

-- The hours of a day that starts at the epoch.
abbrev day_clock : ℕ → WallClock
day_clock time = record { date = "day"; hour = time / 3_600_000 % 24; minute = time / 60_000 % 60 }

abbrev one_session : List (SessionBars Fixed)
one_session =
    record {
      session_date = "day";
      bars = flat_bar 34_200_000 4990 5000 ∷ flat_bar 43_200_000 4995 5010 ∷ [];
    }
    ∷ []

count_sessions_run : count_sessions day_clock 570 60 one_session no_counts ≡ record {
  sessions_analyzed = 1;
  high_broken = 1;
  low_broken = 0;
  both_broken = 0;
  neither_broken = 0;
}
unfolding count_sessions
count_sessions_run = refl

count_sessions-IsBalanced_example :
    IsBalanced (count_sessions day_clock 570 60 one_session no_counts)
count_sessions-IsBalanced_example =
    count_sessions-IsBalanced day_clock 570 60 one_session no_counts
      (refl, ground arith, ground arith)

aggregate_bars-IsHolding_example :
    IsChronological (aggregate_bars (rising_bars 3 1) 10)
    × All
        (λ bar.
          Any (IsHolding (bucket_start (10 * 60000) bar) bar) (aggregate_bars (rising_bars 3 1) 10))
        (rising_bars 3 1)
aggregate_bars-IsHolding_example = aggregate_bars-IsHolding Fixed-IsOrdered (rising_bars 3 1) 10

compute_smart_entry_price-IsEntry_example :
    IsEntry long (whole_points 5006) (some (whole_points 4990)) (decimal 25 2) (
      compute_smart_entry_price
        (rising_bars 6 1)
        long
        (whole_points 5006)
        (whole_points 4)
        (decimal 25 2)
        (some (whole_points 4990)))
compute_smart_entry_price-IsEntry_example =
    compute_smart_entry_price-IsEntry (rising_bars 6 1) long (whole_points 5006) (whole_points 4)
      (decimal 25 2) (some (whole_points 4990))

abbrev quiet_bars : List (OhlcBar Fixed)
quiet_bars = bars_from 20 0 ++ (flat_bar 6_000_000 4998 5003 ∷ [])

abbrev broken_signal : StrategySignal Fixed
broken_signal = record {
  strategy_id = "breakout_donchian_20";
  symbol = "ES";
  side = long;
  structure_swing_price = whole_points 4996;
  signal_kind = breakout;
  breakout_level_price = some (whole_points 5000);
}

broken_signal_run : generate_breakout_signal "ES" quiet_bars ≡ some broken_signal
unfolding generate_breakout_signal
broken_signal_run = refl

generate_breakout_signal-IsBreak_example :
    IsBreak (bars_before_last 20 quiet_bars) (flat_bar 6_000_000 4998 5003) broken_signal
generate_breakout_signal-IsBreak_example =
    generate_breakout_signal-IsBreak Fixed-IsOrdered "ES" quiet_bars (flat_bar 6_000_000 4998 5003)
      broken_signal refl broken_signal_run

abbrev releases : List NewsEvent
releases =
    record { event_name = "CPI"; event_time = 5_400_000; impact = "high" }
    ∷ record { event_name = "NFP"; event_time = 3_900_000; impact = "high" }
    ∷ record { event_name = "minutes"; event_time = 3_600_000; impact = "low" }
    ∷ []

get_news_risk_status-IsNearestEvent_example :
    let s : NewsRiskStatus Fixed = get_news_risk_status 30 3_600_000 true releases in
    IsNearestEvent 3_600_000 (30 * 60000) true releases s.nearest_event
    × (s.in_risk_window ≡ is_some s.nearest_event)
get_news_risk_status-IsNearestEvent_example =
    get_news_risk_status-IsNearestEvent Fixed 30 3_600_000 true releases
