-- ===== src/Tests/Gates.antt =====
-- The gates before an entry, on a reading, a chart and an account.
use tera_trade.Prelude.{◌≡◌, ◌≤◌, ◌↔◌, ℕ, ◌+◌, refl, true, false, some, Option, [], ◌∷◌}
use tera_trade.Number.Fixed.{Fixed, fixed_number}
use tera_trade.Market.{long, opposite}
use tera_trade.Tests.Data.{whole_points, account, limits}
use tera_trade.Risk.TiltGate.{
  OrderFlowSnapshot, TiltReading, tilt_reading, updated_at, check_tilt_alignment, tilt_max_age_ms,
}
use tera_trade.Risk.TiltGate.Alignment.{check_tilt_alignment_iff, Wins}
use tera_trade.Risk.ChartZoneGate.{ChartZoneRead, read_ok, check_chart_zone}
use tera_trade.Risk.CircuitBreakers.{check_circuit_breakers}
use tera_trade.Risk.CircuitBreakers.Limits.{check_circuit_breakers_iff, IsSolvent, IsUnpaused}

abbrev pub snapshot : Option (OrderFlowSnapshot Fixed)
snapshot = some record {
  tilt_long_bias = some (whole_points 60);
  tilt_short_bias = some (whole_points 40);
  tilt_positive_pct = some (whole_points 58);
  tilt_negative_pct = some (whole_points 42);
  tilt_updated_at_ms = some 1000;
}

tilt_allows : (check_tilt_alignment snapshot long 60_000).allowed ≡ true
unfolding check_tilt_alignment
tilt_allows = refl

check_tilt_alignment_iff_example : ((check_tilt_alignment snapshot long 60_000).allowed ≡ true) ↔ (
    (r : TiltReading Fixed) × (t : ℕ) × (tilt_reading snapshot ≡ some r)
    × (updated_at snapshot ≡ some t)
    × (60_000 ≤ t + tilt_max_age_ms)
    × ¬ Wins r (opposite long))
check_tilt_alignment_iff_example = check_tilt_alignment_iff snapshot long 60_000

abbrev pub chart : ChartZoneRead Fixed
chart =
    read_ok
      ((
        "NQ",
        record { low = whole_points 4990; high = whole_points 5010; chart_symbol = "NQ" } ∷ [],
      )
        ∷ [])
      ("NQ" ∷ [])

chart_allows : (check_chart_zone chart "NQ" (whole_points 5000)).allowed ≡ true
unfolding check_chart_zone
chart_allows = refl

check_circuit_breakers_iff_example :
    let d = check_circuit_breakers true account limits in
    ((d.allowed ≡ true) ↔ (IsSolvent account limits × IsUnpaused account limits))
    × ((d.trip_kill_switch ≡ false) ↔ IsSolvent account limits)
check_circuit_breakers_iff_example = check_circuit_breakers_iff account limits
