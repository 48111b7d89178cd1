-- ===== src/Analytics/Vwap.antt =====
-- backend/src/analytics/vwap.ts: the average price weighted by volume, of a day or of the last bars.
use tera_trade.Prelude.{
  Bool, List, Option, [], drop, filter, get_last?, if◌then◌else◌, length, ltb, none, some, ℕ, ◌-◌,
  ◌/◌, ◌==◌, ◌∷◌,
}
use tera_trade.Number.{Number, divided_by, gt, of_nat, plus, times}
use tera_trade.Market.{OhlcBar}

abbrev day_ms : ℕ
day_ms = 86_400_000

module _ {D : Type 0} ⦃n : Number D⦄ where
  typical_price : OhlcBar D → D
  typical_price bar = divided_by (plus (plus bar.high bar.low) bar.close) (of_nat 3)

  price_volume_from : D → List (OhlcBar D) → D
  unfolding typical_price
  price_volume_from total [] = total
  price_volume_from total (bar ∷ bars) =
      price_volume_from (plus total (times (typical_price bar) bar.volume)) bars

  volume_from : D → List (OhlcBar D) → D
  volume_from total [] = total
  volume_from total (bar ∷ bars) = volume_from (plus total bar.volume) bars

  -- The loop over the bars that count, and the division after it.
  vwap_of : List (OhlcBar D) → Option D
  unfolding price_volume_from volume_from
  vwap_of bars =
      let cumulative_volume = volume_from (of_nat 0) bars in
      if gt cumulative_volume (of_nat 0)
      then some (divided_by (price_volume_from (of_nat 0) bars) cumulative_volume)
      else none

  same_day : OhlcBar D → OhlcBar D → Bool
  same_day last bar = bar.time / day_ms == last.time / day_ms

  pub compute_session_vwap : List (OhlcBar D) → Option D
  unfolding vwap_of same_day
  compute_session_vwap bars = elim (get_last? bars) [
    | none ↦ none
    | some last ↦ vwap_of (filter (same_day last) bars)
  ]

  pub compute_rolling_vwap : List (OhlcBar D) → ℕ → Option D
  unfolding vwap_of
  compute_rolling_vwap bars lookback_bars =
      if ltb (length bars) lookback_bars
      then none
      else vwap_of (drop (length bars - lookback_bars) bars)
