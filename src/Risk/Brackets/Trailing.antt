-- ===== src/Risk/Brackets/Trailing.antt =====
-- The trailing stop of backend/src/risk/stops.ts: its distance, and when it is armed.
use tera_trade.Prelude.{◌≤◌, max, ◌≡◌, true, Option, some, none, arith}
use tera_trade.Number.{Number, IsOrdered, plus, minus, times, divided_by, abs, ◌≼◌}
use tera_trade.Market.{Side}
use tera_trade.Risk.Stops.{min_reward_risk_ratio}
use tera_trade.Risk.Brackets.{
  TickBand, resolve_trailing_stop_distance_ticks, has_reached_trailing_stop_activation,
  trailing_stop_min_ticks, trailing_stop_activation_r,
}

module _ {D : Type 0} ⦃n : Number D⦄ where
  -- For an instrument with a band the trailing distance lies between the band's minimum and its
  -- maximum, both raised to 15 ticks where they are smaller, whatever the ATR and the tick size.
  pub resolve_trailing_stop_distance_ticks_bounds :
      (tick_size : D) (band : TickBand) (atr_value : Option D)
      → band.min_ticks ≤ band.max_ticks
      → let ticks = resolve_trailing_stop_distance_ticks tick_size (some band) atr_value in
        (max band.min_ticks trailing_stop_min_ticks ≤ ticks)
        × (ticks ≤ max band.max_ticks trailing_stop_min_ticks)
  unfolding resolve_trailing_stop_distance_ticks
  resolve_trailing_stop_distance_ticks_bounds tick_size band none h = omega arith
  resolve_trailing_stop_distance_ticks_bounds tick_size band (some a) h = ground arith

  -- Once armed the trail stays armed: a bar that reaches at least as far, up for a long and down for a
  -- short, arms it too.
  pub has_reached_trailing_stop_activation_mono :
      IsOrdered D
      → (entry stop : D) (side : Side) (high low high' low' : D) (target : Option D) → high ≼ high'
      → low' ≼ low
      → has_reached_trailing_stop_activation entry stop side high low target ≡ true
      → has_reached_trailing_stop_activation entry stop side high' low' target ≡ true
  unfolding has_reached_trailing_stop_activation
  has_reached_trailing_stop_activation_mono laws entry stop side high low high' low' none h l e =
      let move = times (abs (minus entry stop)) trailing_stop_activation_r in
      ground (
        arith,
        laws.lte_trans (plus entry move) high high',
        laws.lte_trans low' low (minus entry move),
      )
  has_reached_trailing_stop_activation_mono laws entry stop side high low high' low' (some t) h l
        e =
      let move =
        times (divided_by (abs (minus t entry)) min_reward_risk_ratio) trailing_stop_activation_r in
      ground (
        arith,
        laws.lte_trans (plus entry move) high high',
        laws.lte_trans low' low (minus entry move),
      )
