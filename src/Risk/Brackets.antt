-- ===== src/Risk/Brackets.antt =====
-- backend/src/risk/stops.ts: a bracket, a stop with a target, after it is planned: its validity, its
-- re-anchoring to the real fill, the rounding to ticks, and the trailing stop.
pub mod Anchoring
pub mod Trailing
use tera_trade.Prelude.{
  ℕ, min, max, Bool, true, false, not, ◌&&◌, ◌||◌, if◌then◌else◌, Option, none, some,
}
use tera_trade.Number.{
  Number, lte, gte, lt, gt, plus, minus, times, divided_by, abs, ceil_to, floor_to, nearest, of_nat,
  decimal, larger,
}
use tera_trade.Market.{Side, is_long}
use tera_trade.Risk.Stops.{min_reward_risk_ratio}

pub record TickBand : Type 0 where
  pub min_ticks : ℕ
  pub max_ticks : ℕ

pub record ReanchoredBracket (D : Type 0) : Type 0 where
  pub new_stop_price : D
  pub new_take_profit_price : Option D
  pub offset : D

abbrev pub trailing_stop_distance_ticks : ℕ
trailing_stop_distance_ticks = 5

abbrev pub trailing_stop_min_ticks : ℕ
trailing_stop_min_ticks = 15

module _ {D : Type 0} ⦃n : Number D⦄ where
  abbrev pub trailing_stop_activation_r : D
  trailing_stop_activation_r = decimal 15 1

  abbrev pub trailing_stop_atr_fraction : D
  trailing_stop_atr_fraction = decimal 5 1

  unfoldable pub resolve_trailing_stop_distance_ticks : D → Option TickBand → Option D → ℕ
  resolve_trailing_stop_distance_ticks tick_size none atr_value = trailing_stop_distance_ticks
  resolve_trailing_stop_distance_ticks tick_size (some band) none =
      max band.min_ticks trailing_stop_min_ticks
  resolve_trailing_stop_distance_ticks tick_size (some band) (some atr_value) =
      let atr_ticks = nearest (divided_by (times atr_value trailing_stop_atr_fraction) tick_size) in
      let within_band = min (max atr_ticks band.min_ticks) band.max_ticks in
      if lte atr_value (of_nat 0) || lte tick_size (of_nat 0)
      then max band.min_ticks trailing_stop_min_ticks
      else max within_band trailing_stop_min_ticks

  pub resolve_hard_take_profit_distance : D → D → D
  resolve_hard_take_profit_distance points tick_size = larger points tick_size

  unfoldable pub bracket_is_valid_against_entry : D → D → Option D → Side → Bool
  bracket_is_valid_against_entry entry_price stop_price take_profit_price side =
      let stop_on_correct_side =
        if is_long side then lt stop_price entry_price else gt stop_price entry_price in
      if not stop_on_correct_side then false else elim take_profit_price [
        | none ↦ true
        | some target ↦
            let target_on_correct_side =
              if is_long side then gt target entry_price else lt target entry_price in
            if not target_on_correct_side
            then false
            else gt (abs (minus target entry_price)) (abs (minus entry_price stop_price))
      ]

  unfoldable pub reanchor_bracket_to_real_entry : D → D → D → Option D → ReanchoredBracket D
  reanchor_bracket_to_real_entry recorded_entry_price real_entry_price stop_price
        take_profit_price =
      let offset = minus real_entry_price recorded_entry_price in
      record {
        new_stop_price = plus stop_price offset;
        new_take_profit_price = elim take_profit_price [
          | none ↦ none
          | some target ↦ some (plus target offset)
        ];
        offset = offset;
      }

  unfoldable pub round_away_from_entry : D → D → D → D
  round_away_from_entry price entry_price tick_size =
      if lte tick_size (of_nat 0)
      then price
      else if gte price entry_price
      then ceil_to price tick_size
      else floor_to price tick_size

  unfoldable pub has_reached_trailing_stop_activation : D → D → Side → D → D → Option D → Bool
  has_reached_trailing_stop_activation entry_price stop_price side high low take_profit_price =
      let risk_points : D = elim take_profit_price [
        | none ↦ abs (minus entry_price stop_price)
        | some target ↦ divided_by (abs (minus target entry_price)) min_reward_risk_ratio
      ] in
      let move = times risk_points trailing_stop_activation_r in
      if lte risk_points (of_nat 0) && gte risk_points (of_nat 0)
      then false
      else if is_long side
      then gte high (plus entry_price move)
      else lte low (minus entry_price move)
