-- ===== src/Risk/Stops.antt =====
-- backend/src/risk/stops.ts: stop-loss, take-profit and trailing-stop rules. The 5-minute candles
-- stand in Risk/Stops/Candles.antt, which this module uses.
mod Candles
pub mod Initial
unfoldable pub use Candles.{five_minute_atr_points, aggregate_to_five_minute_candles}
use tera_trade.Prelude.{
  ℕ, ◌-◌, min, max, Bool, true, false, not, leb, ltb, ◌&&◌, ◌||◌, if◌then◌else◌, Option, none, some,
  get_or, List, [], ◌∷◌, length, drop, map,
}
use tera_trade.Number.{
  Number, lte, gte, lt, gt, plus, minus, times, divided_by, abs, ceil_to, floor_to, whole, nearest,
  of_nat, decimal, larger, smaller, smallest, largest,
}
use tera_trade.Market.{Side, long, short, is_long, OhlcBar}

pub data StopBasis : Type 0 where
  structure atr swing : StopBasis

pub record StopPlan (D : Type 0) : Type 0 where
  pub stop_price : D
  pub stop_distance_points : D
  pub basis : StopBasis
  pub take_profit_price : D
  pub trail_ticks : ℕ

-- The `opts` argument of `computeInitialStop`; an absent option is `none`.
pub record StopOptions (D : Type 0) : Type 0 where
  pub atr_multiplier : Option D
  pub take_profit_r_multiple : Option D
  pub tick_size : Option D
  pub chandelier_atr_multiplier : Option D
  pub recent_bars : Option (List (OhlcBar D))

pub record SwingPlan (D : Type 0) : Type 0 where
  pub swing_stop_price : D
  pub swing_stop_distance_points : D
  pub swing_take_profit_price : D

abbrev pub swing_candle_count : ℕ
swing_candle_count = 5

module _ {D : Type 0} ⦃n : Number D⦄ where
  abbrev pub min_reward_risk_ratio : D
  min_reward_risk_ratio = of_nat 3

  -- `side === "long" ? entryPrice.plus(d) : entryPrice.minus(d)`, in the trade's favour.
  abbrev pub ahead : Side → D → D → D
  ahead long entry_price d = plus entry_price d
  ahead short entry_price d = minus entry_price d

  -- `side === "long" ? entryPrice.minus(d) : entryPrice.plus(d)`, against the trade.
  abbrev pub behind : Side → D → D → D
  behind long entry_price d = minus entry_price d
  behind short entry_price d = plus entry_price d

  swing_stop_price_of : Side → OhlcBar D → List (OhlcBar D) → D
  swing_stop_price_of long c cs = smallest c.low (map (λ (b : OhlcBar D). b.low) cs)
  swing_stop_price_of short c cs = largest c.high (map (λ (b : OhlcBar D). b.high) cs)

  swing_plan_from : D → Side → D → List (OhlcBar D) → Option (SwingPlan D)
  swing_plan_from entry_price side take_profit_r_multiple [] = none
  swing_plan_from entry_price side take_profit_r_multiple (c ∷ cs) =
      let stop_price = swing_stop_price_of side c cs in
      let stop_distance_points = abs (minus entry_price stop_price) in
      let take_profit_distance = times stop_distance_points take_profit_r_multiple in
      if (if is_long side then gte stop_price entry_price else lte stop_price entry_price)
      then none
      else some (record {
        swing_stop_price = stop_price;
        swing_stop_distance_points = stop_distance_points;
        swing_take_profit_price = ahead side entry_price take_profit_distance;
      })

  unfoldable pub compute_swing_based_plan : D → Side → List (OhlcBar D) → D → Option (SwingPlan D)
  unfolding swing_plan_from swing_stop_price_of
  compute_swing_based_plan entry_price side recent_bars take_profit_r_multiple =
      let candles = aggregate_to_five_minute_candles recent_bars in
      let last5 = drop (length candles - swing_candle_count) candles in
      if ltb (length candles) swing_candle_count
      then none
      else swing_plan_from entry_price side take_profit_r_multiple last5

  -- `if (opts.recentBars)`
  unfoldable pub optional_swing_plan :
      D → Side → Option (List (OhlcBar D)) → D → Option (SwingPlan D)
  optional_swing_plan entry_price side none take_profit_r_multiple = none
  optional_swing_plan entry_price side (some bars) take_profit_r_multiple =
      compute_swing_based_plan entry_price side bars take_profit_r_multiple

  -- The stop of `computeInitialStop` when there is no swing plan.
  pub structure_or_atr_stop : D → Side → D → Option D → D × D × StopBasis
  structure_or_atr_stop entry_price side atr_stop_distance none =
      (behind side entry_price atr_stop_distance, atr_stop_distance, StopBasis.atr)
  structure_or_atr_stop entry_price side atr_stop_distance (some structure_swing_price) =
      let structure_distance = abs (minus entry_price structure_swing_price) in
      if gt structure_distance (of_nat 0) && lt structure_distance atr_stop_distance
      then (structure_swing_price, structure_distance, StopBasis.structure)
      else (behind side entry_price atr_stop_distance, atr_stop_distance, StopBasis.atr)

  -- The two `return`s of `computeInitialStop`.
  stop_plan_of : D → Side → D → ℕ → D × D × StopBasis → Option (SwingPlan D) → StopPlan D
  stop_plan_of entry_price side take_profit_r_multiple trail_ticks fallback (some plan) = record {
    stop_price = plan.swing_stop_price;
    stop_distance_points = plan.swing_stop_distance_points;
    basis = swing;
    take_profit_price = plan.swing_take_profit_price;
    trail_ticks = trail_ticks;
  }
  stop_plan_of entry_price side take_profit_r_multiple trail_ticks (stop_price, distance, basis)
        none =
      record {
        stop_price = stop_price;
        stop_distance_points = distance;
        basis = basis;
        take_profit_price = ahead side entry_price (times distance take_profit_r_multiple);
        trail_ticks = trail_ticks;
      }

  pub trail_ticks_of : D → StopOptions D → ℕ
  trail_ticks_of atr_value opts =
      let tick_size = get_or opts.tick_size (decimal 25 2) in
      let chandelier_atr_multiplier = get_or opts.chandelier_atr_multiplier (decimal 30 1) in
      let trail_distance = times atr_value chandelier_atr_multiplier in
      if gt tick_size (of_nat 0) then max 1 (whole (divided_by trail_distance tick_size)) else 1

  unfoldable pub compute_initial_stop : D → Side → D → Option D → StopOptions D → StopPlan D
  unfolding structure_or_atr_stop optional_swing_plan stop_plan_of trail_ticks_of
  compute_initial_stop entry_price side atr_value structure_swing_price opts =
      let atr_multiplier = get_or opts.atr_multiplier (decimal 15 1) in
      let take_profit_r_multiple = get_or opts.take_profit_r_multiple (decimal 30 1) in
      let swing_plan =
        optional_swing_plan entry_price side opts.recent_bars take_profit_r_multiple in
      let fallback =
        structure_or_atr_stop entry_price side (times atr_value atr_multiplier)
          structure_swing_price in
      stop_plan_of entry_price side take_profit_r_multiple (trail_ticks_of atr_value opts) fallback
        swing_plan
