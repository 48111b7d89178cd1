-- ===== src/Risk/TradePlan.antt =====
-- backend/src/risk/tradePlan.ts: the stop, target and quantity of one trade.
pub mod Quantity
use tera_trade.Prelude.{
  ℕ, ltb, Bool, true, false, ◌&&◌, if◌then◌else◌, Option, none, some, get_or, List,
}
use tera_trade.Number.{Number, lt, plus, minus, times, divided_by, abs, of_nat, decimal}
use tera_trade.Market.{Side, OhlcBar}
use tera_trade.Risk.Sizing.{Tier, compute_position_size, compute_confidence_tier_quantity}
use tera_trade.Risk.Stops.{StopPlan, StopOptions, compute_initial_stop, ahead, behind}
use tera_trade.Risk.Brackets.{round_away_from_entry}

pub record TradePlan (D : Type 0) : Type 0 where
  pub stop_price : D
  pub take_profit_price : D
  pub stop_distance_points : D
  pub trail_ticks : ℕ
  pub quantity : ℕ
  pub stop_widened : Bool

pub record TradePlanParams (D : Type 0) : Type 0 where
  pub side : Side
  pub entry_price : D
  pub atr_value : D
  pub structure_swing_price : Option D
  pub tick_size : D
  pub point_value : D
  pub risk_amount : D
  pub profit_dollars : Option D
  pub max_position_size : ℕ
  pub average_probability : D
  pub take_profit_r_multiple : D
  pub confidence_tiers : List (Tier D)
  pub explicit_stop_price : Option D
  pub explicit_take_profit_price : Option D
  pub bars : Option (List (OhlcBar D))

-- A stop, its distance and a target, before they are rounded to ticks.
pub record Prices (D : Type 0) : Type 0 where
  pub stop : D
  pub distance : D
  pub target : D
  pub widened : Bool

module _ {D : Type 0} ⦃n : Number D⦄ where
  abbrev pub min_risk_reward_denominator : D
  min_risk_reward_denominator = of_nat 3

  -- The four cases of explicit and planned prices.
  initial_prices : D → Side → D → StopPlan D → Option D → Option D → Prices D
  initial_prices entry side r plan (some stop) (some target) = record {
    stop = stop;
    distance = abs (minus entry stop);
    target = target;
    widened = false;
  }
  initial_prices entry side r plan none (some target) =
      let distance = divided_by (abs (minus target entry)) r in
      record {
        stop = behind side entry distance;
        distance = distance;
        target = target;
        widened = false;
      }
  initial_prices entry side r plan (some stop) none =
      let distance = abs (minus entry stop) in
      record {
        stop = stop;
        distance = distance;
        target = ahead side entry (times distance r);
        widened = false;
      }
  initial_prices entry side r plan none none = record {
    stop = plan.stop_price;
    distance = plan.stop_distance_points;
    target = plan.take_profit_price;
    widened = false;
  }

  -- The target in dollars, and the stop widened to risk at least a third of it.
  profit_prices : D → Side → D → ℕ → D → Prices D → Prices D
  profit_prices entry side point_value quantity profit p =
      let target = ahead side entry (divided_by profit (times point_value (of_nat quantity))) in
      let actual_risk = times (times p.distance point_value) (of_nat quantity) in
      let min_risk = divided_by profit min_risk_reward_denominator in
      let min_distance = divided_by min_risk (times point_value (of_nat quantity)) in
      if lt actual_risk min_risk
      then record {
        stop = behind side entry min_distance;
        distance = min_distance;
        target = target;
        widened = true;
      }
      else record p { target = target }

  dollar_prices : D → Side → D → ℕ → Option D → Option D → Prices D → Prices D
  unfolding profit_prices
  dollar_prices entry side point_value quantity (some profit) none p =
      if ltb 0 quantity then profit_prices entry side point_value quantity profit p else p
  dollar_prices entry side point_value quantity _ _ p = p

  pub trade_quantity : TradePlanParams D → D → ℕ
  trade_quantity p distance =
      let dollar_sizing =
        compute_position_size p.risk_amount distance p.point_value p.max_position_size in
      let confidence_quantity =
        compute_confidence_tier_quantity p.average_probability p.max_position_size
          p.confidence_tiers in
      if ltb 0 dollar_sizing.quantity then confidence_quantity else 0

  pub initial_stop_plan : TradePlanParams D → StopPlan D
  initial_stop_plan p =
      compute_initial_stop p.entry_price p.side p.atr_value p.structure_swing_price (record {
        atr_multiplier = none;
        take_profit_r_multiple = some p.take_profit_r_multiple;
        tick_size = some p.tick_size;
        chandelier_atr_multiplier = none;
        recent_bars = p.bars;
      })

  unfoldable pub planned_prices : TradePlanParams D → Prices D
  unfolding initial_prices initial_stop_plan
  planned_prices p =
      initial_prices p.entry_price p.side p.take_profit_r_multiple (initial_stop_plan p)
        p.explicit_stop_price p.explicit_take_profit_price

  unfoldable pub compute_trade_plan : TradePlanParams D → TradePlan D
  unfolding trade_quantity planned_prices dollar_prices
  compute_trade_plan p =
      let initial = planned_prices p in
      let quantity = trade_quantity p initial.distance in
      let final =
        dollar_prices p.entry_price p.side p.point_value quantity p.profit_dollars
          p.explicit_take_profit_price initial in
      record {
        stop_price = round_away_from_entry final.stop p.entry_price p.tick_size;
        take_profit_price = round_away_from_entry final.target p.entry_price p.tick_size;
        stop_distance_points = final.distance;
        trail_ticks = (initial_stop_plan p).trail_ticks;
        quantity = quantity;
        stop_widened = final.widened;
      }
