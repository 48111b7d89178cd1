-- ===== src/Tests/Prices.antt =====
-- Stops, brackets and plans of a long at 5000.
use tera_trade.Risk.Sizing.{compute_confidence_tier_quantity, compute_position_size}
use tera_trade.Prelude.Int.{◌+ℤ◌, ◌-ℤ◌, pos}
use tera_trade.Prelude.{◌≡◌, ◌≢◌, refl, true, some, none, List, [], ◌∷◌, arith, ◌<◌}
use tera_trade.Number.{decimal}
use tera_trade.Number.Fixed.{Fixed, fixed_number, Fixed-IsOrdered, Fixed-IsExact}
use tera_trade.Market.{long, short}
use tera_trade.Tests.Data.{tiers, whole_points}
use tera_trade.Risk.Stops.{StopOptions, StopBasis, compute_initial_stop, optional_swing_plan}
use tera_trade.Risk.Stops.Initial.{
  IsBehind, compute_initial_stop_side, IsStopOf, IsAhead, atr_stop_distance_of,
}
use tera_trade.Risk.Brackets.{
  TickBand, bracket_is_valid_against_entry, reanchor_bracket_to_real_entry,
  has_reached_trailing_stop_activation,
}
use tera_trade.Risk.Brackets.Anchoring.{bracket_is_valid-reanchor}
use tera_trade.Risk.TradePlan.{TradePlanParams, compute_trade_plan}
use tera_trade.Risk.DailyPlan.{DailyPlanZone, hard, fade, blocked, evaluate_daily_plan_range}

abbrev options : StopOptions Fixed
options = record {
  atr_multiplier = none;
  take_profit_r_multiple = none;
  tick_size = some (pos 2500);
  chandelier_atr_multiplier = none;
  recent_bars = none;
}

compute_initial_stop_side_example :
    let plan =
      compute_initial_stop
        (whole_points 5000)
        long
        (whole_points 4)
        (some (whole_points 4997))
        options in
    IsStopOf
      (whole_points 5000)
      long
      (atr_stop_distance_of (whole_points 4) options)
      (some (whole_points 4997))
      plan.basis
      plan.stop_price
    × IsAhead long (whole_points 5000) plan.take_profit_price
compute_initial_stop_side_example =
    compute_initial_stop_side Fixed-IsOrdered Fixed-IsExact (whole_points 5000) long
      (whole_points 4) (some (whole_points 4997)) options refl refl

plan_basis :
    (compute_initial_stop
      (whole_points 5000)
      long
      (whole_points 4)
      (some (whole_points 4997))
      options).basis
    ≢ StopBasis.swing
unfolding compute_initial_stop optional_swing_plan
plan_basis = ground arith

no_swing : optional_swing_plan (whole_points 5000) long none (decimal 30 1) ≡ none
unfolding optional_swing_plan
no_swing = refl

not-IsBehind : ¬ IsBehind long (whole_points 5000) (whole_points 5003)
not-IsBehind = ground arith

bracket_is_valid-reanchor_example :
    let moved =
      reanchor_bracket_to_real_entry
        (whole_points 5000)
        (whole_points 5002)
        (whole_points 4996)
        (some (whole_points 5012)) in
    bracket_is_valid_against_entry
      (whole_points 5002)
      moved.new_stop_price
      moved.new_take_profit_price
      long
    ≡ bracket_is_valid_against_entry
        (whole_points 5000)
        (whole_points 4996)
        (some (whole_points 5012))
        long
bracket_is_valid-reanchor_example =
    bracket_is_valid-reanchor Fixed-IsExact (whole_points 5000) (whole_points 5002)
      (whole_points 4996) (some (whole_points 5012)) long

abbrev band : TickBand
band = record { min_ticks = 10; max_ticks = 40 }

armed :
    has_reached_trailing_stop_activation
      (whole_points 5000)
      (whole_points 4996)
      long
      (whole_points 5010)
      (whole_points 4999)
      none
    ≡ true
unfolding has_reached_trailing_stop_activation ◌-ℤ◌ ◌+ℤ◌
armed = refl

abbrev plan_params : TradePlanParams Fixed
plan_params = record {
  side = long;
  entry_price = whole_points 5000;
  atr_value = whole_points 4;
  structure_swing_price = none;
  tick_size = pos 2500;
  point_value = whole_points 5;
  risk_amount = whole_points 200;
  profit_dollars = some (whole_points 300);
  max_position_size = 5;
  average_probability = pos 7500;
  take_profit_r_multiple = whole_points 3;
  confidence_tiers = tiers;
  explicit_stop_price = none;
  explicit_take_profit_price = none;
  bars = none;
}

plan_size : (compute_trade_plan plan_params).quantity ≡ 2
unfolding compute_trade_plan compute_position_size compute_initial_stop
    compute_confidence_tier_quantity
plan_size = refl

plan_taken : 0 < (compute_trade_plan plan_params).quantity
plan_taken = omega (arith, plan_size)

abbrev zones : List (DailyPlanZone Fixed)
zones =
    record {
      price_low = whole_points 4998;
      price_high = whole_points 5001;
      enforcement = hard;
      label = "support";
    }
    ∷ record {
      price_low = whole_points 5050;
      price_high = whole_points 5055;
      enforcement = hard;
      label = "resistance";
    }
    ∷ []

fights_support :
    (evaluate_daily_plan_range (whole_points 5000) short (pos 2500) zones).mode ≡ blocked
unfolding evaluate_daily_plan_range
fights_support = refl

fades_support :
    (evaluate_daily_plan_range (whole_points 5000) long (pos 2500) zones).mode
    ≡ fade (pos 49_977_500) (whole_points 5050)
unfolding evaluate_daily_plan_range ◌-ℤ◌
fades_support = refl
