-- ===== src/Tests/Engine.antt =====
-- A trade that the risk engine approves, and what follows for it.
use tera_trade.Prelude.Int.{◌-ℤ◌, ◌+ℤ◌}
use tera_trade.Risk.Engine.{
  sr_gate, daily_plan_gate, room_too_small_test, capped_prices, widened_prices, level_prices,
  reward_risk_floor_violation,
}
use tera_trade.Risk.Sizing.{compute_position_size, compute_confidence_tier_quantity}
use tera_trade.Risk.Stops.{
  compute_initial_stop, compute_swing_based_plan, five_minute_atr_points,
  aggregate_to_five_minute_candles,
}
use tera_trade.Risk.TradePlan.{compute_trade_plan}
use tera_trade.Risk.Brackets.{round_away_from_entry}
use tera_trade.Risk.DailyPlan.{evaluate_daily_plan_range}
use tera_trade.Analytics.SupportResistance.{
  compute_support_resistance_levels, find_nearest_relevant_level, find_nearest_target_level,
}
use tera_trade.Indicators.{atr}
use tera_trade.Prelude.Int.{◌+ℤ◌, ◌-ℤ◌, pos}
use tera_trade.Indicators.{atr}
use tera_trade.Risk.Stops.{five_minute_atr_points}
use tera_trade.Prelude.{◌≡◌, refl, true, false, some, ◌⊎◌, ◌≢◌}
use tera_trade.Number.Fixed.{fixed_number}
use tera_trade.Tests.Data.{params, whole_points}
use tera_trade.Risk.Engine.{
  assess_new_trade, min_target_distance, nearest_level, daily_plan_range, has_range,
}
use tera_trade.Risk.DailyPlan.{blocked}
use tera_trade.Risk.Engine.Approval.{assess_new_trade-IsProtected, IsProtected}
use tera_trade.Risk.Engine.Cleared.{assess_new_trade_cleared, IsValidated}
use tera_trade.Risk.Engine.Target.{assess_new_trade-IsCapped, IsCapped}

params_approved : (assess_new_trade params).approved ≡ true
unfolding assess_new_trade compute_support_resistance_levels find_nearest_relevant_level
    find_nearest_target_level evaluate_daily_plan_range compute_trade_plan compute_initial_stop
    compute_swing_based_plan aggregate_to_five_minute_candles five_minute_atr_points
    compute_position_size compute_confidence_tier_quantity round_away_from_entry atr
    min_target_distance sr_gate nearest_level ◌-ℤ◌ ◌+ℤ◌ daily_plan_gate daily_plan_range
    room_too_small_test capped_prices widened_prices level_prices reward_risk_floor_violation
params_approved = refl

params_target : (assess_new_trade params).take_profit_price ≡ some (pos 50_120_000)
unfolding assess_new_trade compute_support_resistance_levels find_nearest_relevant_level
    find_nearest_target_level evaluate_daily_plan_range compute_trade_plan compute_initial_stop
    compute_swing_based_plan aggregate_to_five_minute_candles five_minute_atr_points
    compute_position_size compute_confidence_tier_quantity round_away_from_entry atr
    min_target_distance sr_gate nearest_level ◌-ℤ◌ ◌+ℤ◌ daily_plan_gate daily_plan_range
    room_too_small_test capped_prices widened_prices level_prices reward_risk_floor_violation
params_target = refl

params_room : min_target_distance params ≡ some (pos 120_000)
unfolding min_target_distance five_minute_atr_points atr ◌+ℤ◌ ◌-ℤ◌
params_room = refl

assess_new_trade-IsProtected_example : IsProtected params (assess_new_trade params)
assess_new_trade-IsProtected_example = assess_new_trade-IsProtected params params_approved

assess_new_trade_cleared_example :
    (params.has_conflicting_cross_symbol_position ≡ false)
    × ((params.sr_gate_bypass ≡ true)
        ⊎ IsValidated params.signal_kind params.sr_proximity_gate_suspended (nearest_level params))
    × ((params.requires_daily_plan ≡ false) ⊎ (has_range (daily_plan_range params) ≡ true))
    × ((daily_plan_range params).mode ≢ blocked)
assess_new_trade_cleared_example = assess_new_trade_cleared params params_approved

assess_new_trade-IsCapped_example : IsCapped params (whole_points 20) (pos 50_120_000)
assess_new_trade-IsCapped_example =
    assess_new_trade-IsCapped params refl refl params_approved params_target
