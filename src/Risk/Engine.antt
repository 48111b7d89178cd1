-- ===== src/Risk/Engine.antt =====
-- backend/src/risk/engine.ts: `RiskEngine.assessNewTrade`, the last gate before an order. Texts name
-- which message is built. The circuit breakers, which the method runs and whose result it drops, are
-- not called here; Risk/CircuitBreakers.antt models them.
mod Gates
mod Prices
pub mod Approval
pub mod Cleared
pub mod Target
unfoldable pub use Gates.*
unfoldable pub use Prices.*
use mathlib.Core.Option
use tera_trade.Prelude.{
  ℕ, Bool, true, false, not, ltb, ◌&&◌, ◌||◌, if◌then◌else◌, Option, none, some, get_or, is_some,
  List, [], ◌∷◌,
}
use tera_trade.Number.{Number, lt, gt, plus, minus, times, divided_by, of_nat, abs}
use tera_trade.Market.{Side, OhlcBar}
use tera_trade.Analytics.SupportResistance.{
  SrLevel, NearestLevelResult, compute_support_resistance_levels, find_level_near_breakout,
  find_nearest_relevant_level, find_nearest_target_level, min_level_touches,
}
use tera_trade.Risk.CircuitBreakers.{AccountRiskState, RiskLimitsConfig}
use tera_trade.Risk.Sizing.{Tier, compute_confidence_tier_quantity}
use tera_trade.Risk.Stops.{five_minute_atr_points}
use tera_trade.Risk.Brackets.{round_away_from_entry}
use tera_trade.Risk.DailyPlan.{
  DailyPlanZone, DailyPlanRangeResult, RangeMode, fade, blocked, evaluate_daily_plan_range,
}
use tera_trade.Risk.TradePlan.{TradePlan, TradePlanParams, compute_trade_plan}

module _ {D : Type 0} ⦃n : Number D⦄ where
  -- `explicitStopPrice ?? (mode === "fade" ? roundAwayFromEntry(…) : undefined)`
  effective_stop : AssessParams D → RangeMode D → Option D
  effective_stop p (fade stop target) =
      some (get_or p.explicit_stop_price (round_away_from_entry stop p.entry_price p.tick_size))
  effective_stop p _ = p.explicit_stop_price

  effective_target : AssessParams D → RangeMode D → Option D
  effective_target p (fade stop target) =
      some (
        get_or p.explicit_take_profit_price
          (round_away_from_entry target p.entry_price p.tick_size))
  effective_target p _ = p.explicit_take_profit_price

  -- The returns of the branch for a symbol with `hardTakeProfitDollars` and an assistant cap. With and
  -- without a daily-plan range the code computes the same prices, and differs in the text.
  pub assess_assistant : AssessParams D → D → Option (SrLevel D) → RiskAssessment D
  unfolding rejected
  assess_assistant p cap nearest =
      let quantity =
        compute_confidence_tier_quantity p.average_probability p.limits.max_position_size
          p.confidence_tiers in
      let prices = assistant_prices p.side p.entry_price p.tick_size cap in
      if reward_below_risk_violation p.entry_price prices.stop prices.target p.side
      then rejected reward_below_risk nearest none
      else record {
        approved = ltb 0 quantity;
        quantity = quantity;
        stop_price = some prices.stop;
        take_profit_price = some prices.target;
        trail_ticks = none;
        stop_distance_points = some prices.distance;
        reason = assistant_target;
        trip_kill_switch = false;
        nearest_sr_level = nearest;
        target_sr_level = none;
      }

  pub risk_amount_of : AssessParams D → D
  risk_amount_of p =
      get_or p.limits.per_trade_risk_dollars
        (divided_by (times p.account_state.current_equity p.limits.per_trade_risk_pct) (of_nat 100))

  pub trade_plan_params : AssessParams D → RangeMode D → TradePlanParams D
  unfolding effective_stop effective_target risk_amount_of
  trade_plan_params p mode = record {
    side = p.side;
    entry_price = p.entry_price;
    atr_value = p.atr_value;
    structure_swing_price = p.structure_swing_price;
    tick_size = p.tick_size;
    point_value = p.point_value;
    risk_amount = risk_amount_of p;
    profit_dollars = p.limits.per_trade_profit_dollars;
    max_position_size = p.limits.max_position_size;
    average_probability = p.average_probability;
    take_profit_r_multiple = p.take_profit_r_multiple;
    confidence_tiers = p.confidence_tiers;
    explicit_stop_price = effective_stop p mode;
    explicit_take_profit_price = effective_target p mode;
    bars = some p.bars;
  }

  -- `fiveMinuteAtrPoints(bars)?.times(MIN_TARGET_ATR5_MULTIPLE)`
  unfoldable pub min_target_distance : AssessParams D → Option D
  min_target_distance p = Option.map (λ atr5. times atr5 (of_nat 3)) (five_minute_atr_points p.bars)

  -- The nearest target level, unless the target is explicit or the level is too near.
  target_level_of : AssessParams D → Option D → Option D → Option (SrLevel D) → Option (SrLevel D)
  target_level_of p (some target) min_distance level = none
  target_level_of p none (some min_distance) (some level) =
      if lt (abs (minus level.price p.entry_price)) min_distance then none else some level
  target_level_of p none min_distance level = level

  pub target_level : AssessParams D → Option D → Option (SrLevel D)
  unfolding target_level_of
  target_level p explicit_target =
      target_level_of p explicit_target (min_target_distance p)
        (find_nearest_target_level (levels_of p) p.side p.entry_price)

  pub settled_prices : AssessParams D → TradePlan D → Option (SrLevel D) → SettledPrices D
  settled_prices p plan level =
      let planned : SettledPrices D = record {
        stop = plan.stop_price;
        target = plan.take_profit_price;
        distance = plan.stop_distance_points;
      } in
      capped_prices p.side p.entry_price p.tick_size p.assistant_take_profit_cap_points (
        widened_prices p.side p.entry_price p.tick_size (min_target_distance p)
          (level_prices p.side p.entry_price p.tick_size level planned))

  pub assess_generic : AssessParams D → RangeMode D → Option (SrLevel D) → RiskAssessment D
  unfolding rejected trade_plan_params settled_prices target_level
  assess_generic p mode nearest =
      let params = trade_plan_params p mode in
      let plan = compute_trade_plan params in
      let level = target_level p params.explicit_take_profit_price in
      let prices = settled_prices p plan level in
      if room_too_small_test p.entry_price p.tick_size (min_target_distance p) prices
      then rejected room_too_small nearest none
      else if reward_risk_floor_violation prices.distance prices.target p.entry_price
      then rejected reward_risk_floor nearest level
      else record {
        approved = ltb 0 plan.quantity;
        quantity = plan.quantity;
        stop_price = some prices.stop;
        take_profit_price = some prices.target;
        trail_ticks = some plan.trail_ticks;
        stop_distance_points = some prices.distance;
        reason = generic_plan;
        trip_kill_switch = false;
        nearest_sr_level = nearest;
        target_sr_level = level;
      }

  -- `if (hardTakeProfitDollars !== undefined && assistantTakeProfitCapPoints != null)`
  pub assess_prices :
      AssessParams D → Option D → Option D → RangeMode D → Option (SrLevel D) → RiskAssessment D
  unfolding assess_assistant assess_generic
  assess_prices p (some dollars) (some cap) mode nearest = assess_assistant p cap nearest
  assess_prices p _ _ mode nearest = assess_generic p mode nearest

  -- The method from its first price on.
  pub final_assessment : AssessParams D → RiskAssessment D
  unfolding assess_prices
  final_assessment p =
      assess_prices p p.hard_take_profit_dollars p.assistant_take_profit_cap_points
        (daily_plan_range p).mode (level_of (nearest_level p))

  -- An early return with a reason, or the rest of the method.
  pub unless : Option AssessReason → Option (SrLevel D) → RiskAssessment D → RiskAssessment D
  unfolding rejected
  unless (some reason) nearest rest = rejected reason nearest none
  unless none nearest rest = rest

  unfoldable pub assess_new_trade : AssessParams D → RiskAssessment D
  unfolding final_assessment unless
  assess_new_trade p =
      let nearest = nearest_level p in
      let level_gate =
        if p.sr_gate_bypass
        then none
        else sr_gate p.signal_kind p.sr_proximity_gate_suspended nearest in
      let range = daily_plan_range p in
      let plan_gate = daily_plan_gate p.requires_daily_plan range in
      if p.has_conflicting_cross_symbol_position
      then rejected conflicting_position none none
      else unless level_gate (level_of nearest)
          (unless plan_gate (level_of nearest) (final_assessment p))
