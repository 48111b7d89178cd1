-- ===== src/Risk/Engine/Gates.antt =====
-- The parameters and the answer of `assessNewTrade` of backend/src/risk/engine.ts, and its gates on
-- levels and on the daily plan. Texts name which message is built.
use tera_trade.Prelude.{
  ℕ, Bool, true, false, not, ltb, ◌&&◌, if◌then◌else◌, Option, none, some, is_some, List,
}
use tera_trade.Number.{Number, lt, gt, decimal}
use tera_trade.Market.{Side, OhlcBar}
use tera_trade.Analytics.SupportResistance.{
  SrLevel, NearestLevelResult, compute_support_resistance_levels, find_level_near_breakout,
  find_nearest_relevant_level, min_level_touches,
}
use tera_trade.Risk.CircuitBreakers.{AccountRiskState, RiskLimitsConfig}
use tera_trade.Risk.Sizing.{Tier}
use tera_trade.Risk.DailyPlan.{
  DailyPlanZone, DailyPlanRangeResult, RangeMode, blocked, evaluate_daily_plan_range,
}

pub data SignalKind : Type 0 where
  breakout reversal : SignalKind

abbrev pub is_breakout : SignalKind → Bool
is_breakout breakout = true
is_breakout reversal = false

pub record AssessParams (D : Type 0) : Type 0 where
  pub side : Side
  pub entry_price : D
  pub atr_value : D
  pub structure_swing_price : Option D
  pub signal_kind : SignalKind
  pub breakout_level_price : Option D
  pub account_state : AccountRiskState D
  pub limits : RiskLimitsConfig D
  pub point_value : D
  pub tick_size : D
  pub bars : List (OhlcBar D)
  pub average_probability : D
  pub take_profit_r_multiple : D
  pub confidence_tiers : List (Tier D)
  pub explicit_stop_price : Option D
  pub explicit_take_profit_price : Option D
  pub sr_proximity_gate_suspended : Bool
  pub sr_gate_bypass : Bool
  pub hard_take_profit_dollars : Option D
  pub assistant_take_profit_cap_points : Option D
  pub daily_plan_zones : List (DailyPlanZone D)
  pub requires_daily_plan : Bool
  pub has_conflicting_cross_symbol_position : Bool

pub data AssessReason : Type 0 where
  conflicting_position no_level untested_level too_far too_close : AssessReason
  daily_plan_missing daily_plan_blocked reward_below_risk room_too_small reward_risk_floor :
      AssessReason
  assistant_target generic_plan : AssessReason

pub record RiskAssessment (D : Type 0) : Type 0 where
  pub approved : Bool
  pub quantity : ℕ
  pub stop_price : Option D
  pub take_profit_price : Option D
  pub trail_ticks : Option ℕ
  pub stop_distance_points : Option D
  pub reason : AssessReason
  pub trip_kill_switch : Bool
  pub nearest_sr_level : Option (SrLevel D)
  pub target_sr_level : Option (SrLevel D)

module _ {D : Type 0} ⦃n : Number D⦄ where
  -- MAX_ENTRY_DISTANCE_ATR and MIN_ENTRY_DISTANCE_ATR
  abbrev pub max_entry_distance_atr : D
  max_entry_distance_atr = decimal 275 2

  abbrev pub min_entry_distance_atr : D
  min_entry_distance_atr = decimal 25 2

  -- The assessment of every early return: nothing approved, no price, no kill switch.
  unfoldable pub rejected :
      AssessReason → Option (SrLevel D) → Option (SrLevel D) → RiskAssessment D
  rejected reason nearest target = record {
    approved = false;
    quantity = 0;
    stop_price = none;
    take_profit_price = none;
    trail_ticks = none;
    stop_distance_points = none;
    reason = reason;
    trip_kill_switch = false;
    nearest_sr_level = nearest;
    target_sr_level = target;
  }

  unfoldable pub levels_of : AssessParams D → List (SrLevel D)
  levels_of p = compute_support_resistance_levels p.bars p.entry_price p.atr_value

  nearest_for : SignalKind → Option D → AssessParams D → Option (NearestLevelResult D)
  unfolding levels_of
  nearest_for breakout (some level_price) p =
      find_level_near_breakout (levels_of p) level_price p.entry_price p.atr_value
  nearest_for _ _ p = find_nearest_relevant_level (levels_of p) p.side p.entry_price p.atr_value

  unfoldable pub nearest_level : AssessParams D → Option (NearestLevelResult D)
  unfolding nearest_for
  nearest_level p = nearest_for p.signal_kind p.breakout_level_price p

  abbrev pub level_of : Option (NearestLevelResult D) → Option (SrLevel D)
  level_of none = none
  level_of (some r) = some r.level

  -- Comparisons with a distance that may be infinite, as `none`.
  abbrev pub beyond : Option D → D → Bool
  beyond none limit = true
  beyond (some d) limit = gt d limit

  abbrev pub within : Option D → D → Bool
  within none limit = false
  within (some d) limit = lt d limit

  -- The block under `if (!srGateBypass)`; `none` is a pass.
  unfoldable pub sr_gate : SignalKind → Bool → Option (NearestLevelResult D) → Option AssessReason
  sr_gate kind suspended none = some no_level
  sr_gate kind suspended (some r) =
      if is_breakout kind && ltb r.level.touches min_level_touches
      then some untested_level
      else if suspended
      then none
      else if not (is_breakout kind) && beyond r.distance_in_atr max_entry_distance_atr
      then some too_far
      else if within r.distance_in_atr min_entry_distance_atr
      then some too_close
      else none

  abbrev pub has_range : DailyPlanRangeResult D → Bool
  has_range r = is_some r.support && is_some r.resistance

  abbrev is_blocked : RangeMode D → Bool
  is_blocked blocked = true
  is_blocked _ = false

  -- The two daily-plan returns.
  unfoldable pub daily_plan_gate : Bool → DailyPlanRangeResult D → Option AssessReason
  daily_plan_gate requires_daily_plan range =
      if requires_daily_plan && not (has_range range)
      then some daily_plan_missing
      else if is_blocked range.mode
      then some daily_plan_blocked
      else none

  unfoldable pub daily_plan_range : AssessParams D → DailyPlanRangeResult D
  daily_plan_range p = evaluate_daily_plan_range p.entry_price p.side p.tick_size p.daily_plan_zones
