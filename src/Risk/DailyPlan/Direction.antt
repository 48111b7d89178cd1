-- ===== src/Risk/DailyPlan/Direction.antt =====
-- Which direction the daily-plan range of backend/src/risk/engine.ts lets through, and where the stop
-- and the target of a fade stand.
use tera_trade.Prelude.{◌≡◌, ◌≢◌, List, [], ◌∷◌, arith}
use tera_trade.Number.{Number, IsOrdered, IsExact, plus, minus, IsPositive, ◌≺◌}
use tera_trade.Market.{Side, long, short, opposite}
use tera_trade.Risk.Stops.Initial.{IsBehind, IsAhead}
use tera_trade.Risk.DailyPlan.{
  DailyPlanZone, none_mode, blocked, fade, resolve_daily_plan_range_mode, range_of,
  evaluate_daily_plan_range,
}

module _ {D : Type 0} ⦃n : Number D⦄ where
  resolve_one_side :
      (entry : D) (side : Side) (tick : D) (support resistance : DailyPlanZone D)
      → resolve_daily_plan_range_mode entry side tick support resistance ≡ blocked
      → let other = resolve_daily_plan_range_mode entry (opposite side) tick support resistance in
        (other ≢ blocked) × (other ≢ none_mode)
  unfolding resolve_daily_plan_range_mode
  resolve_one_side entry long tick support resistance e = ground arith
  resolve_one_side entry short tick support resistance e = ground arith

  range_one_side :
      (entry : D) (side : Side) (tick : D) (a b : DailyPlanZone D)
      → (range_of entry side tick a b).mode ≡ blocked
      → ((range_of entry (opposite side) tick a b).mode ≢ blocked)
        × ((range_of entry (opposite side) tick a b).mode ≢ none_mode)
  unfolding range_of
  range_one_side entry side tick a b e = ground (arith, resolve_one_side entry side tick a b)

  -- The daily plan never blocks both directions: where it blocks one, the other is a fade or a breakout.
  pub evaluate_daily_plan_range_one_side :
      (entry : D) (side : Side) (tick : D) (zones : List (DailyPlanZone D))
      → (evaluate_daily_plan_range entry side tick zones).mode ≡ blocked
      → let other = evaluate_daily_plan_range entry (opposite side) tick zones in
        (other.mode ≢ blocked) × (other.mode ≢ none_mode)
  unfolding evaluate_daily_plan_range
  evaluate_daily_plan_range_one_side entry side tick [] e = cc
  evaluate_daily_plan_range_one_side entry side tick (a ∷ []) e = cc
  evaluate_daily_plan_range_one_side entry side tick (a ∷ b ∷ c ∷ zones) e = cc
  evaluate_daily_plan_range_one_side entry side tick (a ∷ b ∷ []) e =
      ground (arith, range_one_side entry side tick a b, range_one_side entry side tick b a)

  module _ (laws : IsOrdered D) (exact : IsExact D) where
    resolve_fade :
        (entry : D) (side : Side) (tick : D) (support resistance : DailyPlanZone D)
        {stop target : D}
        → IsPositive tick
        → support.price_high ≺ resistance.price_low
        → resolve_daily_plan_range_mode entry side tick support resistance ≡ fade stop target
        → IsBehind side entry stop × IsAhead side entry target
    unfolding resolve_daily_plan_range_mode
    resolve_fade entry long tick support resistance h apart e = ground (
      arith,
      exact.minus_lt support.price_low tick h,
      laws.lte_trans support.price_low entry (minus support.price_low tick),
      laws.lte_total support.price_high resistance.price_low,
      laws.lte_trans entry support.price_high resistance.price_low,
    )
    resolve_fade entry short tick support resistance h apart e = ground (
      arith,
      exact.plus_gt resistance.price_high tick h,
      laws.lte_trans (plus resistance.price_high tick) entry resistance.price_high,
      laws.lte_total support.price_high resistance.price_low,
      laws.lte_trans support.price_high resistance.price_low entry,
    )

    -- With a positive tick, the stop of a fade stands strictly behind the entry in the direction of the
    -- trade, and its target not behind it.
    pub evaluate_daily_plan_range_fade :
        (entry : D) (side : Side) (tick : D) (zones : List (DailyPlanZone D)) {stop target : D}
        → IsPositive tick
        → (evaluate_daily_plan_range entry side tick zones).mode ≡ fade stop target
        → IsBehind side entry stop × IsAhead side entry target
    unfolding evaluate_daily_plan_range range_of
    evaluate_daily_plan_range_fade entry side tick [] h e = cc
    evaluate_daily_plan_range_fade entry side tick (a ∷ []) h e = cc
    evaluate_daily_plan_range_fade entry side tick (a ∷ b ∷ c ∷ zones) h e = cc
    evaluate_daily_plan_range_fade entry side tick (a ∷ b ∷ []) {stop} {target} h e = ground (
      arith,
      resolve_fade entry side tick a b {stop = stop} {target = target} h,
      resolve_fade entry side tick b a {stop = stop} {target = target} h,
    )
