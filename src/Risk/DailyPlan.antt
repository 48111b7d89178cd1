-- ===== src/Risk/DailyPlan.antt =====
-- backend/src/risk/engine.ts: the daily-plan range of a session. Texts name which message is built.
pub mod Direction
use tera_trade.Prelude.{
  Bool, true, false, ◌&&◌, if◌then◌else◌, Option, none, some, List, [], ◌∷◌, String,
}
use tera_trade.Number.{Number, lte, gte, lt, gt, plus, minus}
use tera_trade.Market.{Side, long, short, is_long}

pub data Enforcement : Type 0 where
  hard soft : Enforcement

pub record DailyPlanZone (D : Type 0) : Type 0 where
  pub price_low : D
  pub price_high : D
  pub enforcement : Enforcement
  pub label : String

-- The mode, with the level-anchored stop and target that only "fade" has.
pub data RangeMode (D : Type 0) : Type 0 where
  none_mode blocked breakout : RangeMode D
  fade : D → D → RangeMode D

pub record DailyPlanRangeResult (D : Type 0) : Type 0 where
  pub mode : RangeMode D
  pub support : Option (DailyPlanZone D)
  pub resistance : Option (DailyPlanZone D)

module _ {D : Type 0} ⦃n : Number D⦄ where
  abbrev pub is_testing : D → DailyPlanZone D → Bool
  is_testing entry_price z = gte entry_price z.price_low && lte entry_price z.price_high

  pub resolve_daily_plan_range_mode : D → Side → D → DailyPlanZone D → DailyPlanZone D → RangeMode D
  resolve_daily_plan_range_mode entry_price side tick_size support resistance =
      if is_testing entry_price resistance
      then if is_long side
        then blocked
        else fade (plus resistance.price_high tick_size) support.price_high
      else if is_testing entry_price support
      then if is_long side
        then fade (minus support.price_low tick_size) resistance.price_low
        else blocked
      else if gt entry_price resistance.price_high
      then if is_long side then breakout else blocked
      else if lt entry_price support.price_low
      then if is_long side then blocked else breakout
      else none_mode

  -- The two zones by their lower edges; `none` where they overlap.
  range_of : D → Side → D → DailyPlanZone D → DailyPlanZone D → DailyPlanRangeResult D
  unfolding resolve_daily_plan_range_mode
  range_of entry_price side tick_size support resistance =
      if lt support.price_high resistance.price_low
      then record {
        mode = resolve_daily_plan_range_mode entry_price side tick_size support resistance;
        support = some support;
        resistance = some resistance;
      }
      else record { mode = none_mode; support = none; resistance = none }

  unfoldable pub evaluate_daily_plan_range :
      D → Side → D → List (DailyPlanZone D) → DailyPlanRangeResult D
  unfolding range_of
  evaluate_daily_plan_range entry_price side tick_size (a ∷ b ∷ []) =
      if lte a.price_low b.price_low
      then range_of entry_price side tick_size a b
      else range_of entry_price side tick_size b a
  evaluate_daily_plan_range entry_price side tick_size _ = record {
    mode = none_mode;
    support = none;
    resistance = none;
  }
