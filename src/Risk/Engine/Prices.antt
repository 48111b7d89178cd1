-- ===== src/Risk/Engine/Prices.antt =====
-- The prices that `assessNewTrade` of backend/src/risk/engine.ts settles on, and its two checks of
-- them. A function that returns a text or null is a test here: true is a violation.
use tera_trade.Prelude.{Bool, true, false, not, ◌&&◌, if◌then◌else◌, Option, none, some}
use tera_trade.Number.{
  Number, lte, gte, lt, gt, minus, times, divided_by, abs, ceil_to, floor_to, of_nat,
}
use tera_trade.Market.{Side, is_long}
use tera_trade.Analytics.SupportResistance.{SrLevel}
use tera_trade.Risk.Stops.{ahead, behind, min_reward_risk_ratio}
use tera_trade.Risk.Brackets.{round_away_from_entry}

pub record SettledPrices (D : Type 0) : Type 0 where
  pub stop : D
  pub target : D
  pub distance : D

module _ {D : Type 0} ⦃n : Number D⦄ where
  -- `takeProfitPrice.minus(entryPrice).abs()`
  abbrev pub target_distance : D → SettledPrices D → D
  target_distance entry_price p = abs (minus p.target entry_price)

  unfoldable pub reward_risk_floor_violation : D → D → D → Bool
  reward_risk_floor_violation stop_distance_points take_profit_price entry_price = not (
      gte (abs (minus take_profit_price entry_price))
        (times stop_distance_points min_reward_risk_ratio))

  unfoldable pub reward_below_risk_violation : D → D → D → Side → Bool
  reward_below_risk_violation entry_price stop_price take_profit_price side =
      let wrong_side_target =
        if is_long side
        then lte take_profit_price entry_price
        else gte take_profit_price entry_price in
      let wrong_side_stop =
        if is_long side then gte stop_price entry_price else lte stop_price entry_price in
      let risk = abs (minus entry_price stop_price) in
      let reward = abs (minus take_profit_price entry_price) in
      if wrong_side_target then true else if wrong_side_stop then true else not (gt reward risk)

  -- The target at a distance, and the stop at a third of it, both rounded away from the entry.
  unfoldable pub assistant_prices : Side → D → D → D → SettledPrices D
  assistant_prices side entry_price tick_size target_distance_points =
      let stop_distance_points = divided_by target_distance_points min_reward_risk_ratio in
      record {
        target =
            round_away_from_entry (ahead side entry_price target_distance_points) entry_price
              tick_size;
        distance = stop_distance_points;
        stop =
            round_away_from_entry (behind side entry_price stop_distance_points) entry_price
              tick_size;
      }

  -- The target is moved to a distance, and the stop to a third of it, rounded towards the entry.
  unfoldable pub prices_at_distance : Side → D → D → D → SettledPrices D
  prices_at_distance side entry_price tick_size points =
      let raw_stop = behind side entry_price (divided_by points min_reward_risk_ratio) in
      let stop_price =
        if is_long side then ceil_to raw_stop tick_size else floor_to raw_stop tick_size in
      record {
        target = round_away_from_entry (ahead side entry_price points) entry_price tick_size;
        stop = stop_price;
        distance = abs (minus entry_price stop_price);
      }

  -- The nearest real level in the trade's favour becomes the target.
  unfoldable pub level_prices :
      Side → D → D → Option (SrLevel D) → SettledPrices D → SettledPrices D
  level_prices side entry_price tick_size none p = p
  level_prices side entry_price tick_size (some level) p =
      assistant_prices side entry_price tick_size (abs (minus level.price entry_price))

  -- `widenedToMinTarget`
  unfoldable pub widened_prices : Side → D → D → Option D → SettledPrices D → SettledPrices D
  widened_prices side entry_price tick_size none p = p
  widened_prices side entry_price tick_size (some min_target_distance) p =
      if lt (target_distance entry_price p) min_target_distance
      then prices_at_distance side entry_price tick_size min_target_distance
      else p

  -- `cappedByDailyPlan`
  unfoldable pub capped_prices : Side → D → D → Option D → SettledPrices D → SettledPrices D
  capped_prices side entry_price tick_size none p = p
  capped_prices side entry_price tick_size (some cap) p =
      if gt cap (of_nat 0) && gt (target_distance entry_price p) cap
      then prices_at_distance side entry_price tick_size cap
      else p

  -- The return for a take-profit that has too little room.
  unfoldable pub room_too_small_test : D → D → Option D → SettledPrices D → Bool
  room_too_small_test entry_price tick_size none p = false
  room_too_small_test entry_price tick_size (some min_target_distance) p =
      lt (target_distance entry_price p) (minus min_target_distance tick_size)
