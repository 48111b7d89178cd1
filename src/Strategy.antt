-- ===== src/Strategy.antt =====
-- backend/src/strategy: breakout.ts, meanReversion.ts and trendFollowing.ts, each a proposal of a setup from
-- the bars. The texts of `reason` are left out; `Math.sqrt` is an argument. trendFollowing.ts has an `ema`
-- of its own, whose text is that of emaTrend.ts.
pub mod Broken
use tera_trade.Prelude.{
  Bool, List, Option, String, [], drop, get_elem?, get_last?, get_or, if◌then◌else◌, length, ltb,
  map, none, some, suc, take, ℕ, ◌&&◌, ◌+◌, ◌-◌, ◌∷◌,
}
use tera_trade.Number.{Number, gt, gte, largest, lt, lte, minus, of_nat, plus, smallest, times}
use tera_trade.Market.{OhlcBar, Side, long, short}
use tera_trade.Risk.Engine.{SignalKind, reversal}
use tera_trade.Risk.Engine.{breakout}
use tera_trade.Analytics.EmaTrend.{ema}
use tera_trade.Indicators.{mean}

-- The signal of a strategy; it has a broken level exactly where its kind is a breakout.
pub record StrategySignal (D : Type 0) : Type 0 where
  pub strategy_id : String
  pub symbol : String
  pub side : Side
  pub structure_swing_price : D
  pub signal_kind : SignalKind
  pub breakout_level_price : Option D

-- LOOKBACK, PERIOD, and FAST, SLOW and SWING_LOOKBACK.
abbrev pub breakout_lookback : ℕ
breakout_lookback = 20

abbrev reversion_period : ℕ
reversion_period = 20

abbrev fast_span : ℕ
fast_span = 9

abbrev slow_span : ℕ
slow_span = 21

abbrev swing_lookback : ℕ
swing_lookback = 10

module _ {D : Type 0} where
  -- `bars.slice(-(count + 1), -1)`, of more than `count` bars.
  abbrev pub bars_before_last : ℕ → List (OhlcBar D) → List (OhlcBar D)
  bars_before_last count bars = take count (drop (length bars - suc count) bars)

module _ {D : Type 0} ⦃n : Number D⦄ where
  pub break_signal : String → Side → D → D → StrategySignal D
  break_signal symbol side swing_price level_price = record {
    strategy_id = "breakout_donchian_20";
    symbol = symbol;
    side = side;
    structure_swing_price = swing_price;
    signal_kind = breakout;
    breakout_level_price = some level_price;
  }

  pub break_of : String → D → D → OhlcBar D → Option (StrategySignal D)
  unfolding break_signal
  break_of symbol prior_high prior_low last =
      if gt last.close prior_high
      then some (break_signal symbol long prior_low prior_high)
      else if lt last.close prior_low
      then some (break_signal symbol short prior_high prior_low)
      else none

  pub break_after : String → List (OhlcBar D) → Option (OhlcBar D) → Option (StrategySignal D)
  unfolding break_of
  break_after symbol (w ∷ window) (some last) =
      break_of symbol (largest w.high (map (λ b. b.high) window))
        (smallest w.low (map (λ b. b.low) window)) last
  break_after symbol _ _ = none

  unfoldable pub generate_breakout_signal : String → List (OhlcBar D) → Option (StrategySignal D)
  unfolding break_after
  generate_breakout_signal symbol bars =
      if ltb (length bars) (suc breakout_lookback)
      then none
      else break_after symbol (bars_before_last breakout_lookback bars) (get_last? bars)

  is_zero_number : D → Bool
  is_zero_number x = lte x (of_nat 0) && lte (of_nat 0) x

  reversal_signal : String → String → Side → D → StrategySignal D
  reversal_signal id symbol side swing_price = record {
    strategy_id = id;
    symbol = symbol;
    side = side;
    structure_swing_price = swing_price;
    signal_kind = reversal;
    breakout_level_price = none;
  }

  fade_of : String → D → D → OhlcBar D → Option (StrategySignal D)
  unfolding is_zero_number reversal_signal
  fade_of symbol sma std last =
      if is_zero_number std
      then none
      else if lt last.close (minus sma (times (of_nat 2) std))
      then some (reversal_signal "mean_reversion_bollinger_20" symbol long last.low)
      else if gt last.close (plus sma (times (of_nat 2) std))
      then some (reversal_signal "mean_reversion_bollinger_20" symbol short last.high)
      else none

  pub generate_mean_reversion_signal :
      (D → D) → String → List (OhlcBar D) → Option (StrategySignal D)
  unfolding fade_of
  generate_mean_reversion_signal sqrt symbol bars =
      let closes : List D = map (λ b. b.close) (drop (length bars - reversion_period) bars) in
      let sma = mean closes in
      let std = sqrt (mean (map (λ c. times (minus c sma) (minus c sma)) closes)) in
      if ltb (length bars) (suc reversion_period)
      then none
      else elim (get_last? bars) [ none ↦ none | some last ↦ fade_of symbol sma std last ]

  cross_of : String → D → D → List (OhlcBar D) → Option (StrategySignal D)
  unfolding reversal_signal
  cross_of symbol prev_diff curr_diff [] = none
  cross_of symbol prev_diff curr_diff (w ∷ window) =
      if lte prev_diff (of_nat 0) && gt curr_diff (of_nat 0)
      then some (
          reversal_signal "trend_following_ema_9_21" symbol long
            (smallest w.low (map (λ b. b.low) window)))
      else if gte prev_diff (of_nat 0) && lt curr_diff (of_nat 0)
      then some (
          reversal_signal "trend_following_ema_9_21" symbol short
            (largest w.high (map (λ b. b.high) window)))
      else none

  -- The values at `length - 1 - back` of the two averages, subtracted.
  difference_at : ℕ → List D → List D → D
  difference_at back fast slow =
      minus (get_or (get_elem? fast (length fast - suc back)) (of_nat 0))
        (get_or (get_elem? slow (length slow - suc back)) (of_nat 0))

  pub generate_trend_following_signal : String → List (OhlcBar D) → Option (StrategySignal D)
  unfolding cross_of difference_at
  generate_trend_following_signal symbol bars =
      let closes : List D = map (λ b. b.close) bars in
      let fast = ema closes fast_span in
      let slow = ema closes slow_span in
      if ltb (length bars) (slow_span + 2)
      then none
      else cross_of symbol (difference_at 1 fast slow) (difference_at 0 fast slow)
          (bars_before_last swing_lookback bars)
