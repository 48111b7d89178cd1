-- ===== src/Analytics/Labels.antt =====
-- backend/src/analytics: the labels of priceAction.ts, gexAlignment.ts, movingAverages.ts and tradingWeek.ts.
-- The weekday and the hour in the eastern United States, by `Intl`, are arguments. An average that is NaN,
-- where there is not enough history yet, is `none`.
use tera_trade.Prelude.{
  Bool, List, Option, [], drop, false, get_last?, get_or, if◌then◌else◌, leb, length, ltb, none,
  some, true, ℕ, ◌&&◌, ◌-◌, ◌==◌, ◌∷◌,
}
use tera_trade.Number.{
  Number, abs, decimal, divided_by, gt, gte, larger, lt, lte, minus, of_nat, plus, smaller, times,
}
use tera_trade.Market.{OhlcBar}
use tera_trade.Analytics.Session.{TradingSession, asian}

-- The trend label of a regime: "up" | "down" | "none"
pub data TrendLabel : Type 0 where
  trend_up trend_down no_trend : TrendLabel

pub data MarketStructureLabel : Type 0 where
  strong_uptrend weak_uptrend ranging weak_downtrend strong_downtrend : MarketStructureLabel

pub data LiquidityLabel : Type 0 where
  high_liquidity normal_liquidity low_liquidity : LiquidityLabel

pub data PriceActionLabel : Type 0 where
  strong_bullish_body strong_bearish_body upper_wick_rejection lower_wick_rejection :
      PriceActionLabel
  indecision_doji normal_action : PriceActionLabel

pub data GexRegime : Type 0 where
  positive_gamma negative_gamma unknown_gamma : GexRegime

pub data MaDirection : Type 0 where
  stacked_up stacked_down mixed : MaDirection

pub record MaStack (D : Type 0) : Type 0 where
  pub ma_fast : Option D
  pub ma_mid : Option D
  pub ma_slow : Option D
  pub direction : MaDirection

-- Sunday is 0.
pub is_in_trading_week : ℕ → ℕ → Bool
is_in_trading_week weekday hour =
    if weekday == 6
    then false
    else if weekday == 0
    then leb 18 hour
    else if weekday == 5
    then ltb hour 17
    else true

is_asian : TradingSession → Bool
is_asian asian = true
is_asian _ = false

session_liquidity : TradingSession → LiquidityLabel
unfolding is_asian
session_liquidity session = if is_asian session then low_liquidity else normal_liquidity

module _ {D : Type 0} ⦃n : Number D⦄ where
  pub classify_market_structure : TrendLabel → Option D → MarketStructureLabel
  classify_market_structure no_trend adx = ranging
  classify_market_structure trend_up adx =
      if gte (get_or adx (of_nat 0)) (of_nat 35) then strong_uptrend else weak_uptrend
  classify_market_structure trend_down adx =
      if gte (get_or adx (of_nat 0)) (of_nat 35) then strong_downtrend else weak_downtrend

  pub classify_liquidity : Option D → TradingSession → LiquidityLabel
  unfolding session_liquidity
  classify_liquidity none session = session_liquidity session
  classify_liquidity (some zscore) session =
      if gte zscore (of_nat 1)
      then high_liquidity
      else if lte zscore (minus (of_nat 0) (of_nat 1))
      then low_liquidity
      else session_liquidity session

  candle_label : OhlcBar D → PriceActionLabel
  candle_label last =
      let range = minus last.high last.low in
      let body = abs (minus last.close last.open_price) in
      let body_ratio = divided_by body range in
      let upper_wick = minus last.high (larger last.open_price last.close) in
      let lower_wick = minus (smaller last.open_price last.close) last.low in
      let wick_limit = times body (decimal 15 1) in
      if lte range (of_nat 0)
      then normal_action
      else if lte body_ratio (decimal 15 2)
      then indecision_doji
      else if gte body_ratio (decimal 7 1)
      then (if gte last.close last.open_price then strong_bullish_body else strong_bearish_body)
      else if gt upper_wick wick_limit && gt upper_wick lower_wick
      then upper_wick_rejection
      else if gt lower_wick wick_limit && gt lower_wick upper_wick
      then lower_wick_rejection
      else normal_action

  pub describe_price_action : List (OhlcBar D) → PriceActionLabel
  unfolding candle_label
  describe_price_action bars = elim (get_last? bars) [
    | none ↦ normal_action
    | some last ↦ candle_label last
  ]

  pub classify_gex_regime : D → Option D → GexRegime
  classify_gex_regime spot_price none = unknown_gamma
  classify_gex_regime spot_price (some flip) =
      if gte spot_price flip then positive_gamma else negative_gamma

  -- The inner loop of `sma`, over the values of the window.
  window_sum : D → List D → D
  window_sum sum [] = sum
  window_sum sum (value ∷ values) = window_sum (plus sum value) values

  -- The last entry of `sma`, of a positive period.
  pub last_sma : List D → ℕ → Option D
  unfolding window_sum
  last_sma values period =
      if ltb (length values) period
      then none
      else some (
          divided_by (window_sum (of_nat 0) (drop (length values - period) values)) (of_nat period))

  ma_direction : Option D → Option D → Option D → Option D → MaDirection
  ma_direction (some last_close) (some fast) (some mid) (some slow) =
      if gt last_close fast && (gt fast mid && gt mid slow)
      then stacked_up
      else if lt last_close fast && (lt fast mid && lt mid slow)
      then stacked_down
      else mixed
  ma_direction _ _ _ _ = mixed

  pub classify_ma_stack : List D → ℕ → ℕ → ℕ → MaStack D
  unfolding last_sma ma_direction
  classify_ma_stack closes fast_period mid_period slow_period =
      let fast = last_sma closes fast_period in
      let mid = last_sma closes mid_period in
      let slow = last_sma closes slow_period in
      record {
        ma_fast = fast;
        ma_mid = mid;
        ma_slow = slow;
        direction = ma_direction (get_last? closes) fast mid slow;
      }
