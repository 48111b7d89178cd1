-- ===== src/Analytics/EmaTrend.antt =====
-- backend/src/analytics/emaTrend.ts and intradayEmaProximity.ts: exponential averages of closes, their
-- slope, and their distance from the price on bars of five minutes.
pub mod Buckets
use tera_trade.Prelude.{
  List, Option, [], get_elem?, get_last?, if◌then◌else◌, leb, length, ltb, map, none, some, suc, ℕ,
  ◌&&◌, ◌*◌, ◌-◌, ◌/◌, ◌==◌, ◌∷◌,
}
use tera_trade.Number.{
  Number, abs, decimal, divided_by, gt, larger, lt, lte, minus, of_nat, plus, smaller, times,
}
use tera_trade.Market.{OhlcBar}

-- "bullish" | "bearish" | "neutral"
pub data EmaTrendLabel : Type 0 where
  bullish bearish neutral : EmaTrendLabel

pub record EmaTrend (D : Type 0) : Type 0 where
  pub ema_value : Option D
  pub slope : Option D
  pub label : EmaTrendLabel

abbrev slope_lookback_bars : ℕ
slope_lookback_bars = 10

-- INTRADAY_EMA_PERIOD, and `bucketMs`.
abbrev intraday_ema_period : ℕ
intraday_ema_period = 20

abbrev bucket_minutes : ℕ
bucket_minutes = 5

module _ {D : Type 0} ⦃n : Number D⦄ where
  -- The loop of `ema`, after the value `last`.
  ema_from : D → D → List D → List D
  ema_from alpha last [] = []
  ema_from alpha last (value ∷ values) =
      let next = plus (times alpha value) (times (minus (of_nat 1) alpha) last) in
      next ∷ ema_from alpha next values

  -- Of a list that is not empty, as all calls are.
  pub ema : List D → ℕ → List D
  unfolding ema_from
  ema [] period = []
  ema (first ∷ values) period =
      first ∷ ema_from (divided_by (of_nat 2) (of_nat (suc period))) first values

  closes_of : List (OhlcBar D) → List D
  closes_of = map (λ b. b.close)

  -- The comparison of the two averages; `none` is null.
  compare_emas : Option D → Option D → Option EmaTrendLabel
  compare_emas (some fast) (some slow) =
      if lte fast slow && lte slow fast
      then none
      else if gt fast slow
      then some bullish
      else some bearish
  compare_emas _ _ = none

  pub compute_ema20_ema200_regime : List (OhlcBar D) → ℕ → ℕ → Option EmaTrendLabel
  unfolding ema closes_of compare_emas
  compute_ema20_ema200_regime bars fast_period slow_period =
      let closes = closes_of bars in
      if ltb (length closes) slow_period
      then none
      else compare_emas (get_last? (ema closes fast_period)) (get_last? (ema closes slow_period))

  slope_between : D → D → Option D
  slope_between now_val past_val =
      if lte past_val (of_nat 0) && lte (of_nat 0) past_val
      then none
      else some (divided_by (minus now_val past_val) (abs past_val))

  -- `emaSeries.at(-1 - SLOPE_LOOKBACK_BARS)`, where there are enough values.
  slope_of : List D → Option D
  unfolding slope_between
  slope_of series =
      if ltb slope_lookback_bars (length series)
      then elim (get_last? series) [
        | none ↦ none
        | some now_val ↦ elim (get_elem? series (length series - suc slope_lookback_bars)) [
          | none ↦ none
          | some past_val ↦ slope_between now_val past_val
        ]
      ]
      else none

  trend_label : D → D → Option D → EmaTrendLabel
  trend_label last_close value none = neutral
  trend_label last_close value (some slope) =
      if gt last_close value && gt slope (decimal 3 4)
      then bullish
      else if lt last_close value && lt slope (minus (of_nat 0) (decimal 3 4))
      then bearish
      else neutral

  trend_of : Option D → Option D → Option D → EmaTrend D
  unfolding trend_label
  trend_of (some last_close) (some value) slope = record {
    ema_value = some value;
    slope = slope;
    label = trend_label last_close value slope;
  }
  trend_of _ _ slope = record { ema_value = none; slope = none; label = neutral }

  pub classify_ema_trend : List (OhlcBar D) → ℕ → EmaTrend D
  unfolding ema closes_of slope_of trend_of
  classify_ema_trend bars period =
      let closes = closes_of bars in
      let series = ema closes period in
      if ltb (length closes) period
      then record { ema_value = none; slope = none; label = neutral }
      else trend_of (get_last? closes) (get_last? series) (slope_of series)

  abbrev pub bucket_start : ℕ → OhlcBar D → ℕ
  bucket_start span bar = bar.time / span * span

  pub merge_bucket : OhlcBar D → OhlcBar D → OhlcBar D
  merge_bucket bar existing = record existing {
    high = larger existing.high bar.high;
    low = smaller existing.low bar.low;
    close = bar.close;
    volume = plus existing.volume bar.volume;
  }

  -- The body of the loop over the bars; the Map of buckets is a list in the order of insertion.
  pub put_bar : ℕ → OhlcBar D → List (OhlcBar D) → List (OhlcBar D)
  unfolding merge_bucket
  put_bar key bar [] = record bar { time = key } ∷ []
  put_bar key bar (b ∷ buckets) =
      let rest = put_bar key bar buckets in
      if b.time == key then merge_bucket bar b ∷ buckets else b ∷ rest

  pub put_bars : ℕ → List (OhlcBar D) → List (OhlcBar D) → List (OhlcBar D)
  unfolding put_bar
  put_bars span [] buckets = buckets
  put_bars span (bar ∷ bars) buckets =
      put_bars span bars (put_bar (bucket_start span bar) bar buckets)

  pub insert_bar : OhlcBar D → List (OhlcBar D) → List (OhlcBar D)
  insert_bar x [] = x ∷ []
  insert_bar x (y ∷ ys) =
      let rest = insert_bar x ys in if leb x.time y.time then x ∷ y ∷ ys else y ∷ rest

  pub sort_bars : List (OhlcBar D) → List (OhlcBar D)
  unfolding insert_bar
  sort_bars [] = []
  sort_bars (x ∷ xs) = insert_bar x (sort_bars xs)

  unfoldable pub aggregate_bars : List (OhlcBar D) → ℕ → List (OhlcBar D)
  unfolding put_bars sort_bars
  aggregate_bars bars minutes = sort_bars (put_bars (minutes * 60000) bars [])

  distance_between : Option D → Option D → D → Option D
  distance_between (some last_close) (some value) atr_value =
      some (divided_by (minus last_close value) atr_value)
  distance_between _ _ atr_value = none

  pub intraday_5m_ema_distance_atr : List (OhlcBar D) → Option D → Option D
  unfolding aggregate_bars closes_of ema distance_between
  intraday_5m_ema_distance_atr bars none = none
  intraday_5m_ema_distance_atr bars (some atr_value) =
      let closes = closes_of (aggregate_bars bars bucket_minutes) in
      if lte atr_value (of_nat 0)
      then none
      else if ltb (length closes) intraday_ema_period
      then none
      else distance_between (get_last? closes) (get_last? (ema closes intraday_ema_period))
          atr_value
