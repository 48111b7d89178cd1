-- ===== src/Risk/Stops/Candles.antt =====
-- The 5-minute candles of backend/src/risk/stops.ts. A `Map` keyed by the bucket is an association
-- list in insertion order.
use tera_trade.Prelude.{
  ℕ, ◌*◌, ◌/◌, leb, ◌==◌, if◌then◌else◌, Option, none, some, List, [], ◌∷◌, ◌++◌, map, get_last?,
}
use tera_trade.Number.{Number, lte, plus, of_nat, larger, smaller}
use tera_trade.Market.{OhlcBar}
use tera_trade.Indicators.{atr}

-- 5 minutes, in milliseconds.
abbrev pub bucket_ms : ℕ
bucket_ms = 300_000

module _ {ℓ} {A : Type ℓ} where
  insert_bucket : ℕ × A → List (ℕ × A) → List (ℕ × A)
  insert_bucket b [] = b ∷ []
  insert_bucket b (c ∷ cs) = if leb b.0 c.0 then b ∷ c ∷ cs else c ∷ insert_bucket b cs

  -- `[...buckets.entries()].sort((a, b) => a[0] - b[0])`
  pub sort_buckets : List (ℕ × A) → List (ℕ × A)
  unfolding insert_bucket
  sort_buckets [] = []
  sort_buckets (b ∷ bs) = insert_bucket b (sort_buckets bs)

module _ {D : Type 0} ⦃n : Number D⦄ where
  -- `buckets.get(key)` and the four updates of `existing`.
  pub merge_bar : OhlcBar D → OhlcBar D → OhlcBar D
  merge_bar existing bar = record existing {
    high = larger existing.high bar.high;
    low = smaller existing.low bar.low;
    close = bar.close;
    volume = plus existing.volume bar.volume;
  }

  pub add_to_buckets : ℕ → OhlcBar D → List (ℕ × OhlcBar D) → List (ℕ × OhlcBar D)
  add_to_buckets key bar [] = (key, bar) ∷ []
  add_to_buckets key bar ((k, existing) ∷ rest) =
      if k == key
      then (k, merge_bar existing bar) ∷ rest
      else (k, existing) ∷ add_to_buckets key bar rest

  pub bucket_bars : List (ℕ × OhlcBar D) → List (OhlcBar D) → List (ℕ × OhlcBar D)
  unfolding add_to_buckets merge_bar
  bucket_bars buckets [] = buckets
  bucket_bars buckets (bar ∷ bars) =
      bucket_bars (add_to_buckets (bar.time / bucket_ms) bar buckets) bars

  -- `series.filter((v) => !Number.isNaN(v))`
  pub valid_values : List (Option D) → List D
  valid_values [] = []
  valid_values (none ∷ vs) = valid_values vs
  valid_values (some v ∷ vs) = v ∷ valid_values vs

  unfoldable pub five_minute_atr_points : List (OhlcBar D) → Option D
  unfolding bucket_bars sort_buckets valid_values
  five_minute_atr_points one_minute_bars =
      let five_minute_bars = map (λ b. b.1) (sort_buckets (bucket_bars [] one_minute_bars)) in
      elim (get_last? (valid_values (atr five_minute_bars))) [
        | none ↦ none
        | some last ↦ if lte last (of_nat 0) then none else some last
      ]

  pub add_to_groups : ℕ → OhlcBar D → List (ℕ × List (OhlcBar D)) → List (ℕ × List (OhlcBar D))
  add_to_groups key bar [] = (key, bar ∷ []) ∷ []
  add_to_groups key bar ((k, group) ∷ rest) =
      if k == key then (k, group ++ bar ∷ []) ∷ rest else (k, group) ∷ add_to_groups key bar rest

  pub group_bars : List (ℕ × List (OhlcBar D)) → List (OhlcBar D) → List (ℕ × List (OhlcBar D))
  unfolding add_to_groups
  group_bars groups [] = groups
  group_bars groups (bar ∷ bars) =
      group_bars (add_to_groups (bar.time / bucket_ms * bucket_ms) bar groups) bars

  -- The candle of a group that starts with `first`, bar after bar.
  pub candle_from : OhlcBar D → List (OhlcBar D) → OhlcBar D
  candle_from candle [] = candle
  candle_from candle (bar ∷ bars) =
      candle_from
        (record candle {
          high = larger candle.high bar.high;
          low = smaller candle.low bar.low;
          close = bar.close;
          volume = plus candle.volume bar.volume;
        })
        bars

  pub candle_of : ℕ × List (OhlcBar D) → List (OhlcBar D)
  unfolding candle_from
  candle_of (bucket_start, []) = []
  candle_of (bucket_start, first ∷ rest) =
      candle_from (record first { time = bucket_start; volume = plus (of_nat 0) first.volume }) rest
      ∷ []

  pub candles_of : List (ℕ × List (OhlcBar D)) → List (OhlcBar D)
  unfolding candle_of
  candles_of [] = []
  candles_of (g ∷ gs) = candle_of g ++ candles_of gs

  unfoldable pub aggregate_to_five_minute_candles : List (OhlcBar D) → List (OhlcBar D)
  unfolding group_bars candles_of sort_buckets
  aggregate_to_five_minute_candles bars = candles_of (sort_buckets (group_bars [] bars))
