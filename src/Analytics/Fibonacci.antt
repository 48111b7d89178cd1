-- ===== src/Analytics/Fibonacci.antt =====
-- backend/src/analytics/fibonacci.ts: the swing of the bars, and the levels of its retracement. A label
-- of a level is left out: it spells the ratio.
pub mod Swings
use tera_trade.Prelude.{
  Bool, List, Option, [], false, if◌then◌else◌, ltb, map, none, some, suc, true, ℕ, ◌&&◌, ◌++◌, ◌∷◌,
}
use tera_trade.Number.{Number, decimal, gt, gte, lt, lte, minus, of_nat, plus, times}
use tera_trade.Market.{OhlcBar, Side, long, short}

-- "up" | "down"
pub data SwingDirection : Type 0 where
  rising falling : SwingDirection

pub record FibLevel (D : Type 0) : Type 0 where
  pub ratio : D
  pub price : D

pub record Swing (D : Type 0) : Type 0 where
  pub high : D
  pub low : D
  pub direction : SwingDirection

-- `highIdx` and `lowIdx`, with the extremes there.
pub record SwingScan (D : Type 0) : Type 0 where
  pub high_idx : ℕ
  pub high_seen : D
  pub low_idx : ℕ
  pub low_seen : D

is_aligned : SwingDirection → Side → Bool
is_aligned rising long = true
is_aligned falling short = true
is_aligned _ _ = false

module _ {D : Type 0} ⦃n : Number D⦄ where
  abbrev retracement_ratios : List D
  retracement_ratios =
      of_nat 0
      ∷ decimal 236 3
      ∷ decimal 382 3
      ∷ decimal 5 1
      ∷ decimal 618 3
      ∷ decimal 786 3
      ∷ of_nat 1
      ∷ []

  abbrev extension_ratios : List D
  extension_ratios = decimal 1272 3 ∷ decimal 1618 3 ∷ []

  retracement_price : D → D → SwingDirection → D → D
  retracement_price swing_high swing_low rising ratio =
      minus swing_high (times (minus swing_high swing_low) ratio)
  retracement_price swing_high swing_low falling ratio =
      plus swing_low (times (minus swing_high swing_low) ratio)

  extension_price : D → D → SwingDirection → D → D
  extension_price swing_high swing_low rising ratio =
      plus swing_high (times (minus swing_high swing_low) (minus ratio (of_nat 1)))
  extension_price swing_high swing_low falling ratio =
      minus swing_low (times (minus swing_high swing_low) (minus ratio (of_nat 1)))

  insert_fib_level : FibLevel D → List (FibLevel D) → List (FibLevel D)
  insert_fib_level x [] = x ∷ []
  insert_fib_level x (y ∷ ys) =
      let rest = insert_fib_level x ys in if lte x.price y.price then x ∷ y ∷ ys else y ∷ rest

  sort_fib_levels : List (FibLevel D) → List (FibLevel D)
  unfolding insert_fib_level
  sort_fib_levels [] = []
  sort_fib_levels (x ∷ xs) = insert_fib_level x (sort_fib_levels xs)

  pub compute_fib_levels : D → D → SwingDirection → List (FibLevel D)
  unfolding retracement_price extension_price sort_fib_levels
  compute_fib_levels swing_high swing_low direction =
      let retraced : D → FibLevel D =
        λ r. record { ratio = r; price = retracement_price swing_high swing_low direction r } in
      let extended : D → FibLevel D =
        λ r. record { ratio = r; price = extension_price swing_high swing_low direction r } in
      if lte (minus swing_high swing_low) (of_nat 0)
      then []
      else sort_fib_levels (map retraced retracement_ratios ++ map extended extension_ratios)

  pub swing_step : ℕ → OhlcBar D → SwingScan D → SwingScan D
  swing_step i bar s = record {
    high_idx = if gt bar.high s.high_seen then i else s.high_idx;
    high_seen = if gt bar.high s.high_seen then bar.high else s.high_seen;
    low_idx = if lt bar.low s.low_seen then i else s.low_idx;
    low_seen = if lt bar.low s.low_seen then bar.low else s.low_seen;
  }

  -- The loop of `findSwing`; the list is the one from `i` on.
  pub swing_from : ℕ → List (OhlcBar D) → SwingScan D → SwingScan D
  unfolding swing_step
  swing_from i [] s = s
  swing_from i (bar ∷ bars) s = swing_from (suc i) bars (swing_step i bar s)

  pub swing_of : SwingScan D → Swing D
  swing_of s = record {
    high = s.high_seen;
    low = s.low_seen;
    direction = if ltb s.low_idx s.high_idx then rising else falling;
  }

  unfoldable pub find_swing : List (OhlcBar D) → Option (Swing D)
  unfolding swing_from swing_of
  find_swing [] = none
  find_swing (bar ∷ bars) = some (
      swing_of (
        swing_from 1 bars
          (record { high_idx = 0; high_seen = bar.high; low_idx = 0; low_seen = bar.low })))

  retracement_signal : Option D → D
  retracement_signal none = decimal 5 1
  retracement_signal (some pct) =
      if gte pct (decimal 382 3) && lte pct (decimal 618 3)
      then of_nat 1
      else if lt pct (decimal 236 3)
      then decimal 4 1
      else if gt pct (decimal 786 3)
      then decimal 1 1
      else decimal 7 1

  pub fib_direction_signal : Option SwingDirection → Option D → Side → D
  unfolding is_aligned retracement_signal
  fib_direction_signal none pct side = of_nat 0
  fib_direction_signal (some direction) pct side =
      if is_aligned direction side then retracement_signal pct else minus (of_nat 0) (of_nat 1)
