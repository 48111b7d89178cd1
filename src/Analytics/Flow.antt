-- ===== src/Analytics/Flow.antt =====
-- backend/src/analytics/orderFlow.ts, orderFlowAbsorption.ts and ppm.ts: what order flow and the speed of
-- the price say of a side. The texts of the readings are left out.
pub mod Range
use tera_trade.Prelude.{
  Bool, List, Option, [], drop, false, get_last?, get_or, if◌then◌else◌, leb, length, ltb, none,
  not, some, ℕ, ◌&&◌, ◌-◌, ◌||◌, ◌∷◌,
}
use tera_trade.Number.{
  Number, decimal, divided_by, gt, larger, lt, minus, of_nat, plus, smaller, times,
}
use tera_trade.Market.{OhlcBar, Side, long, short}

-- The fields of `OrderFlowSnapshot` that these files read.
pub record FlowSnapshot (D : Type 0) : Type 0 where
  pub best_bid_size : Option D
  pub best_ask_size : Option D
  pub buy_volume : D
  pub sell_volume : D
  pub trade_count : ℕ

pub data AbsorptionSide : Type 0 where
  bid_side ask_side : AbsorptionSide

pub record DeltaDivergence (D : Type 0) : Type 0 where
  pub divergent : Bool
  pub cumulative_delta : D

pub record PpmTick (D : Type 0) : Type 0 where
  pub tick_time : ℕ
  pub tick_close : D

pub record PpmResult (D : Type 0) : Type 0 where
  pub window_minutes : D
  pub up_points_per_minute : D
  pub down_points_per_minute : D
  pub net_points_per_minute : D
  pub sample_count : ℕ

abbrev min_trades_for_volume_signal : ℕ
min_trades_for_volume_signal = 3

module _ {D : Type 0} ⦃n : Number D⦄ where
  pub negated : D → D
  negated x = minus (of_nat 0) x

  pub clamp_signal : D → D
  unfolding negated
  clamp_signal x = larger (negated (of_nat 1)) (smaller (of_nat 1) x)

  volume_imbalance : FlowSnapshot D → D
  volume_imbalance s =
      let total_volume = plus s.buy_volume s.sell_volume in
      if leb min_trades_for_volume_signal s.trade_count && gt total_volume (of_nat 0)
      then divided_by (minus s.buy_volume s.sell_volume) total_volume
      else of_nat 0

  book_imbalance : FlowSnapshot D → D
  book_imbalance s =
      let bid_size = get_or s.best_bid_size (of_nat 0) in
      let ask_size = get_or s.best_ask_size (of_nat 0) in
      let total_book_size = plus bid_size ask_size in
      if gt total_book_size (of_nat 0)
      then divided_by (minus bid_size ask_size) total_book_size
      else of_nat 0

  pub combined_flow : FlowSnapshot D → D
  unfolding volume_imbalance book_imbalance
  combined_flow s =
      plus (times (volume_imbalance s) (decimal 7 1)) (times (book_imbalance s) (decimal 3 1))

  unfoldable pub order_flow_direction_signal : Option (FlowSnapshot D) → Side → D
  unfolding combined_flow clamp_signal negated
  order_flow_direction_signal none side = of_nat 0
  order_flow_direction_signal (some s) long = clamp_signal (combined_flow s)
  order_flow_direction_signal (some s) short = clamp_signal (negated (combined_flow s))

  pub compute_delta : FlowSnapshot D → D
  compute_delta s = minus s.buy_volume s.sell_volume

  flow_total : (FlowSnapshot D → D) → D → List (FlowSnapshot D) → D
  flow_total f total [] = total
  flow_total f total (h ∷ history) = flow_total f (plus total (f h)) history

  flow_average : (FlowSnapshot D → D) → List (FlowSnapshot D) → D
  unfolding flow_total
  flow_average f recent = divided_by (flow_total f (of_nat 0) recent) (of_nat (length recent))

  is_stalled : D → D → Bool
  is_stalled distance bar_range =
      gt bar_range (of_nat 0) && lt distance (times bar_range (decimal 1 1))

  absorbed_side : List (FlowSnapshot D) → FlowSnapshot D → OhlcBar D → Option AbsorptionSide
  unfolding flow_average is_stalled
  absorbed_side recent latest last_bar =
      let bar_range = minus last_bar.high last_bar.low in
      let heavy_sell = times (flow_average (λ h. h.sell_volume) recent) (decimal 15 1) in
      let heavy_buy = times (flow_average (λ h. h.buy_volume) recent) (decimal 15 1) in
      if gt latest.sell_volume heavy_sell
        && not (is_stalled (minus last_bar.close last_bar.low) bar_range)
      then some bid_side
      else if gt latest.buy_volume heavy_buy
          && not (is_stalled (minus last_bar.high last_bar.close) bar_range)
      then some ask_side
      else none

  -- The `side` of the reading, which is null exactly where nothing is detected.
  pub detect_absorption : List (FlowSnapshot D) → OhlcBar D → ℕ → Option AbsorptionSide
  unfolding absorbed_side
  detect_absorption history last_bar lookback =
      let recent = drop (length history - lookback) history in
      if ltb (length history) lookback then none else elim (get_last? recent) [
        | none ↦ none
        | some latest ↦ absorbed_side recent latest last_bar
      ]

  price_change : List (OhlcBar D) → D
  price_change [] = of_nat 0
  price_change (b ∷ bars) = elim (get_last? (b ∷ bars)) [
    | none ↦ of_nat 0
    | some last ↦ minus last.close b.close
  ]

  pub detect_delta_divergence : List (FlowSnapshot D) → List (OhlcBar D) → ℕ → DeltaDivergence D
  unfolding flow_total compute_delta price_change
  detect_delta_divergence history bars lookback =
      let delta = flow_total compute_delta (of_nat 0) (drop (length history - lookback) history) in
      let change = price_change (drop (length bars - lookback) bars) in
      if ltb (length history) lookback || ltb (length bars) lookback
      then record { divergent = false; cumulative_delta = of_nat 0 }
      else record {
        divergent =
            (gt change (of_nat 0) && lt delta (of_nat 0))
            || (lt change (of_nat 0) && gt delta (of_nat 0));
        cumulative_delta = delta;
      }

  up_from : D → D → List (PpmTick D) → D
  up_from up last [] = up
  up_from up last (t ∷ ticks) =
      let delta = minus t.tick_close last in
      up_from (if gt delta (of_nat 0) then plus up delta else up) t.tick_close ticks

  down_from : D → D → List (PpmTick D) → D
  unfolding negated
  down_from down last [] = down
  down_from down last (t ∷ ticks) =
      let delta = minus t.tick_close last in
      down_from (if gt delta (of_nat 0) then down else plus down (negated delta)) t.tick_close ticks

  elapsed_minutes : ℕ → ℕ → D → D
  elapsed_minutes first last window_minutes =
      smaller
        (larger (divided_by (minus (of_nat last) (of_nat first)) (of_nat 60000))
          (divided_by (of_nat 1) (of_nat 60)))
        window_minutes

  last_time : ℕ → List (PpmTick D) → ℕ
  last_time time [] = time
  last_time time (t ∷ ticks) = last_time t.tick_time ticks

  no_movement : ℕ → PpmResult D
  no_movement count = record {
    window_minutes = of_nat 0;
    up_points_per_minute = of_nat 0;
    down_points_per_minute = of_nat 0;
    net_points_per_minute = of_nat 0;
    sample_count = count;
  }

  pub compute_ppm : List (PpmTick D) → D → PpmResult D
  unfolding no_movement up_from down_from elapsed_minutes last_time
  compute_ppm [] window = no_movement 0
  compute_ppm (t ∷ []) window = no_movement 1
  compute_ppm (t ∷ u ∷ ticks) window =
      let elapsed = elapsed_minutes t.tick_time (last_time t.tick_time (u ∷ ticks)) window in
      let up = up_from (of_nat 0) t.tick_close (u ∷ ticks) in
      let down = down_from (of_nat 0) t.tick_close (u ∷ ticks) in
      record {
        window_minutes = elapsed;
        up_points_per_minute = divided_by up elapsed;
        down_points_per_minute = divided_by down elapsed;
        net_points_per_minute = divided_by (minus up down) elapsed;
        sample_count = length (t ∷ u ∷ ticks);
      }

  unfoldable pub ppm_direction_signal : Option D → Side → D
  unfolding clamp_signal negated
  ppm_direction_signal none side = of_nat 0
  ppm_direction_signal (some net) long = clamp_signal (divided_by net (of_nat 5))
  ppm_direction_signal (some net) short = clamp_signal (divided_by (negated net) (of_nat 5))
