-- ===== src/MarketData/MinuteBars.antt =====
-- backend/src/marketData/minuteBarAggregator.ts: ticks into bars of a minute. The three maps from a
-- symbol are one record here, the state of one symbol, since `addTick` reads and writes the entries of
-- its own symbol only. Times are milliseconds since the epoch.
pub mod Bounds
use tera_trade.Prelude.{
  ℕ, ◌+◌, ◌-◌, ◌*◌, ◌/◌, ◌==◌, ltb, not, Bool, true, false, ◌&&◌, if◌then◌else◌, Option, none, some,
}
use tera_trade.Number.{
  Number, plus, minus, divided_by, abs, gt, lte, of_nat, decimal, larger, smaller,
}

pub record InProgressBar (D : Type 0) : Type 0 where
  pub minute_key : ℕ
  pub open_price : D
  pub high : D
  pub low : D
  pub close : D
  pub volume : D

pub record Accepted (D : Type 0) : Type 0 where
  pub price : D
  pub accepted_at : ℕ

pub record PendingOutlier (D : Type 0) : Type 0 where
  pub price : D
  pub count : ℕ

pub record Aggregator (D : Type 0) : Type 0 where
  pub current : Option (InProgressBar D)
  pub last_accepted : Option (Accepted D)
  pub pending_outlier : Option (PendingOutlier D)

-- A tick of the feed.
pub record Tick (D : Type 0) : Type 0 where
  pub price : D
  pub volume : D
  pub time : ℕ

abbrev pub max_rejection_duration_ms : ℕ
max_rejection_duration_ms = 120_000

abbrev pub outlier_confirmations_required : ℕ
outlier_confirmations_required = 3

-- What the test of a tick says: it is dropped, with the outlier to remember, or accepted.
pub data Screening (D : Type 0) : Type 0 where
  dropped : Option (PendingOutlier D) → Screening D
  accepted : Option (PendingOutlier D) → Screening D

module _ {D : Type 0} ⦃n : Number D⦄ where
  abbrev pub max_tick_pct_move : D
  max_tick_pct_move = decimal 5 2

  abbrev pub outlier_confirmation_tolerance : D
  outlier_confirmation_tolerance = decimal 1 2

  -- The ticks in a row near this price, this one included.
  confirm_count : D → Option (PendingOutlier D) → ℕ
  confirm_count price none = 1
  confirm_count price (some p) =
      if lte (divided_by (abs (minus price p.price)) p.price) outlier_confirmation_tolerance
      then p.count + 1
      else 1

  -- A tick that moved too much. The age is a difference of times, negative if the clock went back.
  screen_outlier : D → ℕ → Accepted D → Option (PendingOutlier D) → Screening D
  unfolding confirm_count
  screen_outlier price time last pending =
      let count = confirm_count price pending in
      if ltb (time - last.accepted_at) max_rejection_duration_ms
      then dropped pending
      else if ltb count outlier_confirmations_required
      then dropped (some record { price = price; count = count })
      else accepted none

  -- The block under `if (last && last.price.gt(0))`.
  pub screen : D → ℕ → Option (Accepted D) → Option (PendingOutlier D) → Screening D
  unfolding screen_outlier
  screen price time none pending = accepted pending
  screen price time (some last) pending =
      let pct_move = divided_by (abs (minus price last.price)) last.price in
      if not (gt last.price (of_nat 0))
      then accepted pending
      else if gt pct_move max_tick_pct_move
      then screen_outlier price time last pending
      else accepted none

  new_bar : Tick D → ℕ → InProgressBar D
  new_bar t minute_key = record {
    minute_key = minute_key;
    open_price = t.price;
    high = t.price;
    low = t.price;
    close = t.price;
    volume = t.volume;
  }

  grown_bar : Tick D → InProgressBar D → InProgressBar D
  grown_bar t bar = record bar {
    high = larger bar.high t.price;
    low = smaller bar.low t.price;
    close = t.price;
    volume = plus bar.volume t.volume;
  }

  -- The bar in progress after an accepted tick, and the bar that it completes.
  pub fold_tick : Tick D → Option (InProgressBar D) → InProgressBar D × Option (InProgressBar D)
  unfolding new_bar grown_bar
  fold_tick t none = (new_bar t (t.time / 60_000 * 60_000), none)
  fold_tick t (some bar) =
      let minute_key = t.time / 60_000 * 60_000 in
      if bar.minute_key == minute_key
      then (grown_bar t bar, none)
      else (new_bar t minute_key, some bar)

  accept_tick :
      Tick D → Option (PendingOutlier D) → Aggregator D → Aggregator D × Option (InProgressBar D)
  unfolding fold_tick
  accept_tick t pending a =
      let (bar, completed) = fold_tick t a.current in
      (
        record {
          current = some bar;
          last_accepted = some record { price = t.price; accepted_at = t.time };
          pending_outlier = pending;
        },
        completed,
      )

  after_screening : Tick D → Screening D → Aggregator D → Aggregator D × Option (InProgressBar D)
  unfolding accept_tick
  after_screening t (dropped pending) a = (record a { pending_outlier = pending }, none)
  after_screening t (accepted pending) a = accept_tick t pending a

  pub add_tick : Tick D → Aggregator D → Aggregator D × Option (InProgressBar D)
  unfolding after_screening screen
  add_tick t a = after_screening t (screen t.price t.time a.last_accepted a.pending_outlier) a
