-- ===== src/Analytics/SmartEntry.antt =====
-- backend/src/analytics/smartEntry.ts: the price at which an entry rests, where the last six candles of
-- five minutes offer a better one than the signal. `toNumber` is the number itself; prices are not
-- negative; the texts of `reason` are left out.
pub mod Discount
use tera_trade.Prelude.{
  Bool, List, Option, drop, if◌then◌else◌, length, ltb, none, some, ℕ, ◌&&◌, ◌-◌,
}
use tera_trade.Number.{Number, decimal, divided_by, gte, larger, lte, nearest, of_nat, times}
use tera_trade.Market.{OhlcBar, Side, is_long}
use tera_trade.Analytics.VolumeProfile.{VolumeProfile, compute_volume_profile}
use tera_trade.Analytics.EmaTrend.{aggregate_bars}
use tera_trade.Analytics.Vwap.{compute_rolling_vwap}

pub data SmartEntryBasis : Type 0 where
  from_poc from_vwap signal_price : SmartEntryBasis

pub record SmartEntryResult (D : Type 0) : Type 0 where
  pub entry_price : D
  pub basis : SmartEntryBasis

abbrev candle_minutes : ℕ
candle_minutes = 5

abbrev lookback_candles : ℕ
lookback_candles = 6

module _ {D : Type 0} ⦃n : Number D⦄ where
  pub round_to_nearest_tick : D → D → D
  round_to_nearest_tick price tick_size =
      if lte tick_size (of_nat 0)
      then price
      else times (of_nat (nearest (divided_by price tick_size))) tick_size

  pub is_favorable : Side → D → Option D → D → Bool
  is_favorable side signal none price = if is_long side then lte price signal else gte price signal
  is_favorable side signal (some structure_swing) price =
      if is_long side
      then lte price signal && gte price structure_swing
      else gte price signal && lte price structure_swing

  favorable_in : Side → D → Option D → Option D → Option D
  unfolding is_favorable
  favorable_in side signal structure_swing none = none
  favorable_in side signal structure_swing (some price) =
      if is_favorable side signal structure_swing price then some price else none

  pub choose_entry : Side → D → Option D → D → Option D → Option D → SmartEntryResult D
  unfolding favorable_in round_to_nearest_tick
  choose_entry side signal structure_swing tick_size poc vwap =
      elim (favorable_in side signal structure_swing poc) [
        | some price ↦ record {
          entry_price = round_to_nearest_tick price tick_size;
          basis = from_poc;
        }
        | none ↦ elim (favorable_in side signal structure_swing vwap) [
          | some price ↦ record {
            entry_price = round_to_nearest_tick price tick_size;
            basis = from_vwap;
          }
          | none ↦ record { entry_price = signal; basis = signal_price }
        ]
      ]

  pub last_candles : List (OhlcBar D) → List (OhlcBar D)
  last_candles bars =
      let candles = aggregate_bars bars candle_minutes in
      drop (length candles - lookback_candles) candles

  pub entry_profile : List (OhlcBar D) → D → D → VolumeProfile D
  entry_profile candles atr_value tick_size =
      compute_volume_profile candles (larger (divided_by atr_value (of_nat 20)) tick_size)
        (decimal 7 1)

  unfoldable pub compute_smart_entry_price :
      List (OhlcBar D) → Side → D → D → D → Option D → SmartEntryResult D
  unfolding last_candles entry_profile choose_entry
  compute_smart_entry_price bars side signal atr_value tick_size structure_swing =
      let candles = last_candles bars in
      if ltb (length candles) lookback_candles
      then record { entry_price = signal; basis = signal_price }
      else choose_entry side signal structure_swing tick_size
          (entry_profile candles atr_value tick_size).poc
          (compute_rolling_vwap candles lookback_candles)
