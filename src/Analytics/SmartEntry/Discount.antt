-- ===== src/Analytics/SmartEntry/Discount.antt =====
-- The entry that `computeSmartEntryPrice` of backend/src/analytics/smartEntry.ts settles on.
use tera_trade.Number.{Number, ◌≼◌}
use tera_trade.Prelude.{
  Bool-cases, List, Option, arith, inl, inr, length, ltb, none, refl, some, true, ◌≡◌, ◌⊎◌,
}
use tera_trade.Market.{OhlcBar, Side, long, short}
use tera_trade.Analytics.SmartEntry.{
  SmartEntryResult, choose_entry, compute_smart_entry_price, entry_profile, favorable_in,
  is_favorable, last_candles, round_to_nearest_tick,
}
use tera_trade.Analytics.Vwap.{compute_rolling_vwap}

module _ {D : Type 0} ⦃n : Number D⦄ where
  -- At the signal price or better, and not beyond the structure, where there is one.
  abbrev pub IsFavorable : Side → D → Option D → D → Type 0
  IsFavorable long signal none price = price ≼ signal
  IsFavorable long signal (some structure_swing) price =
      (price ≼ signal) × (structure_swing ≼ price)
  IsFavorable short signal none price = signal ≼ price
  IsFavorable short signal (some structure_swing) price =
      (signal ≼ price) × (price ≼ structure_swing)

  -- The signal price itself, or a favorable price of the candles, rounded to a tick.
  abbrev pub IsEntry : Side → D → Option D → D → SmartEntryResult D → Type 0
  IsEntry side signal structure_swing tick_size result =
      (result.entry_price ≡ signal)
      ⊎ ((price : D) × (result.entry_price ≡ round_to_nearest_tick price tick_size)
          × IsFavorable side signal structure_swing price)

  is_favorable-IsFavorable :
      (side : Side) (signal : D) (structure_swing : Option D) (price : D)
      → is_favorable side signal structure_swing price ≡ true
      → IsFavorable side signal structure_swing price
  unfolding is_favorable
  is_favorable-IsFavorable long signal none price e = e
  is_favorable-IsFavorable long signal (some structure_swing) price e = ground (arith, e)
  is_favorable-IsFavorable short signal none price e = e
  is_favorable-IsFavorable short signal (some structure_swing) price e = ground (arith, e)

  favorable_in_cases :
      (side : Side) (signal : D) (structure_swing found : Option D)
      → (favorable_in side signal structure_swing found ≡ none)
        ⊎ ((price : D) × (favorable_in side signal structure_swing found ≡ some price)
            × IsFavorable side signal structure_swing price)
  unfolding favorable_in
  favorable_in_cases side signal structure_swing none = inl refl
  favorable_in_cases side signal structure_swing (some price) =
      elim (Bool-cases (is_favorable side signal structure_swing price)) [
        | inl e ↦
            inr (price, rw e refl, is_favorable-IsFavorable side signal structure_swing price e)
        | inr e ↦ inl (rw e refl)
      ]

  choose_entry-IsEntry :
      (side : Side) (signal : D) (structure_swing : Option D) (tick_size : D) (poc vwap : Option D)
      → IsEntry side signal structure_swing tick_size
          (choose_entry side signal structure_swing tick_size poc vwap)
  unfolding choose_entry
  choose_entry-IsEntry side signal structure_swing tick_size poc vwap =
      elim (favorable_in_cases side signal structure_swing poc) [
        | inr (price, e, f) ↦ inr (price, rw (e, choose_entry) refl, f)
        | inl e ↦ elim (favorable_in_cases side signal structure_swing vwap) [
          | inr (price, k, f) ↦ inr (price, rw (e, choose_entry) (rw k refl), f)
          | inl k ↦ inl (rw (e, choose_entry) (rw k refl))
        ]
      ]

  -- An entry rests at the signal price, or at the tick nearest to a price that is at least as good as
  -- the signal and, where there is a structure price, not beyond it.
  pub compute_smart_entry_price-IsEntry :
      (bars : List (OhlcBar D)) (side : Side) (signal atr_value tick_size : D)
      (structure_swing : Option D)
      → IsEntry side signal structure_swing tick_size
          (compute_smart_entry_price bars side signal atr_value tick_size structure_swing)
  unfolding compute_smart_entry_price
  compute_smart_entry_price-IsEntry bars side signal atr_value tick_size structure_swing =
      elim (Bool-cases (ltb (length (last_candles bars)) 6)) [
        | inl e ↦ inl (rw e refl)
        | inr e ↦ rw e (
            choose_entry-IsEntry side signal structure_swing tick_size
              (entry_profile (last_candles bars) atr_value tick_size).poc
              (compute_rolling_vwap (last_candles bars) 6))
      ]
