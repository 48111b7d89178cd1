-- ===== src/Analytics/VolumeProfile.antt =====
-- backend/src/analytics/volumeProfile.ts: the volume at each price, and the value area around its peak.
-- Prices are not negative. The Map of buckets is a list in the order of insertion.
pub mod ValueArea
use tera_trade.Prelude.{
  List, Option, [], drop, filter, get_elem?, get_or, if◌then◌else◌, length, ltb, map, none, some,
  suc, zero, ℕ, ◌&&◌, ◌-◌, ◌||◌, ◌∷◌,
}
use tera_trade.Number.{
  Number, decimal, divided_by, gt, gte, lt, lte, minus, nearest, of_nat, plus, times, whole,
}
use tera_trade.Market.{OhlcBar}

pub record VolumeProfileLevel (D : Type 0) : Type 0 where
  pub price : D
  pub volume : D

pub record VolumeProfile (D : Type 0) : Type 0 where
  pub levels : List (VolumeProfileLevel D)
  pub poc : Option D
  pub value_area_high : Option D
  pub value_area_low : Option D
  pub high_volume_nodes : List D
  pub low_volume_nodes : List D

-- The loop variables `lowIdx`, `highIdx` and `coveredVolume`.
pub record Area (D : Type 0) : Type 0 where
  pub low_idx : ℕ
  pub high_idx : ℕ
  pub covered_volume : D

-- `pocIndex`, with the volume there.
pub record Peak (D : Type 0) : Type 0 where
  pub peak_idx : ℕ
  pub best : D

module _ {D : Type 0} where
  abbrev empty_profile : VolumeProfile D
  empty_profile = record {
    levels = [];
    poc = none;
    value_area_high = none;
    value_area_low = none;
    high_volume_nodes = [];
    low_volume_nodes = [];
  }

  price_at : List (VolumeProfileLevel D) → ℕ → Option D
  price_at levels i = elim (get_elem? levels i) [ none ↦ none | some l ↦ some l.price ]

module _ {D : Type 0} ⦃n : Number D⦄ where
  -- `buckets.set(key, (buckets.get(key) ?? 0) + volume)`
  add_volume : D → D → List (VolumeProfileLevel D) → List (VolumeProfileLevel D)
  add_volume key volume [] = record { price = key; volume = plus (of_nat 0) volume } ∷ []
  add_volume key volume (l ∷ levels) =
      let rest = add_volume key volume levels in
      if lte l.price key && lte key l.price
      then record l { volume = plus l.volume volume } ∷ levels
      else l ∷ rest

  -- The inner loop, from `i` on; the count is of the turns that are left.
  add_bar_from : D → D → D → ℕ → ℕ → List (VolumeProfileLevel D) → List (VolumeProfileLevel D)
  unfolding add_volume
  add_bar_from bucket_size low_bucket volume zero i buckets = buckets
  add_bar_from bucket_size low_bucket volume (suc left) i buckets =
      let steps =
        nearest (divided_by (plus low_bucket (times (of_nat i) bucket_size)) bucket_size) in
      add_bar_from bucket_size low_bucket volume left (suc i)
        (add_volume (times (of_nat steps) bucket_size) volume buckets)

  bucket_of : D → D → D
  bucket_of bucket_size price = times (of_nat (whole (divided_by price bucket_size))) bucket_size

  add_bar : D → OhlcBar D → List (VolumeProfileLevel D) → List (VolumeProfileLevel D)
  unfolding add_bar_from bucket_of
  add_bar bucket_size bar buckets =
      let low_bucket = bucket_of bucket_size bar.low in
      let high_bucket = bucket_of bucket_size bar.high in
      let bucket_count = suc (nearest (divided_by (minus high_bucket low_bucket) bucket_size)) in
      add_bar_from bucket_size low_bucket (divided_by bar.volume (of_nat bucket_count)) bucket_count
        0 buckets

  add_bars : D → List (OhlcBar D) → List (VolumeProfileLevel D) → List (VolumeProfileLevel D)
  unfolding add_bar
  add_bars bucket_size [] buckets = buckets
  add_bars bucket_size (bar ∷ bars) buckets =
      add_bars bucket_size bars (add_bar bucket_size bar buckets)

  insert_level : VolumeProfileLevel D → List (VolumeProfileLevel D) → List (VolumeProfileLevel D)
  insert_level x [] = x ∷ []
  insert_level x (y ∷ ys) =
      let rest = insert_level x ys in if lte x.price y.price then x ∷ y ∷ ys else y ∷ rest

  sort_levels : List (VolumeProfileLevel D) → List (VolumeProfileLevel D)
  unfolding insert_level
  sort_levels [] = []
  sort_levels (x ∷ xs) = insert_level x (sort_levels xs)

  pub volume_at : List (VolumeProfileLevel D) → ℕ → D
  volume_at levels i = elim (get_elem? levels i) [ none ↦ of_nat 0 | some l ↦ l.volume ]

  pub poc_step : ℕ → VolumeProfileLevel D → Peak D → Peak D
  poc_step i l peak =
      if gt l.volume peak.best then record { peak_idx = i; best = l.volume } else peak

  -- The loop for `pocIndex`; the list is the one from `i` on.
  pub poc_from : ℕ → List (VolumeProfileLevel D) → Peak D → Peak D
  unfolding poc_step
  poc_from i [] peak = peak
  poc_from i (l ∷ levels) peak = poc_from (suc i) levels (poc_step i l peak)

  pub poc_index : List (VolumeProfileLevel D) → ℕ
  unfolding poc_from volume_at
  poc_index levels =
      (poc_from 1 (drop 1 levels) (record { peak_idx = 0; best = volume_at levels 0 })).peak_idx

  pub total_volume : List (VolumeProfileLevel D) → D → D
  total_volume [] sum = sum
  total_volume (l ∷ levels) sum = total_volume levels (plus sum l.volume)

  pub below_volume : List (VolumeProfileLevel D) → Area D → D
  unfolding volume_at
  below_volume levels area =
      if ltb 0 area.low_idx
      then volume_at levels (area.low_idx - 1)
      else minus (of_nat 0) (of_nat 1)

  pub above_volume : List (VolumeProfileLevel D) → Area D → D
  unfolding volume_at
  above_volume levels area =
      if ltb (suc area.high_idx) (length levels)
      then volume_at levels (suc area.high_idx)
      else minus (of_nat 0) (of_nat 1)

  pub expand_high : List (VolumeProfileLevel D) → Area D → Area D
  unfolding volume_at
  expand_high levels area = record {
    low_idx = area.low_idx;
    high_idx = suc area.high_idx;
    covered_volume = plus area.covered_volume (volume_at levels (suc area.high_idx));
  }

  pub expand_low : List (VolumeProfileLevel D) → Area D → Area D
  unfolding volume_at
  expand_low levels area = record {
    low_idx = area.low_idx - 1;
    high_idx = area.high_idx;
    covered_volume = plus area.covered_volume (volume_at levels (area.low_idx - 1));
  }

  -- One turn of the loop; `none` where the loop ends, by its condition or by `break`.
  pub expand_once : D → List (VolumeProfileLevel D) → Area D → Option (Area D)
  unfolding below_volume above_volume expand_high expand_low
  expand_once wanted levels area =
      if lt area.covered_volume wanted
        && (ltb 0 area.low_idx || ltb (suc area.high_idx) (length levels))
      then (if gte (above_volume levels area) (below_volume levels area)
            && ltb (suc area.high_idx) (length levels)
          then some (expand_high levels area)
          else if ltb 0 area.low_idx
          then some (expand_low levels area)
          else none)
      else none

  -- The loop; `none` where the turns allowed do not suffice.
  pub expand : ℕ → D → List (VolumeProfileLevel D) → Area D → Option (Area D)
  unfolding expand_once
  expand zero wanted levels area = none
  expand (suc fuel) wanted levels area = elim (expand_once wanted levels area) [
    | none ↦ some area
    | some wider ↦ expand fuel wanted levels wider
  ]

  pub poc_area : List (VolumeProfileLevel D) → Area D
  unfolding poc_index volume_at
  poc_area levels = record {
    low_idx = poc_index levels;
    high_idx = poc_index levels;
    covered_volume = volume_at levels (poc_index levels);
  }

  unfoldable pub value_area : D → List (VolumeProfileLevel D) → Option (Area D)
  unfolding expand total_volume poc_area
  value_area value_area_pct levels =
      expand (length levels) (times (total_volume levels (of_nat 0)) value_area_pct) levels
        (poc_area levels)

  profile_of : D → List (VolumeProfileLevel D) → VolumeProfile D
  unfolding value_area price_at
  profile_of value_area_pct levels =
      let area = get_or (value_area value_area_pct levels) (poc_area levels) in
      let mean_volume = divided_by (total_volume levels (of_nat 0)) (of_nat (length levels)) in
      record {
        levels = levels;
        poc = price_at levels (poc_index levels);
        value_area_high = price_at levels area.high_idx;
        value_area_low = price_at levels area.low_idx;
        high_volume_nodes =
            map (λ l. l.price)
              (filter (λ l. gt l.volume (times mean_volume (decimal 15 1))) levels);
        low_volume_nodes =
            map (λ l. l.price) (filter (λ l. lt l.volume (times mean_volume (decimal 5 1))) levels);
      }

  profile_of_levels : D → List (VolumeProfileLevel D) → VolumeProfile D
  unfolding profile_of
  profile_of_levels value_area_pct [] = empty_profile
  profile_of_levels value_area_pct (l ∷ levels) = profile_of value_area_pct (l ∷ levels)

  pub compute_volume_profile : List (OhlcBar D) → D → D → VolumeProfile D
  unfolding add_bars sort_levels profile_of_levels
  compute_volume_profile [] bucket_size value_area_pct = empty_profile
  compute_volume_profile (bar ∷ bars) bucket_size value_area_pct =
      if lte bucket_size (of_nat 0)
      then empty_profile
      else profile_of_levels value_area_pct (sort_levels (add_bars bucket_size (bar ∷ bars) []))
