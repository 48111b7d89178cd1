-- ===== src/Analytics/SupportResistance.antt =====
-- backend/src/analytics/supportResistance.ts: swing-pivot levels.
pub mod Nearest
pub mod Clusters
use tera_trade.Prelude.{
  ℕ, zero, suc, ◌+◌, ◌-◌, ◌*◌, Bool, true, false, leb, ◌&&◌, if◌then◌else◌, Option, none, some,
  List, [], ◌∷◌, ◌++◌, length, take, drop, map, filter, get_elem?,
}
use tera_trade.Number.{
  Number, lte, lt, gt, minus, times, divided_by, abs, smallest, largest, of_nat, decimal,
}
use tera_trade.Market.{Side, long, short, OhlcBar}
use tera_trade.Indicators.{mean}

pub data LevelType : Type 0 where
  support resistance : LevelType

abbrev pub level_type_eq : LevelType → LevelType → Bool
level_type_eq support support = true
level_type_eq resistance resistance = true
level_type_eq _ _ = false

pub record SrLevel (D : Type 0) : Type 0 where
  pub price : D
  pub touches : ℕ
  pub type : LevelType

pub data PivotKind : Type 0 where
  pivot_high pivot_low : PivotKind

pub record Pivot (D : Type 0) : Type 0 where
  pub price : D
  pub kind : PivotKind

-- `distanceInAtr` may be infinite, as `none`.
pub record NearestLevelResult (D : Type 0) : Type 0 where
  pub level : SrLevel D
  pub distance_points : D
  pub distance_in_atr : Option D

abbrev pub pivot_lookaround : ℕ
pivot_lookaround = 3

abbrev pub min_level_touches : ℕ
min_level_touches = 2

abbrev pub entry_type : Side → LevelType
entry_type long = support
entry_type short = resistance

abbrev pub target_type : Side → LevelType
target_type long = resistance
target_type short = support

module _ {D : Type 0} ⦃n : Number D⦄ where
  -- `a === b`, of numbers
  abbrev same_number : D → D → Bool
  same_number a b = lte a b && lte b a

  pivots_in : List (OhlcBar D) → Option (OhlcBar D) → List (Pivot D)
  pivots_in [] bar = []
  pivots_in (w ∷ window) none = []
  pivots_in (w ∷ window) (some bar) =
      (if same_number bar.high (largest w.high (map (λ (b : OhlcBar D). b.high) window))
        then record { price = bar.high; kind = pivot_high } ∷ []
        else [])
      ++ (if same_number bar.low (smallest w.low (map (λ (b : OhlcBar D). b.low) window))
          then record { price = bar.low; kind = pivot_low } ∷ []
          else [])

  -- `rounds` bars from index `i` on.
  pivots_from : List (OhlcBar D) → ℕ → ℕ → ℕ → List (Pivot D)
  unfolding pivots_in
  pivots_from bars lookaround i zero = []
  pivots_from bars lookaround i (suc rounds) =
      pivots_in (take (lookaround + lookaround + 1) (drop (i - lookaround) bars)) (get_elem? bars i)
      ++ pivots_from bars lookaround (suc i) rounds

  pub detect_pivots : List (OhlcBar D) → List (Pivot D)
  unfolding pivots_from
  detect_pivots bars =
      pivots_from bars pivot_lookaround pivot_lookaround
        (length bars - (pivot_lookaround + pivot_lookaround))

  insert_pivot : Pivot D → List (Pivot D) → List (Pivot D)
  insert_pivot p [] = p ∷ []
  insert_pivot p (q ∷ qs) = if lte p.price q.price then p ∷ q ∷ qs else q ∷ insert_pivot p qs

  -- `[...pivots].sort((a, b) => a.price - b.price)`
  sort_pivots : List (Pivot D) → List (Pivot D)
  unfolding insert_pivot
  sort_pivots [] = []
  sort_pivots (p ∷ ps) = insert_pivot p (sort_pivots ps)

  -- The loop over the sorted pivots: `current` is the open cluster, and `last` its last price.
  cluster_from : D → List D → D → List (Pivot D) → List (List D)
  cluster_from tolerance current last [] = current ∷ []
  cluster_from tolerance current last (p ∷ ps) =
      let joined = cluster_from tolerance (current ++ p.price ∷ []) p.price ps in
      let opened = cluster_from tolerance (p.price ∷ []) p.price ps in
      if lte (minus p.price last) tolerance then joined else current ∷ opened

  clusters_of : D → List (Pivot D) → List (List D)
  unfolding cluster_from
  clusters_of tolerance [] = []
  clusters_of tolerance (p ∷ ps) = cluster_from tolerance (p.price ∷ []) p.price ps

  unfoldable pub cluster_levels : List (Pivot D) → D → List (D × ℕ)
  unfolding clusters_of sort_pivots
  cluster_levels pivots tolerance =
      if lte tolerance (of_nat 0)
      then []
      else map (λ prices. (mean prices, length prices)) (clusters_of tolerance (sort_pivots pivots))

  insert_level : SrLevel D → List (SrLevel D) → List (SrLevel D)
  insert_level l [] = l ∷ []
  insert_level l (k ∷ ks) = if lte l.price k.price then l ∷ k ∷ ks else k ∷ insert_level l ks

  sort_levels : List (SrLevel D) → List (SrLevel D)
  unfolding insert_level
  sort_levels [] = []
  sort_levels (l ∷ ls) = insert_level l (sort_levels ls)

  unfoldable pub compute_support_resistance_levels : List (OhlcBar D) → D → D → List (SrLevel D)
  unfolding sort_levels cluster_levels detect_pivots
  compute_support_resistance_levels bars current_price atr_value =
      let level_of = λ (c : D × ℕ).
        let level : SrLevel D = record {
          price = c.0;
          touches = c.1;
          type = if lt c.0 current_price then support else resistance;
        } in
        level in
      if lte atr_value (of_nat 0)
      then []
      else sort_levels
          (map level_of (cluster_levels (detect_pivots bars) (times atr_value (decimal 5 1))))

  pub closer : D → SrLevel D → SrLevel D → SrLevel D
  closer price closest l =
      if lt (abs (minus l.price price)) (abs (minus closest.price price)) then l else closest

  -- `relevant.reduce((closest, l) => …)` by the distance to a price.
  pub nearest_to : D → SrLevel D → List (SrLevel D) → SrLevel D
  unfolding closer
  nearest_to price closest [] = closest
  nearest_to price closest (l ∷ ls) = nearest_to price (closer price closest l) ls

  unfoldable pub relevant_levels : LevelType → List (SrLevel D) → List (SrLevel D)
  relevant_levels want_type =
      filter (λ l. level_type_eq l.type want_type && leb min_level_touches l.touches)

  in_atr : D → D → Option D
  in_atr distance_points atr_value =
      if gt atr_value (of_nat 0) then some (divided_by distance_points atr_value) else none

  nearest_result : D → D → List (SrLevel D) → Option (NearestLevelResult D)
  unfolding nearest_to in_atr
  nearest_result current_price atr_value [] = none
  nearest_result current_price atr_value (l ∷ ls) =
      let nearest = nearest_to current_price l ls in
      let distance_points = abs (minus nearest.price current_price) in
      some (record {
        level = nearest;
        distance_points = distance_points;
        distance_in_atr = in_atr distance_points atr_value;
      })

  unfoldable pub find_nearest_relevant_level :
      List (SrLevel D) → Side → D → D → Option (NearestLevelResult D)
  unfolding nearest_result relevant_levels
  find_nearest_relevant_level levels side current_price atr_value =
      nearest_result current_price atr_value (relevant_levels (entry_type side) levels)

  nearest_of : D → List (SrLevel D) → Option (SrLevel D)
  unfolding nearest_to
  nearest_of price [] = none
  nearest_of price (l ∷ ls) = some (nearest_to price l ls)

  unfoldable pub find_nearest_target_level : List (SrLevel D) → Side → D → Option (SrLevel D)
  unfolding nearest_of relevant_levels
  find_nearest_target_level levels side current_price =
      nearest_of current_price (relevant_levels (target_type side) levels)

  unfoldable pub find_level_near_breakout :
      List (SrLevel D) → D → D → D → Option (NearestLevelResult D)
  unfolding nearest_to in_atr
  find_level_near_breakout [] breakout_level_price current_price atr_value = none
  find_level_near_breakout (l ∷ ls) breakout_level_price current_price atr_value =
      let distance_points = abs (minus current_price breakout_level_price) in
      some (record {
        level = nearest_to breakout_level_price l ls;
        distance_points = distance_points;
        distance_in_atr = in_atr distance_points atr_value;
      })
