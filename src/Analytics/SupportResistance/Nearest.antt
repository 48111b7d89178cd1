-- ===== src/Analytics/SupportResistance/Nearest.antt =====
-- The nearest level of backend/src/analytics/supportResistance.ts.
use mathlib.Core.Option.{some-injective}
use tera_trade.Prelude.{subst, ◌≤◌, ◌≡◌, some, List, [], ◌∷◌, All, arith}
use tera_trade.Number.{Number, IsOrdered, minus, abs, ◌≼◌}
use tera_trade.Market.{Side}
use tera_trade.Analytics.SupportResistance.{
  SrLevel, LevelType, min_level_touches, closer, nearest_to, nearest_of, relevant_levels,
  target_type, find_nearest_target_level,
}

module _ {D : Type 0} ⦃n : Number D⦄ where
  abbrev pub distance_from : D → SrLevel D → D
  distance_from price l = abs (minus l.price price)

  abbrev pub IsNearest : D → SrLevel D → SrLevel D → Type 0
  IsNearest price l k = distance_from price l ≼ distance_from price k

  -- A level of the wanted type that price has turned at twice or more.
  abbrev pub IsTested : LevelType → SrLevel D → Type 0
  IsTested want_type l = (l.type ≡ want_type) × (min_level_touches ≤ l.touches)

  relevant_levels-All :
      (want_type : LevelType) (ls : List (SrLevel D))
      → All (IsTested want_type) (relevant_levels want_type ls)
  unfolding relevant_levels
  relevant_levels-All want_type [] = tt
  relevant_levels-All want_type (l ∷ ls) = ground (arith, relevant_levels-All want_type ls)

  closer-IsTested :
      (want_type : LevelType) (price : D) (l k : SrLevel D)
      → IsTested want_type l
      → IsTested want_type k
      → IsTested want_type (closer price l k)
  unfolding closer
  closer-IsTested want_type price l k h g = ground arith

  nearest_to-IsTested :
      (want_type : LevelType) (price : D) (l : SrLevel D) (ls : List (SrLevel D))
      → IsTested want_type l
      → All (IsTested want_type) ls
      → IsTested want_type (nearest_to price l ls)
  unfolding nearest_to
  nearest_to-IsTested want_type price l [] h hs = h
  nearest_to-IsTested want_type price l (k ∷ ks) h hs =
      nearest_to-IsTested want_type price (closer price l k) ks
        (closer-IsTested want_type price l k h hs.0) hs.1

  module _ (laws : IsOrdered D) where
    open laws use {lte_total, lte_trans}

    closer_le :
        (price : D) (l k : SrLevel D)
        → IsNearest price (closer price l k) l × IsNearest price (closer price l k) k
    unfolding closer
    closer_le price l k = ground (
      arith,
      lte_total (distance_from price l) (distance_from price l),
      lte_total (distance_from price k) (distance_from price k),
      lte_total (distance_from price l) (distance_from price k),
    )

    nearest_to_le :
        (price : D) (l : SrLevel D) (ls : List (SrLevel D))
        → IsNearest price (nearest_to price l ls) l
          × All (IsNearest price (nearest_to price l ls)) ls
    unfolding nearest_to
    nearest_to_le price l [] =
        (ground (arith, lte_total (distance_from price l) (distance_from price l)), tt)
    nearest_to_le price l (k ∷ ks) =
        let c = closer price l k in
        let (to_l, to_k) = closer_le price l k in
        let (to_c, rest) = nearest_to_le price c ks in
        let m = distance_from price (nearest_to price c ks) in
        (
          lte_trans m (distance_from price c) (distance_from price l) to_c to_l,
          (lte_trans m (distance_from price c) (distance_from price k) to_c to_k, rest),
        )

    nearest_of_lem :
        (want_type : LevelType) (price : D) (ls : List (SrLevel D)) {found : SrLevel D}
        → All (IsTested want_type) ls
        → nearest_of price ls ≡ some found
        → IsTested want_type found × All (IsNearest price found) ls
    unfolding nearest_of
    nearest_of_lem want_type price [] h e = cc
    nearest_of_lem want_type price (l ∷ ls) h e =
        subst (λ found. IsTested want_type found × All (IsNearest price found) (l ∷ ls))
          (some-injective _ _ e)
          (nearest_to-IsTested want_type price l ls h.0 h.1, nearest_to_le price l ls)

    -- The target level of a trade is of the type in the trade's favour, was touched at least twice, and
    -- no other such level is nearer to the price.
    pub find_nearest_target_level-IsNearest :
        (levels : List (SrLevel D)) (side : Side) (price : D) {found : SrLevel D}
        → find_nearest_target_level levels side price ≡ some found
        → IsTested (target_type side) found
          × All (IsNearest price found) (relevant_levels (target_type side) levels)
    unfolding find_nearest_target_level
    find_nearest_target_level-IsNearest levels side price {found} e =
        nearest_of_lem (target_type side) price (relevant_levels (target_type side) levels)
          (relevant_levels-All (target_type side) levels) e
