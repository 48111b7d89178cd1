-- ===== src/Risk/ChartZoneGate.antt =====
-- backend/src/risk/chartZoneGate.ts: entries only inside a rectangle that is drawn on the chart.
-- A Set of symbols is a list, a Map an association list, and a text names which message is built.
pub mod Inside
use tera_trade.Prelude.{
  Bool, true, false, not, ◌&&◌, if◌then◌else◌, Option, none, some, List, [], ◌∷◌, String, str_eq,
  any, find, get_or,
}
use tera_trade.Number.{Number, lte, gte, lt, minus}

pub record ChartPriceZone (D : Type 0) : Type 0 where
  pub low : D
  pub high : D
  pub chart_symbol : String

pub data ChartZoneRead (D : Type 0) : Type 0 where
  read_ok : List (String × List (ChartPriceZone D)) → List String → ChartZoneRead D
  read_failed : String → ChartZoneRead D

pub data ChartZoneReason (D : Type 0) : Type 0 where
  unreadable : String → ChartZoneReason D
  not_charted : String → ChartZoneReason D
  no_active_rectangle : String → ChartZoneReason D
  inside_rectangle : ChartPriceZone D → ChartZoneReason D
  outside_every_rectangle : ChartPriceZone D → D → ChartZoneReason D

pub record ChartZoneCheck (D : Type 0) : Type 0 where
  pub allowed : Bool
  pub reason : ChartZoneReason D

-- `map.get(key)`
pub lookup {ℓ} : {V : Type ℓ} → String → List (String × V) → Option V
lookup k [] = none
lookup k ((j, v) ∷ m) = if str_eq j k then some v else lookup k m

module _ {D : Type 0} ⦃n : Number D⦄ where
  abbrev pub contains_price : D → ChartPriceZone D → Bool
  contains_price price z = gte price z.low && lte price z.high

  -- The distance that the search for the nearest rectangle computes.
  pub distance_to : D → ChartPriceZone D → D
  distance_to price z = if lt price z.low then minus z.low price else minus price z.high

  -- `zones.reduce((best, z) => …)`, from a rectangle at a distance that may be infinite, as `none`.
  pub nearest_zone :
      D → ChartPriceZone D → Option D → List (ChartPriceZone D) → ChartPriceZone D × Option D
  unfolding distance_to
  nearest_zone price best d [] = (best, d)
  nearest_zone price best none (z ∷ zs) = nearest_zone price z (some (distance_to price z)) zs
  nearest_zone price best (some d) (z ∷ zs) =
      let closer = lt (distance_to price z) d in
      nearest_zone price (if closer then z else best)
        (some (if closer then distance_to price z else d)) zs

  -- The answer for the rectangle that contains the price, or for the nearest one.
  zone_verdict : Option (ChartPriceZone D) → ChartPriceZone D → D → ChartZoneCheck D
  zone_verdict (some inside) nearest d = record { allowed = true; reason = inside_rectangle inside }
  zone_verdict none nearest d = record {
    allowed = false;
    reason = outside_every_rectangle nearest d;
  }

  check_zones : D → String → List (ChartPriceZone D) → ChartZoneCheck D
  unfolding nearest_zone zone_verdict
  check_zones price symbol [] = record { allowed = false; reason = no_active_rectangle symbol }
  check_zones price symbol (z ∷ zs) =
      let best = nearest_zone price z none (z ∷ zs) in
      zone_verdict (find (contains_price price) (z ∷ zs)) best.0
        (get_or best.1 (distance_to price z))

  unfoldable pub check_chart_zone : ChartZoneRead D → String → D → ChartZoneCheck D
  unfolding check_zones lookup
  check_chart_zone (read_failed error) symbol price = record {
    allowed = false;
    reason = unreadable error;
  }
  check_chart_zone (read_ok zones_by_symbol charted_symbols) symbol price =
      if not (any (λ s. str_eq s symbol) charted_symbols)
      then record { allowed = false; reason = not_charted symbol }
      else check_zones price symbol (get_or (lookup symbol zones_by_symbol) [])
