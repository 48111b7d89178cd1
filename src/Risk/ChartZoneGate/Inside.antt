-- ===== src/Risk/ChartZoneGate/Inside.antt =====
-- What the chart rectangle gate lets through.
use tera_trade.Prelude.{
  ◌≡◌, ◌↔◌, inl, inr, Bool-cases, true, false, some, none, List, [], ◌∷◌, String, str_eq, any, find,
  get_or, refl, arith, Any, Option-cases,
}
use tera_trade.Number.{Number, ◌≼◌}
use tera_trade.Risk.ChartZoneGate.{
  ChartPriceZone, ChartZoneRead, read_ok, read_failed, lookup, contains_price, check_zones,
  check_chart_zone,
}

module _ {D : Type 0} ⦃n : Number D⦄ where
  abbrev pub Contains : D → ChartPriceZone D → Type 0
  Contains price z = (z.low ≼ price) × (price ≼ z.high)

  find-Contains_iff :
      (price : D) (zs : List (ChartPriceZone D)) (z : ChartPriceZone D)
      → find (contains_price price) zs ≡ some z
      → Any (Contains price) zs
  find-Contains_iff price [] z e = cc
  find-Contains_iff price (x ∷ zs) z e = ground (arith, find-Contains_iff price zs z)

  find-Contains-none :
      (price : D) (zs : List (ChartPriceZone D))
      → find (contains_price price) zs ≡ none
      → ¬ Any (Contains price) zs
  find-Contains-none price [] e = λ a. a
  find-Contains-none price (x ∷ zs) e = λ a. ground (arith, find-Contains-none price zs)

  check_zones_iff :
      (price : D) (symbol : String) (zs : List (ChartPriceZone D))
      → ((check_zones price symbol zs).allowed ≡ true) ↔ Any (Contains price) zs
  unfolding check_zones
  check_zones_iff price symbol [] = (λ e. cc, λ a. absurd a)
  check_zones_iff price symbol (z ∷ zs) =
      elim (Option-cases (find (contains_price price) (z ∷ zs))) [
        | inl missed ↦
            rw (missed, check_zones)
              (λ e. cc, λ a. absurd (find-Contains-none price (z ∷ zs) missed a))
        | inr (x, found) ↦
            rw (found, check_zones) (λ e. find-Contains_iff price (z ∷ zs) x found, λ a. refl)
      ]

  -- The rectangles that the gate reads for a symbol: those of a chart that shows it.
  pub active_zones : ChartZoneRead D → String → List (ChartPriceZone D)
  active_zones (read_failed error) symbol = []
  active_zones (read_ok zones charted) symbol = elim (any (λ s. str_eq s symbol) charted) [
    | true ↦ get_or (lookup symbol zones) []
    | false ↦ []
  ]

  -- An entry is allowed exactly when the chart was read, shows the symbol, and has a rectangle for it
  -- that contains the price, its edges included.
  pub check_chart_zone_iff :
      (chart : ChartZoneRead D) (symbol : String) (price : D)
      → ((check_chart_zone chart symbol price).allowed ≡ true)
        ↔ Any (Contains price) (active_zones chart symbol)
  unfolding check_chart_zone active_zones
  check_chart_zone_iff (read_failed error) symbol price = (λ e. cc, λ a. absurd a)
  check_chart_zone_iff (read_ok zones charted) symbol price =
      elim (Bool-cases (any (λ s. str_eq s symbol) charted)) [
        | inl shown ↦
            rw (shown, active_zones)
              (check_zones_iff price symbol (get_or (lookup symbol zones) []))
        | inr hidden ↦ rw (hidden, active_zones) (λ e. cc, λ a. absurd a)
      ]
