-- ===== src/Risk/Sizing.antt =====
-- backend/src/risk/sizing.ts: the position size from a dollar budget, and from confidence tiers.
pub mod Budget
pub mod Tiers
use mathlib.Core.Option
use tera_trade.Prelude.{
  ℕ, ◌≤◌, min, max, Bool, true, false, ltb, ◌&&◌, if◌then◌else◌, ◌==◌, Option, List, [], ◌∷◌, find,
  get_or, get_last?,
}
use tera_trade.Number.{Number, lte, gt, gte, times, divided_by, whole, of_nat, decimal}

-- The texts of `reason`: which message is built, without its formatted numbers.
pub data SizingReason : Type 0 where
  no_stop invalid_point_value minimum_contract sized capped_to_max : SizingReason

pub record SizingResult (D : Type 0) : Type 0 where
  pub quantity : ℕ
  pub risk_amount : D
  pub stop_distance_points : D
  pub capped_by_max_position : Bool
  pub reason : SizingReason

-- [minAverageProbability, quantity]
abbrev pub Tier : Type 0 → Type 0
Tier D = D × ℕ

module _ {D : Type 0} ⦃n : Number D⦄ where
  refused : D → D → SizingReason → SizingResult D
  refused risk_amount stop_distance_points reason = record {
    quantity = 0;
    risk_amount = risk_amount;
    stop_distance_points = stop_distance_points;
    capped_by_max_position = false;
    reason = reason;
  }

  unfoldable pub compute_position_size : D → D → D → ℕ → SizingResult D
  unfolding refused
  compute_position_size risk_amount stop_distance_points point_value max_position_size =
      let risk_per_contract = times stop_distance_points point_value in
      let raw_quantity = max 1 (whole (divided_by risk_amount risk_per_contract)) in
      let capped = ltb max_position_size raw_quantity in
      let quantity = min raw_quantity max_position_size in
      let actual_risk_dollars = times risk_per_contract (of_nat quantity) in
      if lte stop_distance_points (of_nat 0)
      then refused risk_amount stop_distance_points no_stop
      else if lte risk_per_contract (of_nat 0)
      then refused risk_amount stop_distance_points invalid_point_value
      else record {
        quantity = quantity;
        risk_amount = risk_amount;
        stop_distance_points = stop_distance_points;
        capped_by_max_position = capped;
        reason =
            if (raw_quantity == 1) && gt actual_risk_dollars risk_amount
            then minimum_contract
            else if capped
            then capped_to_max
            else sized;
      }

  -- `[...tiers].sort((a, b) => b[0] - a[0])`: highest threshold first, and stable.
  pub insert_tier : Tier D → List (Tier D) → List (Tier D)
  insert_tier t [] = t ∷ []
  insert_tier t (u ∷ us) = if lte u.0 t.0 then t ∷ u ∷ us else u ∷ insert_tier t us

  pub sort_tiers : List (Tier D) → List (Tier D)
  sort_tiers [] = []
  sort_tiers (t ∷ ts) = insert_tier t (sort_tiers ts)

  unfoldable pub compute_confidence_tier_quantity : D → ℕ → List (Tier D) → ℕ
  unfolding sort_tiers insert_tier
  compute_confidence_tier_quantity average_probability max_position_size tiers =
      let sorted_descending = sort_tiers tiers in
      let lowest_tier_quantity = get_or (Option.map (λ t. t.1) (get_last? sorted_descending)) 1 in
      let cleared = find (λ t. gte average_probability t.0) sorted_descending in
      min (get_or (Option.map (λ t. t.1) cleared) lowest_tier_quantity) max_position_size
