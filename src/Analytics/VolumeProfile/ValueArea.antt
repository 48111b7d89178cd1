-- ===== src/Analytics/VolumeProfile/ValueArea.antt =====
-- The loop for the value area, in `computeVolumeProfile` of backend/src/analytics/volumeProfile.ts.
use tera_trade.Number.{Number, IsNonneg, ◌≼◌}
use tera_trade.Prelude.{All, List, length, suc, ℕ, ◌+◌, ◌-◌, ◌<◌, ◌≡◌, ◌≤◌, ◌⊎◌}
use tera_trade.Analytics.VolumeProfile.{Area, VolumeProfileLevel}

module _ {D : Type 0} ⦃n : Number D⦄ where
  -- Indices of the list, around the one the loop starts from.
  abbrev pub IsAround : List (VolumeProfileLevel D) → ℕ → Area D → Type 0
  IsAround levels index area =
      (area.low_idx ≤ index) × (index ≤ area.high_idx) × (area.high_idx < length levels)

  -- The wanted volume is covered, or the area is the whole list.
  abbrev pub IsCovered : D → List (VolumeProfileLevel D) → Area D → Type 0
  IsCovered wanted levels area =
      (wanted ≼ area.covered_volume) ⊎ ((area.low_idx ≡ 0) × (suc area.high_idx ≡ length levels))

  abbrev levels_left : List (VolumeProfileLevel D) → Area D → ℕ
  levels_left levels area = area.low_idx + (length levels - suc area.high_idx)

  abbrev pub IsVolume : List (VolumeProfileLevel D) → Type 0
  IsVolume = All (λ l. IsNonneg l.volume)
