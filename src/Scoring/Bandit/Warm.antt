-- ===== src/Scoring/Bandit/Warm.antt =====
-- When the bandit of backend/src/scoring/consensusBandit.ts trusts its history.
use tera_trade.Prelude.{
  All, Bool-cases, List, String, [], any, arith, false, inl, inr, ltb, refl, true, ℕ, ◌↔◌, ◌∷◌, ◌≡◌,
  ◌≤◌,
}
use tera_trade.Scoring.Bandit.{
  BucketVersionStats, is_cold_start, select_bandit_version, total_plays,
}
use tera_trade.Number.{Number}
use tera_trade.Execution.Mode.{v1}

module _ {D : Type 0} where
  -- Enough plays in all, and enough of each arm.
  abbrev pub IsWarm : List (BucketVersionStats D) → ℕ → ℕ → Type 0
  IsWarm stats min_bucket min_arm =
      (min_bucket ≤ total_plays stats) × All (λ s. min_arm ≤ s.plays) stats

  any_short_iff :
      (min_arm : ℕ) (stats : List (BucketVersionStats D))
      → (any (λ s. ltb s.plays min_arm) stats ≡ false) ↔ All (λ s. min_arm ≤ s.plays) stats
  any_short_iff min_arm [] = (λ e. tt, λ h. refl)
  any_short_iff min_arm (s ∷ stats) = ground (arith, any_short_iff min_arm stats)

module _ {D : Type 0} ⦃n : Number D⦄ (sqrt log : D → D) where
  -- The bandit falls back to v1 without a score in a bucket with fewer plays than required, in all or of
  -- one arm; and only then is it a cold start.
  pub select_bandit_version_iff :
      (stats : List (BucketVersionStats D)) (bucket : String) (constant : D)
      (min_bucket min_arm : ℕ)
      → let s = select_bandit_version sqrt log stats bucket constant min_bucket min_arm in
        ((s.cold_start ≡ false) ↔ IsWarm stats min_bucket min_arm)
        × (s.cold_start ≡ true → (s.selected_version ≡ v1) × (s.arm_scores ≡ []))
  unfolding select_bandit_version is_cold_start
  select_bandit_version_iff stats bucket constant min_bucket min_arm =
      elim (Bool-cases (is_cold_start stats min_bucket min_arm)) [
        | inl e ↦ ground (arith, any_short_iff min_arm stats)
        | inr e ↦ ground (arith, any_short_iff min_arm stats)
      ]
