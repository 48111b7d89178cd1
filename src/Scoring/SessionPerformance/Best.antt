-- ===== src/Scoring/SessionPerformance/Best.antt =====
-- What `selectSessionBestVersion` of backend/src/scoring/sessionPerformance.ts selects.
use tera_trade.Prelude.{
  ℕ, true, false, ◌≤◌, ◌<◌, ◌≡◌, ◌⊎◌, inl, inr, refl, List, [], ◌∷◌, All, Any, arith, leb,
  Bool-cases,
}
use tera_trade.Number.{Number, IsOrdered, ◌≼◌}
use tera_trade.Scoring.SessionPerformance.{
  SessionVersionStats, eligible_versions, better, best_of, select_from, select_session_best_version,
}

module _ {D : Type 0} where
  eligible_versions-none :
      (m : ℕ) (xs : List (SessionVersionStats D))
      → eligible_versions m xs ≡ []
      → All (λ t. t.resolved_count < m) xs
  unfolding eligible_versions
  eligible_versions-none m [] h = tt
  eligible_versions-none m (x ∷ xs) h = elim (Bool-cases (leb m x.resolved_count)) [
    | inl e ↦ ground arith
    | inr e ↦ ground (arith, eligible_versions-none m xs)
  ]

  eligible_versions-Any :
      (b : SessionVersionStats D) (m : ℕ) (xs : List (SessionVersionStats D))
      → Any (λ t. t ≡ b) (eligible_versions m xs)
      → (m ≤ b.resolved_count) × Any (λ t. t ≡ b) xs
  unfolding eligible_versions
  eligible_versions-Any b m [] h = absurd h
  eligible_versions-Any b m (x ∷ xs) h = elim (Bool-cases (leb m x.resolved_count)) [
    | inl e ↦ ground (arith, eligible_versions-Any b m xs)
    | inr e ↦ ground (arith, eligible_versions-Any b m xs)
  ]

module _ {D : Type 0} ⦃n : Number D⦄ where
  eligible_versions-All :
      (w : D) (m : ℕ) (xs : List (SessionVersionStats D))
      → All (λ t. t.win_rate ≼ w) (eligible_versions m xs)
      → All (λ t. m ≤ t.resolved_count → t.win_rate ≼ w) xs
  unfolding eligible_versions
  eligible_versions-All w m [] h = tt
  eligible_versions-All w m (x ∷ xs) h = elim (Bool-cases (leb m x.resolved_count)) [
    | inl e ↦ ground (arith, eligible_versions-All w m xs)
    | inr e ↦ ground (arith, eligible_versions-All w m xs)
  ]

  better-cases : (b s : SessionVersionStats D) → (better b s ≡ b) ⊎ (better b s ≡ s)
  unfolding better
  better-cases b s = ground arith

  best_of-Any :
      (best : SessionVersionStats D) (rest : List (SessionVersionStats D))
      → Any (λ t. t ≡ best_of best rest) (best ∷ rest)
  unfolding best_of
  best_of-Any best [] = inl refl
  best_of-Any best (s ∷ rest) =
      ground (arith, best_of-Any (better best s) rest, better-cases best s)

  module _ (laws : IsOrdered D) where
    open laws use {lte_total, lte_trans}

    better_le :
        (b s : SessionVersionStats D)
        → (b.win_rate ≼ (better b s).win_rate) × (s.win_rate ≼ (better b s).win_rate)
    unfolding better
    better_le b s = ground (
      arith,
      lte_total b.win_rate b.win_rate,
      lte_total s.win_rate s.win_rate,
      lte_total s.win_rate b.win_rate,
    )

    best_of_le :
        (best : SessionVersionStats D) (rest : List (SessionVersionStats D))
        → (best.win_rate ≼ (best_of best rest).win_rate)
          × All (λ t. t.win_rate ≼ (best_of best rest).win_rate) rest
    unfolding best_of
    best_of_le best [] = (ground (arith, lte_total best.win_rate best.win_rate), tt)
    best_of_le best (s ∷ rest) =
        let next = better best s in
        let (up, all) = best_of_le next rest in
        let (of_best, of_s) = better_le best s in
        let m = (best_of next rest).win_rate in
        (
          lte_trans best.win_rate next.win_rate m of_best up,
          (lte_trans s.win_rate next.win_rate m of_s up, all),
        )

    -- The row is one of those given, has enough samples, and no row with enough samples has a higher
    -- win rate.
    abbrev pub IsBest : ℕ → List (SessionVersionStats D) → SessionVersionStats D → Type 0
    IsBest m all_stats s =
        Any (λ t. t ≡ s) all_stats
        × (m ≤ s.resolved_count)
        × All (λ t. m ≤ t.resolved_count → t.win_rate ≼ s.win_rate) all_stats

    abbrev pub IsColdStart : ℕ → List (SessionVersionStats D) → Type 0
    IsColdStart m all_stats = All (λ t. t.resolved_count < m) all_stats

    select_from_lem :
        (m : ℕ) (all_stats eligible : List (SessionVersionStats D))
        → eligible_versions m all_stats ≡ eligible
        → let s = select_from all_stats eligible in
          ((s.cold_start ≡ true) × IsColdStart m all_stats)
          ⊎ ((s.cold_start ≡ false)
              × ((b : SessionVersionStats D) × (b.version ≡ s.selected_version)
                  × IsBest m all_stats b))
    unfolding select_from
    select_from_lem m all_stats [] e = inl (refl, eligible_versions-none m all_stats e)
    select_from_lem m all_stats (x ∷ xs) e =
        let b = best_of x (x ∷ xs) in
        let rows : Any (λ t. t ≡ b) (x ∷ xs) = ground (arith, best_of-Any x (x ∷ xs)) in
        let (enough, here) = eligible_versions-Any b m all_stats (rw e rows) in
        let most = eligible_versions-All b.win_rate m all_stats (rw e (best_of_le x (x ∷ xs)).1) in
        inr (refl, (b, refl, (here, enough, most)))

    -- A selection that is not a cold start is of a version that has enough resolved samples and whose
    -- win rate no version with enough samples exceeds; it is a cold start just when none has enough.
    pub select_session_best_version-IsBest :
        (all_stats : List (SessionVersionStats D)) (m : ℕ)
        → let s = select_session_best_version all_stats m in
          ((s.cold_start ≡ true) × IsColdStart m all_stats)
          ⊎ ((s.cold_start ≡ false)
              × ((b : SessionVersionStats D) × (b.version ≡ s.selected_version)
                  × IsBest m all_stats b))
    unfolding select_session_best_version
    select_session_best_version-IsBest all_stats m =
        select_from_lem m all_stats (eligible_versions m all_stats) refl
