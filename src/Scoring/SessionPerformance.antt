-- ===== src/Scoring/SessionPerformance.antt =====
-- backend/src/scoring/sessionPerformance.ts: the version with the best record in the session so far.
-- A Map of versions is the list of its values in the order of insertion; `sessionStart` is left out of
-- the selection, which only passes it on.
pub mod Best
use tera_trade.Prelude.{
  ℕ, Bool, true, false, ltb, leb, ◌&&◌, if◌then◌else◌, List, [], ◌∷◌, length, filter, map,
}
use tera_trade.Number.{Number, gt, divided_by, of_nat}
use tera_trade.Execution.Mode.{StrategyVersion, v1}
use tera_trade.Scoring.Versions.{
  ScoreRow, version_eq, is_taken, is_positive, is_resolved, label_in, consensus_bandit_arms,
}

pub record SessionVersionStats (D : Type 0) : Type 0 where
  pub version : StrategyVersion
  pub resolved_count : ℕ
  pub win_rate : D

pub record SessionPerformanceSelection (D : Type 0) : Type 0 where
  pub selected_version : StrategyVersion
  pub cold_start : Bool
  pub stats_by_version : List (SessionVersionStats D)

abbrev pub min_session_samples_per_version : ℕ
min_session_samples_per_version = 20

module _ {D : Type 0} where
  pub eligible_versions : ℕ → List (SessionVersionStats D) → List (SessionVersionStats D)
  eligible_versions min_samples = filter (λ s. leb min_samples s.resolved_count)

  -- `where`, of both counts.
  pub in_session : StrategyVersion → ℕ → ℕ → ScoreRow D → Bool
  in_session version session_start at row =
      version_eq row.strategy_version version
      && (is_taken row.decision && (leb session_start row.time && ltb row.time at))

  pub session_wins : StrategyVersion → ℕ → ℕ → List (ScoreRow D) → ℕ
  unfolding in_session
  session_wins version session_start at rows = length (
      filter
        (λ row. in_session version session_start at row && label_in is_positive row.outcome_label)
        rows)

  pub session_resolved : StrategyVersion → ℕ → ℕ → List (ScoreRow D) → ℕ
  unfolding in_session
  session_resolved version session_start at rows = length (
      filter
        (λ row. in_session version session_start at row && label_in is_resolved row.outcome_label)
        rows)

module _ {D : Type 0} ⦃n : Number D⦄ where
  pub better : SessionVersionStats D → SessionVersionStats D → SessionVersionStats D
  better best stats = if gt stats.win_rate best.win_rate then stats else best

  -- The loop of `selectSessionBestVersion`.
  pub best_of : SessionVersionStats D → List (SessionVersionStats D) → SessionVersionStats D
  unfolding better
  best_of best [] = best
  best_of best (stats ∷ rest) = best_of (better best stats) rest

  pub select_from :
      List (SessionVersionStats D) → List (SessionVersionStats D) → SessionPerformanceSelection D
  unfolding best_of
  select_from all_stats [] = record {
    selected_version = v1;
    cold_start = true;
    stats_by_version = all_stats;
  }
  select_from all_stats (first ∷ rest) = record {
    selected_version = (best_of first (first ∷ rest)).version;
    cold_start = false;
    stats_by_version = all_stats;
  }

  unfoldable pub select_session_best_version :
      List (SessionVersionStats D) → ℕ → SessionPerformanceSelection D
  unfolding select_from eligible_versions
  select_session_best_version all_stats min_samples =
      select_from all_stats (eligible_versions min_samples all_stats)

  pub compute_session_version_stats :
      List (ScoreRow D) → StrategyVersion → ℕ → ℕ → SessionVersionStats D
  unfolding session_wins session_resolved
  compute_session_version_stats rows version session_start at =
      let wins = session_wins version session_start at rows in
      let resolved = session_resolved version session_start at rows in
      record {
        version = version;
        resolved_count = resolved;
        win_rate = if ltb 0 resolved then divided_by (of_nat wins) (of_nat resolved) else of_nat 0;
      }

  unfoldable pub compute_session_performance_selection :
      List (ScoreRow D) → ℕ → ℕ → SessionPerformanceSelection D
  unfolding compute_session_version_stats select_session_best_version
  compute_session_performance_selection rows session_start at =
      select_session_best_version
        (map (λ version. compute_session_version_stats rows version session_start at)
          consensus_bandit_arms)
        min_session_samples_per_version
