-- ===== src/Scoring/Bandit.antt =====
-- backend/src/scoring/consensusBandit.ts: the version that a UCB1 bandit picks in a bucket of market
-- conditions. A Map of versions is the list of its values in the order of insertion. `Math.sqrt` and
-- `Math.log` are arguments, and an infinite score is `none`.
pub mod Warm
use tera_trade.Prelude.{
  ℕ, ◌+◌, Bool, true, false, ltb, leb, ◌&&◌, ◌||◌, if◌then◌else◌, Option, none, some, List, [], ◌∷◌,
  length, filter, map, any, String, str_eq,
}
use tera_trade.Number.{Number, gt, plus, times, divided_by, of_nat, decimal}
use tera_trade.Execution.Mode.{StrategyVersion, v1}
use tera_trade.Scoring.Versions.{ScoreRow, version_eq, is_resolved, label_in, consensus_bandit_arms}

pub record BucketVersionStats (D : Type 0) : Type 0 where
  pub version : StrategyVersion
  pub plays : ℕ
  pub mean_r_multiple : D

-- `armScores` is in the order of the arms.
pub record BanditSelectionResult (D : Type 0) : Type 0 where
  pub bucket : String
  pub selected_version : StrategyVersion
  pub cold_start : Bool
  pub arm_stats : List (BucketVersionStats D)
  pub arm_scores : List (StrategyVersion × Option D)

abbrev pub min_bucket_samples_before_bandit : ℕ
min_bucket_samples_before_bandit = 20

abbrev pub min_per_arm_samples_before_bandit : ℕ
min_per_arm_samples_before_bandit = 3

in_bucket : String → Option String → Bool
in_bucket bucket none = false
in_bucket bucket (some b) = str_eq b bucket

module _ {D : Type 0} where
  pub total_plays : List (BucketVersionStats D) → ℕ
  total_plays [] = 0
  total_plays (s ∷ stats) = s.plays + total_plays stats

  pub is_cold_start : List (BucketVersionStats D) → ℕ → ℕ → Bool
  unfolding total_plays
  is_cold_start stats min_bucket_samples min_per_arm_samples =
      ltb (total_plays stats) min_bucket_samples || any (λ s. ltb s.plays min_per_arm_samples) stats

  -- The rows of the aggregate's `where`.
  pub bucket_rows : String → StrategyVersion → ℕ → List (ScoreRow D) → List (ScoreRow D)
  unfolding in_bucket
  bucket_rows bucket version at = filter (λ row.
      version_eq row.strategy_version version
      && (in_bucket bucket row.context_bucket
          && (label_in is_resolved row.outcome_label && ltb row.time at)))

  multiples_of : List (ScoreRow D) → List D
  multiples_of [] = []
  multiples_of (row ∷ rows) =
      let rest = multiples_of rows in
      elim row.outcome_r_multiple [ none ↦ rest | some m ↦ m ∷ rest ]

module _ {D : Type 0} ⦃n : Number D⦄ where
  abbrev pub ucb_exploration_constant : D
  ucb_exploration_constant = decimal 5 1

  sum_of : List D → D
  sum_of [] = of_nat 0
  sum_of (x ∷ xs) = plus x (sum_of xs)

  -- `_avg`, which is null where no row has a multiple.
  average_multiple : List D → D
  unfolding sum_of
  average_multiple [] = of_nat 0
  average_multiple (m ∷ ms) = divided_by (sum_of (m ∷ ms)) (of_nat (length (m ∷ ms)))

  pub compute_bucket_version_stats :
      List (ScoreRow D) → String → StrategyVersion → ℕ → BucketVersionStats D
  unfolding bucket_rows average_multiple multiples_of
  compute_bucket_version_stats rows bucket version at =
      let found = bucket_rows bucket version at rows in
      record {
        version = version;
        plays = length found;
        mean_r_multiple = average_multiple (multiples_of found);
      }

  module _ (sqrt log : D → D) where
    pub compute_ucb_score : BucketVersionStats D → ℕ → D → Option D
    compute_ucb_score stats total_bucket_plays exploration_constant =
        if leb stats.plays 0
        then none
        else some (
            plus stats.mean_r_multiple (
              times exploration_constant
                (sqrt (divided_by (log (of_nat total_bucket_plays)) (of_nat stats.plays)))))

    pub arm_scores_of : List (BucketVersionStats D) → ℕ → D → List (StrategyVersion × Option D)
    unfolding compute_ucb_score
    arm_scores_of stats total exploration_constant =
        map (λ s. (s.version, compute_ucb_score s total exploration_constant)) stats

    -- `score > bestScore`, where the best so far is -Infinity (no pair) or a score.
    pub beats : Option D → Option (StrategyVersion × Option D) → Bool
    beats score none = true
    beats none (some (v, none)) = false
    beats none (some (v, some b)) = true
    beats (some s) (some (v, none)) = false
    beats (some s) (some (v, some b)) = gt s b

    pub choose_arm :
        Option (StrategyVersion × Option D) → List (StrategyVersion × Option D) → StrategyVersion
    unfolding beats
    choose_arm none [] = v1
    choose_arm (some (v, best)) [] = v
    choose_arm best ((v, score) ∷ rest) =
        choose_arm (if beats score best then some (v, score) else best) rest

    pub select_bandit_version :
        List (BucketVersionStats D) → String → D → ℕ → ℕ → BanditSelectionResult D
    unfolding is_cold_start total_plays arm_scores_of choose_arm
    select_bandit_version stats bucket exploration_constant min_bucket_samples min_per_arm_samples =
        let scores = arm_scores_of stats (total_plays stats) exploration_constant in
        if is_cold_start stats min_bucket_samples min_per_arm_samples
        then record {
          bucket = bucket;
          selected_version = v1;
          cold_start = true;
          arm_stats = stats;
          arm_scores = [];
        }
        else record {
          bucket = bucket;
          selected_version = choose_arm none scores;
          cold_start = false;
          arm_stats = stats;
          arm_scores = scores;
        }

    pub compute_bandit_selection : List (ScoreRow D) → String → ℕ → BanditSelectionResult D
    unfolding compute_bucket_version_stats select_bandit_version
    compute_bandit_selection rows bucket at =
        select_bandit_version
          (map (λ version. compute_bucket_version_stats rows bucket version at)
            consensus_bandit_arms)
          bucket ucb_exploration_constant min_bucket_samples_before_bandit
          min_per_arm_samples_before_bandit
