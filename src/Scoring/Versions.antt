-- ===== src/Scoring/Versions.antt =====
-- The scored versions of backend/src/scoring, and the row of a score.
use tera_trade.Prelude.{
  ℕ, ◌==◌, Bool, true, false, Option, none, some, List, [], ◌∷◌, String, ◌≡◌, arith,
}
use tera_trade.Execution.Mode.{StrategyVersion, v1, v2, v3, v4, v5, v6, v7}
use tera_trade.Execution.Engine.{Decision, taken, skipped_score}

abbrev version_number : StrategyVersion → ℕ
version_number v1 = 1
version_number v2 = 2
version_number v3 = 3
version_number v4 = 4
version_number v5 = 5
version_number v6 = 6
version_number v7 = 7

-- `a === b`
abbrev pub version_eq : StrategyVersion → StrategyVersion → Bool
version_eq a b = version_number a == version_number b

pub version_eq_lem : (a b : StrategyVersion) → version_eq a b ≡ true → a ≡ b
version_eq_lem a b e = ground arith

pub version_eq_refl : (a : StrategyVersion) → version_eq a a ≡ true
version_eq_refl a = ground arith

abbrev pub is_taken : Decision → Bool
is_taken taken = true
is_taken skipped_score = false

-- CONSENSUS_BANDIT_ARMS, which SESSION_PERFORMANCE_ARMS is too.
abbrev pub consensus_bandit_arms : List StrategyVersion
consensus_bandit_arms = v1 ∷ v2 ∷ v3 ∷ v5 ∷ v6 ∷ v7 ∷ []

-- `outcomeLabel`: the four of RESOLVED_OUTCOME_LABELS, and the others.
pub data ScoreOutcomeLabel : Type 0 where
  executed_win executed_loss missed_win missed_loss other_label : ScoreOutcomeLabel

abbrev pub is_positive : ScoreOutcomeLabel → Bool
is_positive executed_win = true
is_positive missed_win = true
is_positive _ = false

abbrev pub is_resolved : ScoreOutcomeLabel → Bool
is_resolved other_label = false
is_resolved _ = true

-- The columns of a row of `Score` that the selections read; a column may be null.
pub record ScoreRow (D : Type 0) : Type 0 where
  pub strategy_version : StrategyVersion
  pub decision : Decision
  pub time : ℕ
  pub outcome_label : Option ScoreOutcomeLabel
  pub outcome_r_multiple : Option D
  pub context_bucket : Option String

-- `outcomeLabel: { in: … }`, which no null meets.
abbrev pub label_in : (ScoreOutcomeLabel → Bool) → Option ScoreOutcomeLabel → Bool
label_in test none = false
label_in test (some l) = test l
