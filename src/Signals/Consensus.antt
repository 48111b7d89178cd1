-- ===== src/Signals/Consensus.antt =====
-- backend/src/engine/loop.ts: the consensus of the scored versions, with the superseded rules that the
-- file keeps. The map of gated scores has an entry for every version that is looked up, and is a
-- function. The summaries, which are texts, are left out.
pub mod Agreed
pub mod Representative
use tera_trade.Prelude.{
  Bool, false, leb, not, ◌&&◌, ◌||◌, if◌then◌else◌, Option, none, some, get_or, List, [], ◌∷◌,
  length, filter, map, any, find,
}
use tera_trade.Number.{Number, gte, lt, plus, divided_by, of_nat, decimal}
use tera_trade.Analytics.Session.{TradingSession}
use tera_trade.Execution.Mode.{StrategyVersion, v1, v2, v3, v5, v6, v7}
use tera_trade.Execution.Engine.{Decision}
use tera_trade.Scoring.Versions.{version_eq, is_taken}
use tera_trade.Scoring.SessionPerformance.{SessionPerformanceSelection}
use tera_trade.Scoring.Bandit.{BanditSelectionResult}

-- The fields of `GatedScore` that the consensus reads.
pub record GatedScore (D : Type 0) : Type 0 where
  pub probability : D
  pub decision : Decision

abbrev pub GatedByVersion : Type 0 → Type 0
GatedByVersion D = StrategyVersion → GatedScore D

pub record ConsensusDecision (D : Type 0) : Type 0 where
  pub taken : Bool
  pub representative_version : Option StrategyVersion
  pub average_probability : D

abbrev pub strategy_versions : List StrategyVersion
strategy_versions = v1 ∷ v2 ∷ v3 ∷ v5 ∷ []

abbrev pub all_four_versions : List StrategyVersion
all_four_versions = v1 ∷ v2 ∷ v3 ∷ v5 ∷ []

abbrev pub v6_mandatory_representative_order : List StrategyVersion
v6_mandatory_representative_order = v6 ∷ v3 ∷ v2 ∷ v1 ∷ v5 ∷ v7 ∷ []

pub is_v6_v7_only_session : TradingSession → Bool
is_v6_v7_only_session session = false

module _ {D : Type 0} ⦃n : Number D⦄ where
  -- LOOSE_GATE_THRESHOLD, which V6_MANDATORY_THRESHOLD and V7_SOLO_EXECUTION_THRESHOLD equal.
  abbrev pub loose_gate_threshold : D
  loose_gate_threshold = decimal 65 2

  abbrev v6_mandatory_threshold : D
  v6_mandatory_threshold = decimal 65 2

  abbrev v7_solo_execution_threshold : D
  v7_solo_execution_threshold = decimal 65 2

  abbrev mutual_agreement_high_threshold : D
  mutual_agreement_high_threshold = decimal 75 2

  abbrev v5_execution_gate_threshold : D
  v5_execution_gate_threshold = decimal 75 2

  abbrev v6_solo_execution_threshold : D
  v6_solo_execution_threshold = decimal 295 3

  abbrev v3_solo_execution_threshold : D
  v3_solo_execution_threshold = decimal 295 3

  abbrev pub clears : D → GatedScore D → Bool
  clears threshold g = gte g.probability threshold

  has_mutual_agreement : List D → D → Bool
  has_mutual_agreement probabilities v5_probability =
      any (λ p. gte p mutual_agreement_high_threshold) probabilities
      && gte v5_probability v5_execution_gate_threshold

  pub has_any_single_version_agreement : GatedByVersion D → Bool
  has_any_single_version_agreement gated =
      any (λ v. clears loose_gate_threshold (gated v)) all_four_versions

  pub has_v6_mandatory_agreement : GatedByVersion D → Bool
  unfolding has_any_single_version_agreement
  has_v6_mandatory_agreement gated =
      if lt (gated v6).probability v6_mandatory_threshold
      then false
      else has_any_single_version_agreement gated

  pub has_v6_solo_agreement : GatedByVersion D → Bool
  has_v6_solo_agreement gated = clears v6_solo_execution_threshold (gated v6)

  pub has_v3_solo_agreement : GatedByVersion D → Bool
  has_v3_solo_agreement gated = clears v3_solo_execution_threshold (gated v3)

  pub has_v7_solo_agreement : GatedByVersion D → Bool
  has_v7_solo_agreement gated = clears v7_solo_execution_threshold (gated v7)

  pub has_majority_vote_agreement : GatedByVersion D → Bool
  has_majority_vote_agreement gated =
      leb 2 (length (filter (λ v. clears loose_gate_threshold (gated v)) strategy_versions))

  pub has_bandit_selected_version_agreement : GatedByVersion D → BanditSelectionResult D → Bool
  unfolding has_majority_vote_agreement
  has_bandit_selected_version_agreement gated selection =
      if selection.cold_start
      then has_majority_vote_agreement gated
      else clears loose_gate_threshold (gated selection.selected_version)

  unfoldable pub has_session_best_version_agreement :
      GatedByVersion D → SessionPerformanceSelection D → Bool
  unfolding has_majority_vote_agreement
  has_session_best_version_agreement gated selection =
      if selection.cold_start
      then has_majority_vote_agreement gated
      else clears loose_gate_threshold (gated selection.selected_version)

  add_from : D → List D → D
  add_from acc [] = acc
  add_from acc (x ∷ xs) = add_from (plus acc x) xs

  average_probability_of : GatedByVersion D → D
  unfolding add_from
  average_probability_of gated =
      let probabilities = map (λ v. (gated v).probability) strategy_versions in
      divided_by (add_from (of_nat 0) probabilities) (of_nat (length probabilities))

  pub session_gate_passed : GatedByVersion D → SessionPerformanceSelection D → TradingSession → Bool
  unfolding has_session_best_version_agreement is_v6_v7_only_session
  session_gate_passed gated selection session =
      let raw = has_session_best_version_agreement gated selection in
      let driven_by_v6_or_v7 =
        raw
        && (not selection.cold_start
            && (version_eq selection.selected_version v6
                || version_eq selection.selected_version v7)) in
      if is_v6_v7_only_session session then driven_by_v6_or_v7 else raw

  -- The first version of the order, and those after it.
  pub representative_order :
      Bool → SessionPerformanceSelection D → StrategyVersion × List StrategyVersion
  representative_order passed selection =
      if passed && not selection.cold_start
      then (
        selection.selected_version,
        filter (λ v. not (version_eq v selection.selected_version))
            v6_mandatory_representative_order,
      )
      else (v6, v3 ∷ v2 ∷ v1 ∷ v5 ∷ v7 ∷ [])

  -- `representativeOrder.find((v) => takenVersions.includes(v)) ?? representativeOrder[0]!`
  pub representative_of :
      GatedByVersion D → StrategyVersion × List StrategyVersion → StrategyVersion
  representative_of gated (first, rest) =
      let taken_versions = filter (λ v. is_taken (gated v).decision) (first ∷ rest) in
      get_or (find (λ v. any (λ u. version_eq u v) taken_versions) (first ∷ rest)) first

  unfoldable pub determine_consensus :
      GatedByVersion D → SessionPerformanceSelection D → TradingSession → ConsensusDecision D
  unfolding session_gate_passed representative_order representative_of average_probability_of
  determine_consensus gated selection session =
      let taken = session_gate_passed gated selection session in
      record {
        taken = taken;
        representative_version =
            if taken
            then some (representative_of gated (representative_order taken selection))
            else none;
        average_probability = average_probability_of gated;
      }

  pub determine_continuous_scan_consensus :
      GatedByVersion D → SessionPerformanceSelection D → TradingSession → ConsensusDecision D
  unfolding determine_consensus
  determine_continuous_scan_consensus = determine_consensus
