-- ===== src/Signals/Consensus/Agreed.antt =====
-- When `determineConsensus` of backend/src/engine/loop.ts lets a signal through.
use tera_trade.Prelude.{◌≡◌, ◌⊎◌, ◌↔◌, inl, inr, true, false, arith, Bool-cases}
use tera_trade.Number.{Number, ◌≼◌, gte}
use tera_trade.Analytics.Session.{TradingSession}
use tera_trade.Execution.Mode.{StrategyVersion, v1, v2, v3, v5}
use tera_trade.Scoring.SessionPerformance.{SessionPerformanceSelection}
use tera_trade.Signals.Consensus.{
  GatedByVersion, loose_gate_threshold, has_majority_vote_agreement,
  has_session_best_version_agreement, session_gate_passed, determine_consensus,
  is_v6_v7_only_session,
}

module _ {D : Type 0} ⦃n : Number D⦄ where
  abbrev pub Clears : GatedByVersion D → StrategyVersion → Type 0
  Clears g v = loose_gate_threshold ≼ (g v).probability

  -- Two of the four voters clear the threshold.
  abbrev pub IsMajority : GatedByVersion D → Type 0
  IsMajority g =
      (Clears g v1 × (Clears g v2 ⊎ Clears g v3 ⊎ Clears g v5))
      ⊎ (Clears g v2 × (Clears g v3 ⊎ Clears g v5))
      ⊎ (Clears g v3 × Clears g v5)

  -- In a cold start a majority clears the threshold, and otherwise the selected version does.
  abbrev pub IsAgreed : GatedByVersion D → SessionPerformanceSelection D → Type 0
  IsAgreed g s =
      ((s.cold_start ≡ true) × IsMajority g)
      ⊎ ((s.cold_start ≡ false) × Clears g s.selected_version)

  has_majority_vote_agreement-IsMajority :
      (g : GatedByVersion D) → (has_majority_vote_agreement g ≡ true) ↔ IsMajority g
  unfolding has_majority_vote_agreement
  has_majority_vote_agreement-IsMajority g =
      elim (Bool-cases (gte (g v1).probability loose_gate_threshold)) [
        | inl a ↦ ground arith
        | inr a ↦ ground arith
      ]

  session_gate_passed_lem :
      (g : GatedByVersion D) (s : SessionPerformanceSelection D) (session : TradingSession)
      → session_gate_passed g s session ≡ has_session_best_version_agreement g s
  unfolding session_gate_passed is_v6_v7_only_session
  session_gate_passed_lem g s session = ground arith

  -- A signal is taken just when, in a cold start of the session's selection, two of v1, v2, v3 and v5
  -- have a probability of 65% or more, and otherwise the selected version has one.
  pub determine_consensus_iff :
      (g : GatedByVersion D) (s : SessionPerformanceSelection D) (session : TradingSession)
      → ((determine_consensus g s session).taken ≡ true) ↔ IsAgreed g s
  unfolding determine_consensus has_session_best_version_agreement
  determine_consensus_iff g s session =
      ground (arith, has_majority_vote_agreement-IsMajority g, session_gate_passed_lem g s session)
