-- ===== src/Execution/Engine/Guards.antt =====
-- When `executeIfApproved` of backend/src/execution/engine.ts leaves the broker and the database alone.
use tera_trade.Prelude.{◌≡◌, ◌⊎◌, inl, inr, false, Option, some, none, arith, Option-cases}
use tera_trade.Number.{Number}
use tera_trade.Brokers.Types.{BrokerClient}
use tera_trade.Execution.Mode.{analysis_only}
use tera_trade.Execution.Engine.{
  skipped_score, Setup, Database, not_executed, Reason, entry_guard, guarded_entry,
  execute_if_approved,
}

module _ {D : Type 0} where
  -- The setup is not taken, or not approved, or the mode is ANALYSIS_ONLY.
  abbrev pub IsHeldBack : Setup D → Type 0
  IsHeldBack s =
      (s.decision ≡ skipped_score) ⊎ (s.assessment.approved ≡ false) ⊎ (s.mode ≡ analysis_only)

module _ {D : Type 0} ⦃n : Number D⦄ where
  held_back_lem : (s : Setup D) → IsHeldBack s → (r : Reason) × (entry_guard s ≡ some r)
  unfolding entry_guard
  held_back_lem s h = elim (Option-cases (entry_guard s)) [
    | inl passed ↦ absurd (ground arith)
    | inr (r, e) ↦ (r, e)
  ]

module _ {D B : Type 0} ⦃n : Number D⦄ where
  guarded_entry_lem :
      (g : Option Reason) (r : Reason) (broker : BrokerClient D B) (s : Setup D) (b : B)
      (db : Database D)
      → g ≡ some r
      → let o = guarded_entry g broker s b db in
        (o.broker_state ≡ b) × (o.database ≡ db) × (o.result ≡ not_executed r)
  unfolding guarded_entry
  guarded_entry_lem none r broker s b db e = cc
  guarded_entry_lem (some q) r broker s b db e = ground arith

  -- A setup that is not taken, that the risk engine does not approve, or in ANALYSIS_ONLY mode, reaches
  -- neither the broker nor the database, and is reported as not executed.
  pub execute_if_approved_held_back :
      (broker : BrokerClient D B) (s : Setup D) (b : B) (db : Database D)
      → IsHeldBack s
      → let o = execute_if_approved broker s b db in
        (o.broker_state ≡ b) × (o.database ≡ db) × ((r : Reason) × (o.result ≡ not_executed r))
  unfolding execute_if_approved
  execute_if_approved_held_back broker s b db h =
      let (r, e) = held_back_lem s h in
      let (same, kept, result) = guarded_entry_lem (entry_guard s) r broker s b db e in
      (same, kept, (r, result))
