-- ===== src/Signals/Attempt/Gated.antt =====
-- What an order of `attemptExecution` of backend/src/engine/loop.ts has passed.
use tera_trade.Risk.Engine.{AssessReason, RiskAssessment}
use tera_trade.Signals.Attempt.{
  AttemptOutcome, AttemptParams, Brokers, EntrySettings, Readings, Venue, World, attempted,
  broker_of, chart_blocks, chart_gate_applies, tilt_blocks, tilt_gate_applies, attempt_assessed,
  place_entry, attempt_execution, attempt_represented,
}
use tera_trade.Number.{Number}
use tera_trade.Prelude.{
  Option, String, arith, false, inl, inr, none, refl, some, true, ◌≡◌, ◌⊎◌, Any, Bool-cases,
  Option-cases, ℕ, ◌+◌, ◌≤◌, Bool,
}
use tera_trade.Execution.Mode.{StrategyVersion, live}
use tera_trade.Risk.ChartZoneGate.{check_chart_zone}
use tera_trade.Risk.TiltGate.{
  check_tilt_alignment, TiltReading, tilt_max_age_ms, tilt_reading, updated_at,
}
use tera_trade.Risk.ChartZoneGate.Inside.{Contains, active_zones, check_chart_zone_iff}
use tera_trade.Risk.TiltGate.Alignment.{Wins, check_tilt_alignment_iff}
use tera_trade.Market.{opposite}

abbrev pub is_attempt : AttemptOutcome → Bool
is_attempt (attempted x) = true
is_attempt _ = false

module _ {D B : Type 0} where
  abbrev pub IsUntouched : World D B → World D B → Type 0
  IsUntouched before after =
      (after.broker_state ≡ before.broker_state) × (after.database ≡ before.database)

module _ {D B : Type 0} ⦃n : Number D⦄ where
  -- A taken consensus with a representative, an approved assessment that trips no kill switch, and an
  -- allowing answer of each of the browser's two gates that applies.
  abbrev pub IsCleared : EntrySettings → Readings D → AttemptParams D B → Type 0
  IsCleared s r p =
      (p.consensus.taken ≡ true)
      × ((v : StrategyVersion) × (p.consensus.representative_version ≡ some v))
      × ((a : RiskAssessment D) × (p.assessment ≡ some a)
          × (a.approved ≡ true)
          × (a.trip_kill_switch ≡ false))
      × (tilt_gate_applies s p.mode ≡ true
          → (check_tilt_alignment r.order_flow p.signal.side r.now_ms).allowed ≡ true)
      × (chart_gate_applies s p.mode ≡ true
          → (check_chart_zone r.chart p.signal.symbol p.close_price).allowed ≡ true)

  place_entry-IsUntouched :
      (p : AttemptParams D B) (v : StrategyVersion) (a : RiskAssessment D)
      (venue : Option (Venue D B)) (w : World D B)
      → let o = place_entry p v a venue w in
        ((is_attempt o.0 ≡ false) × IsUntouched w o.1 ⊎ (is_attempt o.0 ≡ true))
        × (o.1.gate ≡ w.gate)
  unfolding place_entry
  place_entry-IsUntouched p v a none w = (inl (refl, (refl, refl)), refl)
  place_entry-IsUntouched p v a (some venue) w = (inr refl, refl)

  module _ (reason_text : AssessReason → String) (s : EntrySettings) (r : Readings D)
      (brokers : Brokers D B) (p : AttemptParams D B) where
    attempt_assessed-IsCleared :
        (v : StrategyVersion) (a : RiskAssessment D) (w : World D B)
        → p.consensus.taken ≡ true
        → p.consensus.representative_version ≡ some v
        → p.assessment ≡ some a
        → let o = attempt_assessed reason_text s r brokers p v a w in
          ((is_attempt o.0 ≡ false) × IsUntouched w o.1)
          ⊎ ((is_attempt o.0 ≡ true) × IsCleared s r p × (o.1.gate ≡ w.gate))
    unfolding attempt_assessed tilt_blocks chart_blocks
    attempt_assessed-IsCleared v a w t e f =
        ground (arith, place_entry-IsUntouched p v a (broker_of brokers p) w)

    -- An entry that the method does not attempt leaves the broker and the trades alone. One that it
    -- attempts has a taken consensus with a representative, an assessment that is approved and trips no
    -- kill switch, and passed each of the two gates of the browser that applies in its mode.
    pub attempt_execution-IsCleared :
        (w : World D B)
        → let o = attempt_execution reason_text s r brokers p w in
          ((is_attempt o.0 ≡ false) × IsUntouched w o.1)
          ⊎ ((is_attempt o.0 ≡ true) × IsCleared s r p × (o.1.gate ≡ w.gate))
    unfolding attempt_execution attempt_represented
    attempt_execution-IsCleared w = elim (Bool-cases p.consensus.taken) [
      | inr e ↦ ground arith
      | inl t ↦ elim (Option-cases p.consensus.representative_version) [
        | inl e ↦ ground arith
        | inr (v, e) ↦ elim (Option-cases p.assessment) [
          | inl f ↦ ground arith
          | inr (a, f) ↦ ground (arith, attempt_assessed-IsCleared v a w t e f)
        ]
      ]
    ]

    -- In LIVE mode, with both gates switched on, an entry that is attempted has a Tilt reading of at
    -- most two minutes ago by which the opposite side does not win, and a close price inside a rectangle
    -- that the chart shows for the symbol.
    pub attempt_execution_live :
        (w : World D B)
        → p.mode ≡ live
        → s.tilt_gate_enabled ≡ true
        → s.chart_zone_gate_enabled ≡ true
        → is_attempt (attempt_execution reason_text s r brokers p w).0 ≡ true
        → Any (Contains p.close_price) (active_zones r.chart p.signal.symbol)
          × ((q : TiltReading D) × (t : ℕ) × (tilt_reading r.order_flow ≡ some q)
              × (updated_at r.order_flow ≡ some t)
              × (r.now_ms ≤ t + tilt_max_age_ms)
              × ¬ Wins q (opposite p.signal.side))
    unfolding tilt_gate_applies chart_gate_applies
    attempt_execution_live w m tilt chart e = elim (attempt_execution-IsCleared w) [
      | inl held ↦ absurd (ground (arith, held.0))
      | inr (here, cleared, kept) ↦ (
        (check_chart_zone_iff r.chart p.signal.symbol p.close_price).0
            (cleared.4 (rw (chart, m) refl)),
        (check_tilt_alignment_iff r.order_flow p.signal.side r.now_ms).0
            (cleared.3 (rw (tilt, m) refl)),
      )
    ]
