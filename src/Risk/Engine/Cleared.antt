-- ===== src/Risk/Engine/Cleared.antt =====
-- The gates that a trade approved by backend/src/risk/engine.ts has passed, and the kill switch.
use tera_trade.Prelude.{
  if◌then◌else◌, ◌≤◌, ◌≡◌, ◌≢◌, ◌⊎◌, inl, inr, refl, Bool, true, false, Option, some, none, arith,
}
use tera_trade.Number.{Number}
use tera_trade.Analytics.SupportResistance.{NearestLevelResult, SrLevel, min_level_touches}
use tera_trade.Risk.DailyPlan.{DailyPlanRangeResult, RangeMode, blocked}
use tera_trade.Risk.Engine.{
  final_assessment, AssessParams, AssessReason, RiskAssessment, SignalKind, breakout, reversal,
  sr_gate, daily_plan_gate, daily_plan_range, nearest_level, level_of, assess_assistant,
  assess_generic, assess_prices, assess_new_trade, unless, has_range, beyond, within,
  max_entry_distance_atr, min_entry_distance_atr,
}
use tera_trade.Risk.Engine.Approval.{assess_new_trade_lem}

module _ {D : Type 0} ⦃n : Number D⦄ where
  -- There is a level near the entry, or near the price that was broken: tested at least twice for a
  -- breakout, and, unless the distance rule is suspended, not too close, and for a reversal not too far.
  abbrev pub IsValidated : SignalKind → Bool → Option (NearestLevelResult D) → Type 0
  IsValidated kind suspended nearest =
      (r : NearestLevelResult D) × (nearest ≡ some r)
      × ((kind ≡ reversal) ⊎ (min_level_touches ≤ r.level.touches))
      × ((suspended ≡ true)
          ⊎ ((within r.distance_in_atr min_entry_distance_atr ≡ false)
              × ((kind ≡ breakout) ⊎ (beyond r.distance_in_atr max_entry_distance_atr ≡ false))))

  sr_gate_lem :
      (kind : SignalKind) (suspended : Bool) (nearest : Option (NearestLevelResult D))
      → sr_gate kind suspended nearest ≡ none
      → IsValidated kind suspended nearest
  unfolding sr_gate
  sr_gate_lem kind suspended none e = cc
  sr_gate_lem breakout suspended (some r) e = (r, refl, ground arith, ground arith)
  sr_gate_lem reversal suspended (some r) e = (r, refl, ground arith, ground arith)

  daily_plan_gate_lem :
      (requires : Bool) (range : DailyPlanRangeResult D)
      → daily_plan_gate requires range ≡ none
      → ((requires ≡ false) ⊎ (has_range range ≡ true)) × (range.mode ≢ blocked)
  unfolding daily_plan_gate
  daily_plan_gate_lem requires range e = ground arith

  -- An approved trade conflicts with no open position on the correlated instrument, has a validated
  -- level unless that gate is bypassed, does not fight the daily plan, and has such a plan where the
  -- symbol requires one.
  pub assess_new_trade_cleared :
      (p : AssessParams D)
      → (assess_new_trade p).approved ≡ true
      → (p.has_conflicting_cross_symbol_position ≡ false)
        × ((p.sr_gate_bypass ≡ true)
            ⊎ IsValidated p.signal_kind p.sr_proximity_gate_suspended (nearest_level p))
        × ((p.requires_daily_plan ≡ false) ⊎ (has_range (daily_plan_range p) ≡ true))
        × ((daily_plan_range p).mode ≢ blocked)
  assess_new_trade_cleared p e =
      let (no_conflict, levels, plan) = (assess_new_trade_lem p e).0 in
      let (has_plan, not_blocked) =
        daily_plan_gate_lem p.requires_daily_plan (daily_plan_range p) plan in
      let validated : (p.sr_gate_bypass ≡ true)
          ⊎ IsValidated p.signal_kind p.sr_proximity_gate_suspended (nearest_level p) =
        elim levels [
          | inl bypass ↦ inl bypass
          | inr passed ↦
              inr (sr_gate_lem p.signal_kind p.sr_proximity_gate_suspended (nearest_level p) passed)
        ] in
      (no_conflict, validated, has_plan, not_blocked)

  assess_generic_never_trips :
      (p : AssessParams D) (mode : RangeMode D) (nearest : Option (SrLevel D))
      → (assess_generic p mode nearest).trip_kill_switch ≡ false
  unfolding assess_generic
  assess_generic_never_trips p mode nearest = ground arith

  assess_assistant_never_trips :
      (p : AssessParams D) (cap : D) (nearest : Option (SrLevel D))
      → (assess_assistant p cap nearest).trip_kill_switch ≡ false
  unfolding assess_assistant
  assess_assistant_never_trips p cap nearest = ground arith

  assess_prices_never_trips :
      (p : AssessParams D) (dollars cap : Option D) (mode : RangeMode D)
      (nearest : Option (SrLevel D))
      → (assess_prices p dollars cap mode nearest).trip_kill_switch ≡ false
  unfolding assess_prices
  assess_prices_never_trips p (some dollars) (some cap) mode nearest =
      assess_assistant_never_trips p cap nearest
  assess_prices_never_trips p (some dollars) none mode nearest =
      assess_generic_never_trips p mode nearest
  assess_prices_never_trips p none cap mode nearest = assess_generic_never_trips p mode nearest

  unless_never_trips :
      (gate : Option AssessReason) (nearest : Option (SrLevel D)) (rest : RiskAssessment D)
      → rest.trip_kill_switch ≡ false
      → (unless gate nearest rest).trip_kill_switch ≡ false
  unfolding unless
  unless_never_trips none nearest rest e = e
  unless_never_trips (some reason) nearest rest e = refl

  -- Whatever the account's losses and streaks, assessing a trade never asks for the kill switch.
  pub assess_new_trade_never_trips :
      (p : AssessParams D) → (assess_new_trade p).trip_kill_switch ≡ false
  unfolding assess_new_trade final_assessment
  assess_new_trade_never_trips p =
      let level = level_of (nearest_level p) in
      let rest = final_assessment p in
      let plan_gate = daily_plan_gate p.requires_daily_plan (daily_plan_range p) in
      let level_gate =
        if p.sr_gate_bypass
        then none
        else sr_gate p.signal_kind p.sr_proximity_gate_suspended (nearest_level p) in
      let fine = unless_never_trips level_gate level (unless plan_gate level rest) (
        unless_never_trips plan_gate level rest (
          assess_prices_never_trips p p.hard_take_profit_dollars p.assistant_take_profit_cap_points
            (daily_plan_range p).mode level)) in
      ground (arith, fine)
