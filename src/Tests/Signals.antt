-- ===== src/Tests/Signals.antt =====
-- Consensus and attempts, on concrete scores.
use tera_trade.Risk.ChartZoneGate.{check_chart_zone}
use tera_trade.Risk.TiltGate.{
  check_tilt_alignment, TiltReading, tilt_max_age_ms, tilt_reading, updated_at,
}
use tera_trade.Execution.Engine.{Decision, skipped_score, taken}
use tera_trade.Number.Fixed.{Fixed, Fixed-IsOrdered, fixed_number}
use tera_trade.Signals.Consensus.{GatedByVersion, GatedScore, determine_consensus}
use tera_trade.Signals.Consensus.Agreed.{IsAgreed, determine_consensus_iff}
use tera_trade.Scoring.SessionPerformance.Best.{
  IsBest, IsColdStart, select_session_best_version-IsBest,
}
use tera_trade.Signals.Consensus.Representative.{
  IsChosen, Takes, determine_consensus-representative, representative_lead,
}
use tera_trade.Signals.Attempt.Gated.{
  IsCleared, IsUntouched, attempt_execution-IsCleared, attempt_execution_live, is_attempt,
}
use tera_trade.Prelude.{
  List, [], false, none, refl, some, true, ℕ, ◌↔◌, ◌∷◌, ◌≡◌, ◌⊎◌, Any, String, ◌+◌, ◌≤◌,
}
use tera_trade.Scoring.SessionPerformance.{
  SessionPerformanceSelection, SessionVersionStats, min_session_samples_per_version,
  select_session_best_version,
}
use tera_trade.Execution.Mode.{StrategyVersion, v1, v2, v3, v5, Gate, live}
use tera_trade.Analytics.Session.{london}
use tera_trade.Prelude.Int.{pos}
use tera_trade.Risk.Engine.{AssessReason, RiskAssessment, generic_plan}
use tera_trade.Signals.Attempt.{
  AttemptParams, Brokers, EntrySettings, Readings, Venue, World, attempt_execution, browser,
}
use tera_trade.Risk.ChartZoneGate.Inside.{Contains, active_zones}
use tera_trade.Brokers.Simulated.{SimulatedBroker}
use tera_trade.Risk.TiltGate.Alignment.{Wins}
use tera_trade.Market.{long, opposite}
use tera_trade.Tests.Data.{whole_points}
use tera_trade.Tests.Gates.{chart, snapshot}
use tera_trade.Tests.Execution.{client, empty_broker, empty_database, settings}

abbrev stats_of : StrategyVersion → ℕ → ℕ → SessionVersionStats Fixed
stats_of version count rate = record {
  version = version;
  resolved_count = count;
  win_rate = pos rate;
}

abbrev session_stats : List (SessionVersionStats Fixed)
session_stats =
    stats_of v1 40 3000 ∷ stats_of v2 25 3200 ∷ stats_of v3 5 9000 ∷ stats_of v5 60 3100 ∷ []

best_is_v2 :
    (select_session_best_version session_stats min_session_samples_per_version).selected_version
    ≡ v2
unfolding select_session_best_version
best_is_v2 = refl

select_session_best_version-IsBest_example :
    let s = select_session_best_version session_stats 20 in
    ((s.cold_start ≡ true) × IsColdStart Fixed-IsOrdered 20 session_stats)
    ⊎ ((s.cold_start ≡ false)
        × ((b : SessionVersionStats Fixed) × (b.version ≡ s.selected_version)
            × IsBest Fixed-IsOrdered 20 session_stats b))
select_session_best_version-IsBest_example =
    select_session_best_version-IsBest Fixed-IsOrdered session_stats 20

abbrev score_of : Decision → ℕ → GatedScore Fixed
score_of decision probability = record { probability = pos probability; decision = decision }

abbrev scores : GatedByVersion Fixed
scores v1 = score_of taken 7000
scores v2 = score_of taken 6800
scores v3 = score_of skipped_score 4000
scores _ = score_of skipped_score 3000

abbrev selection : SessionPerformanceSelection Fixed
selection = record { selected_version = v2; cold_start = false; stats_by_version = session_stats }

consensus_taken : (determine_consensus scores selection london).representative_version ≡ some v2
unfolding determine_consensus
consensus_taken = refl

determine_consensus_iff_example :
    ((determine_consensus scores selection london).taken ≡ true) ↔ IsAgreed scores selection
determine_consensus_iff_example = determine_consensus_iff scores selection london

determine_consensus-representative_example :
    let c = determine_consensus scores selection london in
    ((c.taken ≡ false) × (c.representative_version ≡ none))
    ⊎ ((c.taken ≡ true)
        × ((r : StrategyVersion) × (c.representative_version ≡ some r)
            × IsChosen scores selection r
            × (Takes scores (representative_lead selection) → r ≡ representative_lead selection)))
determine_consensus-representative_example =
    determine_consensus-representative scores selection london

abbrev gate : Gate Fixed
gate = record { row = none; live_broker_connected = true; tradesea_live_broker_connected = false }

abbrev entry_settings : EntrySettings
entry_settings = record {
  mode_settings = settings;
  price_source = browser;
  order_flow_enabled = true;
  tilt_gate_enabled = true;
  chart_zone_gate_enabled = true;
}

abbrev venue : Venue Fixed (SimulatedBroker Fixed)
venue = record { client = client; account_id = "sim-1" }

abbrev brokers : Brokers Fixed (SimulatedBroker Fixed)
brokers = record { simulated_broker = venue; live_broker = some venue }

abbrev readings : Readings Fixed
readings = record { order_flow = snapshot; now_ms = 60_000; chart = chart }

abbrev assessed : RiskAssessment Fixed
assessed = record {
  approved = true;
  quantity = 2;
  stop_price = some (whole_points 4996);
  take_profit_price = some (whole_points 5012);
  trail_ticks = none;
  stop_distance_points = some (whole_points 4);
  reason = generic_plan;
  trip_kill_switch = false;
  nearest_sr_level = none;
  target_sr_level = none;
}

abbrev attempt : AttemptParams Fixed (SimulatedBroker Fixed)
attempt = record {
  consensus = determine_consensus scores selection london;
  assessment = some assessed;
  gated_by_version = scores;
  score_id_by_version = λ version. none;
  mode = live;
  signal = record { strategy_id = "breakout"; symbol = "NQ"; side = long };
  close_price = whole_points 5000;
  entry_price = whole_points 5000;
  broker_override = none;
}

abbrev world : World Fixed (SimulatedBroker Fixed)
world = record { gate = gate; broker_state = empty_broker; database = empty_database }

abbrev no_text : AssessReason → String
no_text reason = ""

-- The attempt places an order.
attempted_live :
    is_attempt (attempt_execution no_text entry_settings readings brokers attempt world).0 ≡ true
unfolding attempt_execution determine_consensus check_tilt_alignment check_chart_zone
attempted_live = refl

attempt_execution-IsCleared_example :
    let o = attempt_execution no_text entry_settings readings brokers attempt world in
    ((is_attempt o.0 ≡ false) × IsUntouched world o.1)
    ⊎ ((is_attempt o.0 ≡ true) × IsCleared entry_settings readings attempt × (o.1.gate ≡ gate))
attempt_execution-IsCleared_example =
    attempt_execution-IsCleared no_text entry_settings readings brokers attempt world

attempt_execution_live_example :
    Any (Contains (whole_points 5000)) (active_zones chart "NQ")
    × ((q : TiltReading Fixed) × (t : ℕ) × (tilt_reading snapshot ≡ some q)
        × (updated_at snapshot ≡ some t)
        × (60_000 ≤ t + tilt_max_age_ms)
        × ¬ Wins q (opposite long))
attempt_execution_live_example =
    attempt_execution_live no_text entry_settings readings brokers attempt world refl refl refl
      attempted_live
