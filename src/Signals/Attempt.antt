-- ===== src/Signals/Attempt.antt =====
-- backend/src/engine/loop.ts: `attemptExecution`, from a consensus to an order. What the method awaits
-- is an argument: the order-flow snapshot, the clock, the read of the chart, and the text of a reason.
-- Logs, events and the shadow agent are left out, and all brokers share one state.
pub mod Gated
use tera_trade.Risk.Engine.{AssessReason, RiskAssessment}
use tera_trade.Prelude.{
  Bool, Option, String, false, if◌then◌else◌, none, not, some, true, ℕ, ◌&&◌, ◌||◌,
}
use tera_trade.Brokers.Types.{BrokerClient}
use tera_trade.Risk.ChartZoneGate.{ChartZoneRead, check_chart_zone}
use tera_trade.Signals.Consensus.{ConsensusDecision, GatedByVersion}
use tera_trade.Execution.Engine.{Database, ExecutionResult, Setup, Signal, execute_if_approved}
use tera_trade.Execution.Mode.{Gate, Settings, StrategyVersion, TradingMode, live}
use tera_trade.Number.{Number}
use tera_trade.Risk.TiltGate.{OrderFlowSnapshot, check_tilt_alignment}
use tera_trade.Risk.CircuitBreakers.{}
use tera_trade.Scoring.Bandit.{}
use tera_trade.Execution.Controls.{trip_kill_switch}

pub data PriceSource : Type 0 where
  yahoo browser : PriceSource

abbrev is_browser : PriceSource → Bool
is_browser yahoo = false
is_browser browser = true

abbrev is_live : TradingMode → Bool
is_live live = true
is_live _ = false

-- The settings that the gates read, and the two switches of the module.
pub record EntrySettings : Type 0 where
  pub mode_settings : Settings
  pub price_source : PriceSource
  pub order_flow_enabled : Bool
  pub tilt_gate_enabled : Bool
  pub chart_zone_gate_enabled : Bool

-- A broker with the id of its first account.
pub record Venue (D B : Type 0) : Type 0 where
  pub client : BrokerClient D B
  pub account_id : String

-- The two brokers that `brokerForMode` chooses from.
pub record Brokers (D B : Type 0) : Type 0 where
  pub simulated_broker : Venue D B
  pub live_broker : Option (Venue D B)

-- What the method awaits of the outside.
pub record Readings (D : Type 0) : Type 0 where
  pub order_flow : Option (OrderFlowSnapshot D)
  pub now_ms : ℕ
  pub chart : ChartZoneRead D

pub record AttemptParams (D B : Type 0) : Type 0 where
  pub consensus : ConsensusDecision D
  pub assessment : Option (RiskAssessment D)
  pub gated_by_version : GatedByVersion D
  pub score_id_by_version : StrategyVersion → Option ℕ
  pub mode : TradingMode
  pub signal : Signal
  pub close_price : D
  pub entry_price : D
  pub broker_override : Option (Venue D B)

-- The trading-mode gate, the state of the brokers, and the trades.
pub record World (D B : Type 0) : Type 0 where
  pub gate : Gate D
  pub broker_state : B
  pub database : Database D

-- The outcomes; `attempted` is `executed`, with what `executeIfApproved` returns, and `no_live_broker`
-- is the error that `brokerForMode` throws.
pub data AttemptOutcome : Type 0 where
  consensus_not_reached risk_rejected kill_switch no_live_broker : AttemptOutcome
  attempted : ExecutionResult → AttemptOutcome

module _ {D B : Type 0} where
  pub broker_for_mode : Brokers D B → TradingMode → Option (Venue D B)
  broker_for_mode brokers live = brokers.live_broker
  broker_for_mode brokers _ = some brokers.simulated_broker

  -- `brokerOverride ?? this.brokerForMode(mode)`
  pub broker_of : Brokers D B → AttemptParams D B → Option (Venue D B)
  unfolding broker_for_mode
  broker_of brokers p = elim p.broker_override [
    | some venue ↦ some venue
    | none ↦ broker_for_mode brokers p.mode
  ]

-- Whether the two gates of the browser apply.
pub tilt_gate_applies : EntrySettings → TradingMode → Bool
tilt_gate_applies s mode =
    s.tilt_gate_enabled && (is_live mode || (is_browser s.price_source && s.order_flow_enabled))

pub chart_gate_applies : EntrySettings → TradingMode → Bool
chart_gate_applies s mode = s.chart_zone_gate_enabled && (is_live mode || is_browser s.price_source)

module _ {D B : Type 0} ⦃n : Number D⦄ where
  pub tilt_blocks : EntrySettings → Readings D → AttemptParams D B → Bool
  unfolding tilt_gate_applies
  tilt_blocks s r p =
      tilt_gate_applies s p.mode
      && not (check_tilt_alignment r.order_flow p.signal.side r.now_ms).allowed

  pub chart_blocks : EntrySettings → Readings D → AttemptParams D B → Bool
  unfolding chart_gate_applies
  chart_blocks s r p =
      chart_gate_applies s p.mode
      && not (check_chart_zone r.chart p.signal.symbol p.close_price).allowed

  -- The arguments of `executeIfApproved`.
  pub setup_of : AttemptParams D B → StrategyVersion → RiskAssessment D → Venue D B → Setup D
  setup_of p version assessment venue = record {
    mode = p.mode;
    broker_account_id = venue.account_id;
    signal = p.signal;
    decision = (p.gated_by_version version).decision;
    assessment = assessment;
    entry_price = p.entry_price;
    score_id = p.score_id_by_version version;
  }

  place_entry :
      AttemptParams D B
      → StrategyVersion
      → RiskAssessment D
      → Option (Venue D B)
      → World D B
      → AttemptOutcome × World D B
  unfolding setup_of
  place_entry p version assessment none w = (no_live_broker, w)
  place_entry p version assessment (some venue) w =
      let o =
        execute_if_approved venue.client (setup_of p version assessment venue) w.broker_state
          w.database in
      (attempted o.result, record w { broker_state = o.broker_state; database = o.database })

  module _ (reason_text : AssessReason → String) where
    -- After a consensus with an assessment.
    attempt_assessed :
        EntrySettings
        → Readings D
        → Brokers D B
        → AttemptParams D B
        → StrategyVersion
        → RiskAssessment D
        → World D B
        → AttemptOutcome × World D B
    unfolding tilt_blocks chart_blocks place_entry broker_of
    attempt_assessed s r brokers p version assessment w =
        if assessment.trip_kill_switch
        then (
          kill_switch,
          record w {
            gate = trip_kill_switch s.mode_settings (reason_text assessment.reason) w.gate;
          },
        )
        else if not assessment.approved
        then (risk_rejected, w)
        else if tilt_blocks s r p
        then (risk_rejected, w)
        else if chart_blocks s r p
        then (risk_rejected, w)
        else place_entry p version assessment (broker_of brokers p) w

    attempt_represented :
        EntrySettings
        → Readings D
        → Brokers D B
        → AttemptParams D B
        → Option StrategyVersion
        → Option (RiskAssessment D)
        → World D B
        → AttemptOutcome × World D B
    unfolding attempt_assessed
    attempt_represented s r brokers p (some version) (some assessment) w =
        attempt_assessed s r brokers p version assessment w
    attempt_represented s r brokers p _ _ w = (consensus_not_reached, w)

    unfoldable pub attempt_execution :
        EntrySettings
        → Readings D
        → Brokers D B
        → AttemptParams D B
        → World D B
        → AttemptOutcome × World D B
    unfolding attempt_represented
    attempt_execution s r brokers p w =
        if not p.consensus.taken
        then (consensus_not_reached, w)
        else attempt_represented s r brokers p p.consensus.representative_version p.assessment w
