-- ===== src/Execution/Reach.antt =====
-- The states that the trading-mode gate of backend/src/execution/mode.ts can reach: any sequence of its
-- operations from a database without the row. One that throws changes nothing, and is no step.
use tera_trade.Prelude.{◌≡◌, none, Bool, String, List}
use tera_trade.Number.{Number}
use tera_trade.Execution.Mode.{
  TradingMode, StrategyVersion, Settings, Gate, done, ConfidenceTierInput, get_system_state,
  with_row, set_mode, set_tradesea_live_enabled, set_assistant_actions_enabled,
  set_live_broker_connected, set_tradesea_live_broker_connected,
}
use tera_trade.Execution.Mode.Gated.{
  IsGated, get_system_state-with_row, no_row-IsGated, set_mode-IsGated,
  set_tradesea_live_enabled-IsGated, set_assistant_actions_enabled-IsGated,
  set_live_broker_connected-IsGated, set_tradesea_live_broker_connected-IsGated,
}
use tera_trade.Execution.Controls.{
  clear_kill_switch, trip_kill_switch, set_active_strategy_version, set_take_profit_r_multiple,
  set_confidence_tiers,
}
use tera_trade.Execution.Controls.Kept.{
  clear_kill_switch-IsGated, trip_kill_switch-IsGated, set_active_strategy_version-IsGated,
  set_take_profit_r_multiple-IsGated, set_confidence_tiers-IsGated,
}

module _ {D : Type 0} ⦃n : Number D⦄ where
  pub data Step (settings : Settings) : Gate D → Gate D → Type 0 where
    broker_flag : (b : Bool) (g : Gate D) → Step settings g (set_live_broker_connected b g)
    tradesea_flag :
        (b : Bool) (g : Gate D) → Step settings g (set_tradesea_live_broker_connected b g)
    row_read : (g : Gate D) → Step settings g (with_row g (get_system_state settings g))
    mode_set :
        (mode : TradingMode) (g g' : Gate D)
        → set_mode settings mode g ≡ done g'
        → Step settings g g'
    tradesea_set :
        (b : Bool) (g g' : Gate D)
        → set_tradesea_live_enabled settings b g ≡ done g'
        → Step settings g g'
    assistant_set :
        (b : Bool) (g g' : Gate D)
        → set_assistant_actions_enabled settings b g ≡ done g'
        → Step settings g g'
    switch_cleared : (g : Gate D) → Step settings g (clear_kill_switch settings g)
    switch_tripped :
        (reason : String) (g : Gate D) → Step settings g (trip_kill_switch settings reason g)
    version_set :
        (v : StrategyVersion) (g : Gate D)
        → Step settings g (set_active_strategy_version settings v g)
    multiple_set :
        (x : D) (g g' : Gate D)
        → set_take_profit_r_multiple settings x g ≡ done g'
        → Step settings g g'
    tiers_set :
        (ts : List (ConfidenceTierInput D)) (g g' : Gate D)
        → set_confidence_tiers settings ts g ≡ done g'
        → Step settings g g'

  pub data IsReachable (settings : Settings) : Gate D → Type 0 where
    started : (g : Gate D) → g.row ≡ none → IsReachable settings g
    stepped :
        (g g' : Gate D) → IsReachable settings g → Step settings g g' → IsReachable settings g'

  Step-IsGated :
      (settings : Settings) {g g' : Gate D}
      → IsGated settings g
      → Step settings g g'
      → IsGated settings g'
  Step-IsGated settings h (broker_flag b g) = set_live_broker_connected-IsGated settings b g h
  Step-IsGated settings h (tradesea_flag b g) =
      set_tradesea_live_broker_connected-IsGated settings b g h
  Step-IsGated settings h (row_read g) = rw get_system_state-with_row h
  Step-IsGated settings h (mode_set mode g g' e) = set_mode-IsGated settings mode g g' h e
  Step-IsGated settings h (tradesea_set b g g' e) =
      set_tradesea_live_enabled-IsGated settings b g g' h e
  Step-IsGated settings h (assistant_set b g g' e) =
      set_assistant_actions_enabled-IsGated settings b g g' h e
  Step-IsGated settings h (switch_cleared g) = clear_kill_switch-IsGated settings g h
  Step-IsGated settings h (switch_tripped reason g) = trip_kill_switch-IsGated settings reason g h
  Step-IsGated settings h (version_set v g) = set_active_strategy_version-IsGated settings v g h
  Step-IsGated settings h (multiple_set x g g' e) =
      set_take_profit_r_multiple-IsGated settings x g g' h e
  Step-IsGated settings h (tiers_set ts g g' e) = set_confidence_tiers-IsGated settings ts g g' h e

  -- In every state that the operations reach from a database without the row, LIVE mode means that the
  -- settings confirm live trading, or name LIVE as the mode to start in; Tradesea is enabled for live
  -- trading, and the assistant for actions, only with all of their own settings.
  pub IsReachable-IsGated :
      (settings : Settings) (g : Gate D) → IsReachable settings g → IsGated settings g
  IsReachable-IsGated settings g (started fresh e) = no_row-IsGated settings fresh e
  IsReachable-IsGated settings g (stepped before after reach step) =
      Step-IsGated settings (IsReachable-IsGated settings before reach) step
