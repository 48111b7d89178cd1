-- ===== src/Execution/Mode.antt =====
-- backend/src/execution/mode.ts: the trading-mode gate. The row of `system_state` and the two flags of
-- connected brokers are one state; the environment's settings are an argument. Texts are left out.
pub mod Gated
use tera_trade.Prelude.{
  ℕ, Bool, true, false, not, ◌&&◌, if◌then◌else◌, Option, none, some, get_or, String, List, [], ◌∷◌,
}
use tera_trade.Number.{Number, lte, gte, lt, gt, of_nat, whole, decimal}

pub data TradingMode : Type 0 where
  analysis_only paper live : TradingMode

pub data StrategyVersion : Type 0 where
  v1 v2 v3 v4 v5 v6 v7 : StrategyVersion

pub data ModeChangeError : Type 0 where
  no_live_broker live_not_confirmed : ModeChangeError
  tradesea_not_enabled no_tradesea_broker tradesea_not_confirmed : ModeChangeError
  assistant_not_enabled no_gemini_key assistant_not_confirmed : ModeChangeError
  multiple_not_positive threshold_out_of_range quantity_not_positive not_ascending : ModeChangeError

-- A value, or the thrown `ModeChangeError`.
pub data Outcome (A : Type 0) : Type 0 where
  done : A → Outcome A
  refused : ModeChangeError → Outcome A

-- The settings that the gate reads.
pub record Settings : Type 0 where
  pub trading_mode : TradingMode
  pub live_trading_confirmed : Bool
  pub tradesea_enabled : Bool
  pub tradesea_live_trading_confirmed : Bool
  pub assistant_enabled : Bool
  pub has_gemini_api_key : Bool
  pub assistant_actions_confirmed : Bool

pub record ConfidenceTierInput (D : Type 0) : Type 0 where
  pub threshold : D
  pub quantity : D

pub record SystemState (D : Type 0) : Type 0 where
  pub mode : TradingMode
  pub kill_switch : Bool
  pub kill_switch_reason : Option String
  pub active_strategy_version : StrategyVersion
  pub take_profit_r_multiple : D
  pub confidence_tiers : List (ConfidenceTierInput D)
  pub tradesea_live_enabled : Bool
  pub assistant_actions_enabled : Bool

-- The row, `none` before it is created, and the module's two flags.
pub record Gate (D : Type 0) : Type 0 where
  pub row : Option (SystemState D)
  pub live_broker_connected : Bool
  pub tradesea_live_broker_connected : Bool

pub assistant_guard : Settings → Bool → Option ModeChangeError
assistant_guard settings enabled =
    if not enabled
    then none
    else if not settings.assistant_enabled
    then some assistant_not_enabled
    else if not settings.has_gemini_api_key
    then some no_gemini_key
    else if not settings.assistant_actions_confirmed
    then some assistant_not_confirmed
    else none

module _ {D : Type 0} ⦃n : Number D⦄ where
  -- The row as it is created: the mode of the settings, and the columns' defaults of schema.prisma.
  pub created_row : Settings → SystemState D
  created_row settings = record {
    mode = settings.trading_mode;
    kill_switch = false;
    kill_switch_reason = none;
    active_strategy_version = v1;
    take_profit_r_multiple = decimal 30 1;
    confidence_tiers =
        record { threshold = decimal 65 2; quantity = of_nat 1 }
        ∷ record { threshold = decimal 75 2; quantity = of_nat 2 }
        ∷ record { threshold = decimal 85 2; quantity = of_nat 3 }
        ∷ [];
    tradesea_live_enabled = false;
    assistant_actions_enabled = false;
  }

  unfoldable pub get_system_state : Settings → Gate D → SystemState D
  unfolding created_row
  get_system_state settings g = get_or g.row (created_row settings)

  -- `prisma.systemState.update`
  pub with_row : Gate D → SystemState D → Gate D
  with_row g r = record g { row = some r }

  pub set_live_broker_connected : Bool → Gate D → Gate D
  set_live_broker_connected connected g = record g { live_broker_connected = connected }

  pub set_tradesea_live_broker_connected : Bool → Gate D → Gate D
  set_tradesea_live_broker_connected connected g = record g {
    tradesea_live_broker_connected = connected;
  }

  write_mode : TradingMode → SystemState D → SystemState D
  write_mode mode r = record r { mode = mode }

  pub mode_guard : Settings → TradingMode → Gate D → Option ModeChangeError
  mode_guard settings live g =
      if not g.live_broker_connected
      then some no_live_broker
      else if not settings.live_trading_confirmed
      then some live_not_confirmed
      else none
  mode_guard settings _ g = none

  -- A throw, or the row with one column written.
  guarded : Option ModeChangeError → Gate D → SystemState D → Outcome (Gate D)
  unfolding with_row
  guarded (some e) g r = refused e
  guarded none g r = done (with_row g r)

  unfoldable pub set_mode : Settings → TradingMode → Gate D → Outcome (Gate D)
  unfolding guarded mode_guard write_mode get_system_state
  set_mode settings mode g =
      guarded (mode_guard settings mode g) g (write_mode mode (get_system_state settings g))

  write_tradesea : Bool → SystemState D → SystemState D
  write_tradesea enabled r = record r { tradesea_live_enabled = enabled }

  pub tradesea_guard : Settings → Bool → Gate D → Option ModeChangeError
  tradesea_guard settings enabled g =
      if not enabled
      then none
      else if not settings.tradesea_enabled
      then some tradesea_not_enabled
      else if not g.tradesea_live_broker_connected
      then some no_tradesea_broker
      else if not settings.tradesea_live_trading_confirmed
      then some tradesea_not_confirmed
      else none

  unfoldable pub set_tradesea_live_enabled : Settings → Bool → Gate D → Outcome (Gate D)
  unfolding guarded tradesea_guard write_tradesea get_system_state
  set_tradesea_live_enabled settings enabled g =
      guarded (tradesea_guard settings enabled g) g
        (write_tradesea enabled (get_system_state settings g))

  write_assistant : Bool → SystemState D → SystemState D
  write_assistant enabled r = record r { assistant_actions_enabled = enabled }

  unfoldable pub set_assistant_actions_enabled : Settings → Bool → Gate D → Outcome (Gate D)
  unfolding guarded assistant_guard write_assistant get_system_state
  set_assistant_actions_enabled settings enabled g =
      guarded (assistant_guard settings enabled) g
        (write_assistant enabled (get_system_state settings g))
