-- ===== src/Tests/Execution.antt =====
-- Orders of the simulated broker, and the switches of the trading-mode gate.
use mathlib.Core.List.{Perm}
use tera_trade.Prelude.{inr, ◌≡◌, ◌≢◌, refl, true, false, ℕ, some, none, [], ◌∷◌, All, Bool}
use tera_trade.Prelude.Int.{pos}
use tera_trade.Number.Fixed.{Fixed, fixed_number, Fixed-IsOrdered}
use tera_trade.Market.{long}
use tera_trade.Tests.Data.{params, whole_points}
use tera_trade.Brokers.Types.{BrokerClient, buy}
use tera_trade.Brokers.Simulated.{SimulatedBroker, SimBracket, Key, get, place_order}
use tera_trade.Brokers.Simulated.Trailing.{
  update_trailing_stop-IsNoLooser, after_prices, IsNoLooser,
}
use tera_trade.Execution.Mode.{
  TradingMode, live, paper, analysis_only, Settings, Gate, ConfidenceTierInput, done, set_mode,
  set_tradesea_live_enabled, set_assistant_actions_enabled, get_system_state,
}
use tera_trade.Execution.Mode.Gated.{IsGated, set_mode_live_iff}
use tera_trade.Execution.Controls.{validate_confidence_tier_inputs}
use tera_trade.Execution.Controls.Ladder.{
  validate_confidence_tier_inputs-IsSound, IsSound, IsAscending,
}
use tera_trade.Execution.Reach.{started, stepped, mode_set, IsReachable-IsGated}
use tera_trade.Execution.Engine.{
  Setup, Database, taken, Reason, not_executed, missing_stop, execute_if_approved,
}
use tera_trade.Execution.Engine.Guards.{execute_if_approved_held_back}
use tera_trade.Execution.Engine.Covered.{execute_if_approved_covered}
use tera_trade.Risk.Engine.{assess_new_trade}

-- The simulated broker as the execution engine sees it: it has no reads of the account.
abbrev pub client : BrokerClient Fixed (SimulatedBroker Fixed)
client = record {
  place_order = place_order;
  is_position_flat = λ symbol b. (none, b);
  cancel_resting_order = λ symbol b. b;
}

abbrev pub empty_broker : SimulatedBroker Fixed
empty_broker = record { next_order_id = 1; positions = []; brackets = []; orders = [] }

abbrev pub empty_database : Database Fixed
empty_database = record { next_trade_id = 1; trades = []; order_records = []; score_links = [] }

abbrev setup_in : TradingMode → Setup Fixed
setup_in mode = record {
  mode = mode;
  broker_account_id = "sim-1";
  signal = record { strategy_id = "breakout"; symbol = "NQ"; side = long };
  decision = taken;
  assessment = assess_new_trade params;
  entry_price = whole_points 5000;
  score_id = some 7;
}

execute_if_approved_held_back_example :
    let o = execute_if_approved client (setup_in analysis_only) empty_broker empty_database in
    (o.broker_state ≡ empty_broker)
    × (o.database ≡ empty_database)
    × ((r : Reason) × (o.result ≡ not_executed r))
execute_if_approved_held_back_example =
    execute_if_approved_held_back client (setup_in analysis_only) empty_broker empty_database
      (inr (inr refl))

execute_if_approved_covered_example :
    (execute_if_approved client (setup_in paper) empty_broker empty_database).result ≢ missing_stop
execute_if_approved_covered_example =
    execute_if_approved_covered client (setup_in paper) empty_broker empty_database params refl

abbrev bracket : SimBracket Fixed
bracket = record {
  side = buy;
  quantity = 2;
  entry_price = whole_points 5000;
  stop_price = whole_points 4996;
  take_profit_price = some (whole_points 5012);
  trail_ticks = some 20;
  tick_size = pos 2500;
  highest_favorable = whole_points 5000;
}

abbrev key : Key
key = ("sim-1", "NQ")

abbrev open_broker : SimulatedBroker Fixed
open_broker = record {
  next_order_id = 2;
  positions = [];
  brackets = (key, bracket) ∷ [];
  orders = [];
}

bracket_found : get key open_broker.brackets ≡ some bracket
unfolding get
bracket_found = refl

update_trailing_stop-IsNoLooser_example :
    (w : SimBracket Fixed) × (get key
        (after_prices key (whole_points 5006 ∷ whole_points 5002 ∷ []) open_broker).brackets
      ≡ some w)
    × (w.side ≡ buy)
    × IsNoLooser buy (whole_points 4996) w.stop_price
update_trailing_stop-IsNoLooser_example =
    update_trailing_stop-IsNoLooser Fixed-IsOrdered key (whole_points 5006 ∷ whole_points 5002 ∷ [])
      open_broker bracket_found

abbrev pub settings : Settings
settings = record {
  trading_mode = analysis_only;
  live_trading_confirmed = true;
  tradesea_enabled = true;
  tradesea_live_trading_confirmed = true;
  assistant_enabled = true;
  has_gemini_api_key = true;
  assistant_actions_confirmed = true;
}

abbrev connected : Gate Fixed
connected = record {
  row = none;
  live_broker_connected = true;
  tradesea_live_broker_connected = true;
}

went_live : (g : Gate Fixed) × (set_mode settings live connected ≡ done g)
went_live = (set_mode_live_iff settings connected).1 (refl, refl)

IsReachable-IsGated_example : IsGated settings went_live.0
IsReachable-IsGated_example = IsReachable-IsGated settings went_live.0 (
    stepped connected went_live.0 (started connected refl)
      (mode_set live connected went_live.0 went_live.1))

abbrev with_mode : TradingMode → Bool → Bool → Gate Fixed
with_mode mode tradesea assistant = record connected {
  row = some (record (get_system_state settings connected) {
    mode = mode;
    tradesea_live_enabled = tradesea;
    assistant_actions_enabled = assistant;
  });
}

mode_changed : set_mode settings paper connected ≡ done (with_mode paper false false)
unfolding set_mode
mode_changed = refl

tradesea_changed :
    set_tradesea_live_enabled settings true connected ≡ done (with_mode analysis_only true false)
unfolding set_tradesea_live_enabled
tradesea_changed = refl

assistant_changed :
    set_assistant_actions_enabled settings true connected
    ≡ done (with_mode analysis_only false true)
unfolding set_assistant_actions_enabled
assistant_changed = refl

abbrev input : ℕ → ℕ → ConfidenceTierInput Fixed
input threshold quantity = record { threshold = pos threshold; quantity = whole_points quantity }

inputs_accepted :
    validate_confidence_tier_inputs (input 8000 3 ∷ input 6000 1 ∷ input 7000 2 ∷ [])
    ≡ done (input 6000 1 ∷ input 7000 2 ∷ input 8000 3 ∷ [])
unfolding validate_confidence_tier_inputs
inputs_accepted = refl

validate_confidence_tier_inputs-IsSound_example :
    Perm
      (input 8000 3 ∷ input 6000 1 ∷ input 7000 2 ∷ [])
      (input 6000 1 ∷ input 7000 2 ∷ input 8000 3 ∷ [])
    × All IsSound (input 6000 1 ∷ input 7000 2 ∷ input 8000 3 ∷ [])
    × IsAscending (input 6000 1 ∷ input 7000 2 ∷ input 8000 3 ∷ [])
validate_confidence_tier_inputs-IsSound_example =
    validate_confidence_tier_inputs-IsSound (input 8000 3 ∷ input 6000 1 ∷ input 7000 2 ∷ [])
      (input 6000 1 ∷ input 7000 2 ∷ input 8000 3 ∷ []) inputs_accepted
