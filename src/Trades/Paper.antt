-- ===== src/Trades/Paper.antt =====
-- backend/src/engine/loop.ts: `manageSimulatedOpenTrade`, one tick of an open paper trade. The id of the
-- simulated broker's account is an argument.
pub mod Exit
use tera_trade.Prelude.{
  Bool, List, Option, String, false, get_or, if◌then◌else◌, none, some, ℕ, ◌&&◌,
}
use tera_trade.Trades.Rows.{
  ExitReason, InstrumentSpec, LiveOps, TradeRow, TradeWorld, by_stop, by_target, update_trade,
}
use tera_trade.Brokers.Simulated.{
  Key, SimulatedBroker, close_position, get_bracket_stop_price, update_trailing_stop,
}
use tera_trade.Number.{Number, gte, lte}
use tera_trade.Market.{Side, long, short}
use tera_trade.Trades.Close.{close_trade}

module _ {D : Type 0} where
  -- The simulated broker as `closeTrade` sees it: it has none of the optional operations.
  abbrev pub sim_ops : LiveOps D (SimulatedBroker D)
  sim_ops = record {
    is_position_flat = λ symbol b. (none, b);
    cancel_resting_order = none;
    place_trailing_stop = λ symbol side quantity ticks b. (false, b);
    place_take_profit_order = λ symbol side quantity price b. (false, b);
    request_close_position = λ symbol b. (false, b);
    flatten_position = λ symbol side quantity b. (false, b);
    read_open_position_entry_price = λ symbol b. (none, b);
    read_closed_trade_history = λ symbol b. (none, b);
  }

module _ {D : Type 0} ⦃n : Number D⦄ where
  -- `a.eq(b)`
  abbrev same_price : D → D → Bool
  same_price a b = lte a b && lte b a

  pub reaches_stop : Side → D → D → D → Bool
  reaches_stop long stop_price high low = lte low stop_price
  reaches_stop short stop_price high low = gte high stop_price

  pub reaches_target : Side → Option D → D → D → Bool
  reaches_target side none high low = false
  reaches_target long (some target) high low = gte high target
  reaches_target short (some target) high low = lte low target

  with_stop : D → TradeRow D → TradeRow D
  with_stop stop_price row = record row { stop_price = stop_price }

  -- The row's stop_price follows the broker's, where the broker has one.
  pub sync_stop : Option D → TradeRow D → List (TradeRow D) → List (TradeRow D)
  unfolding with_stop
  sync_stop none trade trades = trades
  sync_stop (some broker_stop) trade trades =
      if same_price broker_stop trade.stop_price
      then trades
      else update_trade trade.id (with_stop broker_stop) trades

  close_paper :
      InstrumentSpec D
      → Key
      → ℕ
      → TradeRow D
      → ℕ
      → D
      → ExitReason
      → TradeWorld D (SimulatedBroker D)
      → TradeWorld D (SimulatedBroker D)
  close_paper instrument key account trade bar_time exit_price reason w =
      close_trade sim_ops false instrument account
        (record {
          trade_id = trade.id;
          symbol = trade.symbol;
          exit_time = bar_time;
          exit_price = exit_price;
          exit_reason = reason;
          custom_tag = none;
        })
        (record w { broker_state = (close_position key exit_price w.broker_state).1 })

  -- The exits, the stop_price before the target.
  exit_paper :
      InstrumentSpec D
      → Key
      → ℕ
      → TradeRow D
      → ℕ
      → D
      → D
      → D
      → TradeWorld D (SimulatedBroker D)
      → TradeWorld D (SimulatedBroker D)
  unfolding close_paper reaches_stop reaches_target
  exit_paper instrument key account trade bar_time stop_price high low w =
      if reaches_stop trade.side stop_price high low
      then close_paper instrument key account trade bar_time stop_price by_stop w
      else if reaches_target trade.side trade.take_profit_price high low
      then close_paper instrument key account trade bar_time
          (get_or trade.take_profit_price stop_price) by_target w
      else w

  unfoldable pub manage_simulated_open_trade :
      InstrumentSpec D
      → String
      → ℕ
      → TradeRow D
      → ℕ
      → D
      → D
      → D
      → TradeWorld D (SimulatedBroker D)
      → TradeWorld D (SimulatedBroker D)
  unfolding exit_paper sync_stop
  manage_simulated_open_trade instrument account_id account trade bar_time high low close w =
      let key : Key = (account_id, trade.symbol) in
      let trailed = update_trailing_stop key close w.broker_state in
      let broker_stop = get_bracket_stop_price key trailed in
      exit_paper instrument key account trade bar_time (get_or broker_stop trade.stop_price) high
        low (record w { broker_state = trailed; trades = sync_stop broker_stop trade w.trades })
