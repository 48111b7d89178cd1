-- ===== src/Trades/Live.antt =====
-- backend/src/engine/loop.ts: `manageLiveOpenTrade`, one tick of an open live trade. The broker of the
-- trade, its instrument, the ATR, the clock and the read of the chart are arguments.
pub mod Exits
pub mod Flat
pub mod Glitch
use tera_trade.Prelude.{
  Bool, Option, false, get_or, if◌then◌else◌, none, not, some, true, ℕ, ◌&&◌, ◌||◌,
}
use tera_trade.Risk.ChartZoneGate.{ChartZoneRead, check_chart_zone, read_failed, read_ok}
use tera_trade.Trades.Rows.{
  CloseTag, ExitReason, InstrumentSpec, LiveOps, TradeRow, TradeWorld, by_stop, by_target,
  by_trailing_stop, closed_red_outside_chart_box, estimated_from_bracket,
  estimated_from_take_profit_order, estimated_from_trailing_stop, forced_after_bracket_failure,
  forced_close_via_opposite_order, update_trade,
}
use tera_trade.Number.{Number, divided_by, gt, gte, lt, lte, of_nat, plus}
use tera_trade.Market.{Side, is_long}
use tera_trade.Trades.Protect.{activate_take_profit_order, activate_trailing_stop}
use tera_trade.Trades.Close.{close_trade, reconcile_broker_flat_trade}
use tera_trade.Risk.Brackets.{has_reached_trailing_stop_activation}
use tera_trade.Trades.Reanchor.{maybe_reanchor_to_real_entry}

pub record TickContext (D B : Type 0) : Type 0 where
  pub ops : LiveOps D B
  pub instrument : InstrumentSpec D
  pub account : ℕ
  pub atr_value : Option D
  pub now : ℕ
  pub chart_gate_enabled : Bool
  pub chart : ChartZoneRead D
  pub bar_time : ℕ
  pub high : D
  pub low : D

-- What the tick knows of the trade when it decides on an exit.
pub record ExitState (D : Type 0) : Type 0 where
  pub stop_level : D
  pub trailing_placed : Bool
  pub target_placed : Bool
  pub closing_red : Bool

is_read_ok : {D : Type 0} → ChartZoneRead D → Bool
is_read_ok (read_ok zones charted) = true
is_read_ok (read_failed error) = false

-- `answer === true`
abbrev pub confirmed : Option Bool → Bool
confirmed none = false
confirmed (some b) = b

module _ {D : Type 0} ⦃n : Number D⦄ where
  abbrev pub mark_price : D → D → D
  mark_price high low = divided_by (plus high low) (of_nat 2)

  pub crosses_stop : Side → D → D → D → Bool
  crosses_stop side level high low = if is_long side then lte low level else gte high level

  pub crosses_target : Side → Option D → D → D → Bool
  crosses_target side none high low = false
  crosses_target side (some target) high low =
      if is_long side then gte high target else lte low target

module _ {D : Type 0} where
  with_stop_level : D → TradeRow D → TradeRow D
  with_stop_level level row = record row { stop_price = level }

module _ {D B : Type 0} ⦃n : Number D⦄ where
  close_live :
      TickContext D B → TradeRow D → D → ExitReason → CloseTag → TradeWorld D B → TradeWorld D B
  close_live x trade exit_price reason tag w =
      close_trade x.ops true x.instrument x.account
        (record {
          trade_id = trade.id;
          symbol = trade.symbol;
          exit_time = x.bar_time;
          exit_price = exit_price;
          exit_reason = reason;
          custom_tag = some tag;
        })
        w

  -- The trailing stop, where it is due and not placed yet.
  pub arm_trailing : TickContext D B → TradeRow D → TradeWorld D B → Bool × TradeWorld D B
  arm_trailing x trade w =
      if not trade.trailing_stop_placed
        && has_reached_trailing_stop_activation trade.entry_price trade.stop_price trade.side x.high
            x.low trade.take_profit_price
      then activate_trailing_stop x.ops x.instrument x.atr_value trade w
      else (trade.trailing_stop_placed, w)

  pub place_target :
      TickContext D B → TradeRow D → Option D → TradeWorld D B → Bool × TradeWorld D B
  place_target x trade none w = (trade.take_profit_order_placed, w)
  place_target x trade (some target) w =
      if not trade.take_profit_order_placed && not trade.let_it_ride
      then activate_take_profit_order x.ops trade target w
      else (trade.take_profit_order_placed, w)

  -- The broker reports no position: the row is closed by what was resting.
  pub sync_flat :
      TickContext D B → TradeRow D → Bool → Bool → Option D → TradeWorld D B → TradeWorld D B
  unfolding close_live
  sync_flat x trade true target_placed target w =
      close_live x trade (if is_long trade.side then x.low else x.high) by_trailing_stop
        estimated_from_trailing_stop w
  sync_flat x trade false true (some target) w =
      close_live x trade target by_target estimated_from_take_profit_order w
  sync_flat x trade false _ _ w = reconcile_broker_flat_trade x.ops x.now trade w

  -- Outside every rectangle of the chart that was read.
  is_outside_box : TickContext D B → TradeRow D → Bool
  unfolding is_read_ok
  is_outside_box x trade =
      x.chart_gate_enabled
      && (is_read_ok x.chart
          && not (check_chart_zone x.chart trade.symbol (mark_price x.high x.low)).allowed)

  is_green : TickContext D B → TradeRow D → Bool
  is_green x trade =
      if is_long trade.side
      then gte (mark_price x.high x.low) trade.entry_price
      else lte (mark_price x.high x.low) trade.entry_price

  -- The stop of a trade in profit moves to its entry, if it is worse.
  to_breakeven : TradeRow D → TradeWorld D B → D × TradeWorld D B
  unfolding with_stop_level
  to_breakeven trade w =
      if (if is_long trade.side
        then lt trade.stop_price trade.entry_price
        else gt trade.stop_price trade.entry_price)
      then (
        trade.entry_price,
        record w { trades = update_trade trade.id (with_stop_level trade.entry_price) w.trades },
      )
      else (trade.stop_price, w)

  -- The rule of the chart's rectangles.
  box_exit :
      TickContext D B → TradeRow D → Bool → Bool → TradeWorld D B → ExitState D × TradeWorld D B
  unfolding is_outside_box is_green to_breakeven
  box_exit x trade trailing_placed target_placed w =
      let unchanged : ExitState D = record {
        stop_level = trade.stop_price;
        trailing_placed = trailing_placed;
        target_placed = target_placed;
        closing_red = false;
      } in
      let (level, moved) = to_breakeven trade w in
      let (armed, after) = activate_trailing_stop x.ops x.instrument x.atr_value trade moved in
      if not (is_outside_box x trade)
      then (unchanged, w)
      else if not (is_green x trade)
      then (record unchanged { closing_red = true }, w)
      else if trailing_placed
      then (unchanged, w)
      else (record unchanged { stop_level = level; trailing_placed = armed }, after)

  hits_stop_of : TickContext D B → TradeRow D → ExitState D → Bool
  unfolding crosses_stop
  hits_stop_of x trade s =
      s.closing_red || (not s.trailing_placed && crosses_stop trade.side s.stop_level x.high x.low)

  hits_target_of : TickContext D B → TradeRow D → ExitState D → Bool
  unfolding crosses_target
  hits_target_of x trade s =
      not trade.let_it_ride
      && (not s.target_placed && crosses_target trade.side trade.take_profit_price x.high x.low)

  exit_price_of : TickContext D B → TradeRow D → ExitState D → D
  unfolding hits_stop_of
  exit_price_of x trade s =
      if s.closing_red
      then mark_price x.high x.low
      else if hits_stop_of x trade s
      then s.stop_level
      else get_or trade.take_profit_price s.stop_level

  -- The close that the program forces: the position's close button, and an opposite order after that
  -- failed and the position is not confirmed flat.
  force_close :
      TickContext D B → TradeRow D → ExitState D → D → ExitReason → TradeWorld D B → TradeWorld D B
  unfolding close_live
  force_close x trade s price reason w =
      let tag =
        if s.closing_red then closed_red_outside_chart_box else forced_after_bracket_failure in
      let (closed, requested) = x.ops.request_close_position trade.symbol w.broker_state in
      let (flat, polled) = x.ops.is_position_flat trade.symbol requested in
      let (flattened, after) =
        x.ops.flatten_position trade.symbol trade.side trade.quantity polled in
      if closed
      then close_live x trade price reason tag (record w { broker_state = requested })
      else if confirmed flat
      then close_live x trade price reason estimated_from_bracket
          (record w { broker_state = polled })
      else if flattened
      then close_live x trade price reason forced_close_via_opposite_order
          (record w { broker_state = after })
      else record w { broker_state = after }

  -- An exit, after the position is read once more.
  exit_live : TickContext D B → TradeRow D → ExitState D → TradeWorld D B → TradeWorld D B
  unfolding force_close exit_price_of hits_stop_of hits_target_of close_live
  exit_live x trade s w =
      let reason = if hits_stop_of x trade s then by_stop else by_target in
      let price = exit_price_of x trade s in
      let (flat, polled) = x.ops.is_position_flat trade.symbol w.broker_state in
      let here : TradeWorld D B = record w { broker_state = polled } in
      if not (hits_stop_of x trade s) && not (hits_target_of x trade s)
      then w
      else if confirmed flat
      then close_live x trade price reason estimated_from_bracket here
      else force_close x trade s price reason here

  -- From the first read of the position on.
  settle_live : TickContext D B → TradeRow D → Bool → Bool → Bool → TradeWorld D B → TradeWorld D B
  unfolding sync_flat box_exit exit_live
  settle_live x trade is_flat trailing_placed target_placed w =
      let (s, after) = box_exit x trade trailing_placed target_placed w in
      if is_flat
      then sync_flat x trade trailing_placed target_placed trade.take_profit_price w
      else exit_live x trade s after

  -- The tick on the row as it is after its entry was checked.
  pub tick_live : TickContext D B → TradeRow D → TradeWorld D B → TradeWorld D B
  unfolding arm_trailing place_target settle_live
  tick_live x trade w =
      let (trailing_placed, armed) = arm_trailing x trade w in
      let (target_placed, placed) = place_target x trade trade.take_profit_price armed in
      let (flat, polled) = x.ops.is_position_flat trade.symbol placed.broker_state in
      settle_live x trade (confirmed flat) trailing_placed target_placed
        (record placed { broker_state = polled })

  unfoldable pub manage_live_open_trade :
      TickContext D B → TradeRow D → TradeWorld D B → TradeWorld D B
  unfolding tick_live
  manage_live_open_trade x trade w =
      let (checked, after) = maybe_reanchor_to_real_entry x.ops x.instrument trade w in
      tick_live x checked after
