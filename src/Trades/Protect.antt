-- ===== src/Trades/Protect.antt =====
-- backend/src/engine/loop.ts: the protective orders of a live trade, `activateTrailingStop` and
-- `activateTakeProfitOrder`. The ATR is an argument, `none` where the bars could not be read.
use tera_trade.Prelude.{Bool, Option, false, if◌then◌else◌, none, some, true, ◌∷◌}
use tera_trade.Trades.Rows.{
  InstrumentSpec, LiveOps, ProtectiveOrder, TradeRow, TradeWorld, closing_side, update_trade,
}
use tera_trade.Number.{Number}
use tera_trade.Brokers.Types.{OrderType, trailing_stop}
use tera_trade.Risk.Brackets.{resolve_trailing_stop_distance_ticks}

module _ {D : Type 0} where
  trailing_placed : TradeRow D → TradeRow D
  trailing_placed row = record row { trailing_stop_placed = true }

  target_placed : TradeRow D → TradeRow D
  target_placed row = record row { take_profit_order_placed = true }

module _ {D B : Type 0} where
  -- The rows of an order that the broker took.
  record_order :
      TradeRow D
      → OrderType
      → Option D
      → (TradeRow D → TradeRow D)
      → TradeWorld D B
      → TradeWorld D B
  record_order trade order_type price change w =
      let order : ProtectiveOrder D = record {
        trade_id = trade.id;
        order_type = order_type;
        side = closing_side trade.side;
        price = price;
        quantity = trade.quantity;
      } in
      record w { trades = update_trade trade.id change w.trades; orders = order ∷ w.orders }

  unfoldable pub activate_take_profit_order :
      LiveOps D B → TradeRow D → D → TradeWorld D B → Bool × TradeWorld D B
  unfolding record_order target_placed
  activate_take_profit_order ops trade target w =
      let (took, after) =
        ops.place_take_profit_order trade.symbol trade.side trade.quantity target w.broker_state in
      let placed : TradeWorld D B = record w { broker_state = after } in
      if took
      then (true, record_order trade OrderType.limit (some target) target_placed placed)
      else (false, placed)

module _ {D B : Type 0} ⦃n : Number D⦄ where
  unfoldable pub activate_trailing_stop :
      LiveOps D B
      → InstrumentSpec D
      → Option D
      → TradeRow D
      → TradeWorld D B
      → Bool × TradeWorld D B
  unfolding record_order trailing_placed
  activate_trailing_stop ops instrument atr_value trade w =
      let ticks =
        resolve_trailing_stop_distance_ticks instrument.tick_size instrument.trailing_stop_tick_band
          atr_value in
      let (took, after) =
        ops.place_trailing_stop trade.symbol trade.side trade.quantity ticks w.broker_state in
      let placed : TradeWorld D B = record w { broker_state = after } in
      if took
      then (true, record_order trade trailing_stop none trailing_placed placed)
      else (false, placed)
