-- ===== src/Trades/Live/Flat.antt =====
-- What a tick of a live trade does once the broker reports no position, and when the chart cannot be
-- read: `manageLiveOpenTrade` of backend/src/engine/loop.ts.
use tera_trade.Prelude.{Bool, Option, String, false, none, refl, some, true, ◌≡◌, sym, subst}
use tera_trade.Trades.Rows.{LiveOps, TradeRow, TradeWorld, find_open}
use tera_trade.Number.{Number}
use tera_trade.Trades.Live.{
  TickContext, arm_trailing, close_live, confirmed, place_target, settle_live, sync_flat, tick_live,
  manage_live_open_trade,
}
use tera_trade.Trades.Close.Once.{find_open-close_trade, find_open-reconcile}
use tera_trade.Trades.Reanchor.{maybe_reanchor_to_real_entry}
use tera_trade.Trades.Reanchor.Kept.{maybe_reanchor_to_real_entry-id}

module _ {D B : Type 0} where
  -- Every read of the position says that there is none.
  abbrev pub IsFlatAlways : LiveOps D B → Type 0
  IsFlatAlways ops = (symbol : String) (b : B) → confirmed (ops.is_position_flat symbol b).0 ≡ true

module _ {D B : Type 0} ⦃n : Number D⦄ where
  settle_live_flat :
      (x : TickContext D B) (trade : TradeRow D) (b trailing target : Bool) (w : TradeWorld D B)
      → b ≡ true
      → settle_live x trade b trailing target w
        ≡ sync_flat x trade trailing target trade.take_profit_price w
  unfolding settle_live
  settle_live_flat x trade b trailing target w e = rw e refl

  pub tick_live_flat :
      (x : TickContext D B) (trade : TradeRow D) (w : TradeWorld D B)
      → IsFlatAlways x.ops
      → let armed = arm_trailing x trade w in
        let placed = place_target x trade trade.take_profit_price armed.1 in
        let polled = (x.ops.is_position_flat trade.symbol placed.1.broker_state).1 in
        tick_live x trade w
        ≡ sync_flat x trade armed.0 placed.0 trade.take_profit_price
            (record placed.1 { broker_state = polled })
  unfolding tick_live
  tick_live_flat x trade w h = settle_live_flat x trade _ _ _ _ (
      h trade.symbol
        (place_target x trade trade.take_profit_price (arm_trailing x trade w).1).1.broker_state)

  sync_flat-closed :
      (x : TickContext D B) (trade : TradeRow D) (trailing target : Bool) (price : Option D)
      (w : TradeWorld D B)
      → find_open trade.id x.account (sync_flat x trade trailing target price w).trades ≡ none
  unfolding sync_flat close_live
  sync_flat-closed x trade true target price w =
      find_open-close_trade x.ops true x.instrument x.account _ w
  sync_flat-closed x trade false true (some p) w =
      find_open-close_trade x.ops true x.instrument x.account _ w
  sync_flat-closed x trade false true none w = find_open-reconcile x.ops x.now x.account trade w
  sync_flat-closed x trade false false price w = find_open-reconcile x.ops x.now x.account trade w

  tick_live-closed :
      (x : TickContext D B) (trade : TradeRow D) (w : TradeWorld D B)
      → IsFlatAlways x.ops
      → find_open trade.id x.account (tick_live x trade w).trades ≡ none
  tick_live-closed x trade w h =
      subst (λ v. find_open trade.id x.account v.trades ≡ none) (sym (tick_live_flat x trade w h))
        (sync_flat-closed x trade _ _ trade.take_profit_price _)

  -- A tick of a live trade whose position the broker reports as gone leaves the trade closed, whatever
  -- was resting for it and whatever the broker's history says.
  pub manage_live_open_trade_closed :
      (x : TickContext D B) (trade : TradeRow D) (w : TradeWorld D B)
      → IsFlatAlways x.ops
      → find_open trade.id x.account (manage_live_open_trade x trade w).trades ≡ none
  unfolding manage_live_open_trade
  manage_live_open_trade_closed x trade w h =
      let r = maybe_reanchor_to_real_entry x.ops x.instrument trade w in
      subst (λ i. find_open i x.account (tick_live x r.0 r.1).trades ≡ none)
        (maybe_reanchor_to_real_entry-id x.ops x.instrument trade w) (tick_live-closed x r.0 r.1 h)
