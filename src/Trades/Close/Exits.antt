-- ===== src/Trades/Close/Exits.antt =====
-- `closeTrade` and `reconcileBrokerFlatTrade` of backend/src/engine/loop.ts use neither the broker's
-- close button nor its opposite orders.
use tera_trade.Prelude.{Bool, String, refl, ℕ, ◌≡◌}
use tera_trade.Trades.Close.{
  ClosedSimTrade, cancel_resting_orders_after_close, cancel_unless_open, close_found, close_trade,
  reconcile_broker_flat_trade, try_read_real_closed_trade,
}
use tera_trade.Trades.Rows.{InstrumentSpec, LiveOps, TradeRow, TradeWorld}
use tera_trade.Number.{Number}
use tera_trade.Market.{Side}

module _ {D B : Type 0} where
  -- The same broker, whose close button and opposite orders do something else.
  abbrev pub with_exits :
      (String → B → Bool × B) → (String → Side → ℕ → B → Bool × B) → LiveOps D B → LiveOps D B
  with_exits close flatten ops = record ops {
    request_close_position = close;
    flatten_position = flatten;
  }

module _ {D B : Type 0} ⦃n : Number D⦄ (close : String → B → Bool × B)
    (flatten : String → Side → ℕ → B → Bool × B) where
  pub close_trade-with_exits :
      (ops : LiveOps D B) (is_live : Bool) (instrument : InstrumentSpec D) (account : ℕ)
      (closed : ClosedSimTrade D) (w : TradeWorld D B)
      → close_trade (with_exits close flatten ops) is_live instrument account closed w
        ≡ close_trade ops is_live instrument account closed w
  unfolding close_trade close_found try_read_real_closed_trade cancel_resting_orders_after_close
      cancel_unless_open
  close_trade-with_exits ops is_live instrument account closed w = refl

  pub reconcile-with_exits :
      (ops : LiveOps D B) (now : ℕ) (trade : TradeRow D) (w : TradeWorld D B)
      → reconcile_broker_flat_trade (with_exits close flatten ops) now trade w
        ≡ reconcile_broker_flat_trade ops now trade w
  unfolding reconcile_broker_flat_trade try_read_real_closed_trade
  reconcile-with_exits ops now trade w = refl
