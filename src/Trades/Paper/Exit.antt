-- ===== src/Trades/Paper/Exit.antt =====
-- When `manageSimulatedOpenTrade` of backend/src/engine/loop.ts closes a paper trade, and at which price.
use mathlib.Core.Option
use tera_trade.Prelude.{All, Option, false, some, true, ◌≡◌, ◌⊎◌}
use tera_trade.Trades.Rows.{TradeRow, TradeWorld, by_stop, by_target}
use tera_trade.Trades.Close.Estimate.{IsClosedAt, OfTrade}
use tera_trade.Brokers.Simulated.{SimulatedBroker}
use tera_trade.Number.{Number}
use tera_trade.Trades.Paper.{reaches_stop, reaches_target}

module _ {D : Type 0} ⦃n : Number D⦄ where
  -- The tick's outcome for an effective stop: closed at the stop if the bar reaches it; else at the
  -- target if the bar reaches that; else as it was.
  abbrev pub IsExit :
      TradeRow D
      → D
      → D
      → D
      → TradeWorld D (SimulatedBroker D)
      → TradeWorld D (SimulatedBroker D)
      → Type 0
  IsExit trade level high low before after =
      ((reaches_stop trade.side level high low ≡ true)
        × All (OfTrade trade.id (IsClosedAt level by_stop)) after.trades)
      ⊎ ((reaches_stop trade.side level high low ≡ false)
          × ((target : D) × (trade.take_profit_price ≡ some target)
              × (reaches_target trade.side (some target) high low ≡ true)
              × All (OfTrade trade.id (IsClosedAt target by_target)) after.trades))
      ⊎ ((reaches_stop trade.side level high low ≡ false)
          × (reaches_target trade.side trade.take_profit_price high low ≡ false)
          × (after ≡ before))
