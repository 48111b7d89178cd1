-- ===== src/Trades/Close.antt =====
-- backend/src/engine/loop.ts: `closeTrade`, `reconcileBrokerFlatTrade`, and what they read and cancel at
-- the broker. The instrument of the symbol is an argument; `getInstrument` throws if there is none.
pub mod Estimate
pub mod Exits
pub mod Once
use tera_trade.Prelude.{
  Bool, List, Option, String, [], false, get_or, if◌then◌else◌, none, not, some, str_eq, ℕ, ◌&&◌,
  ◌==◌, ◌∷◌,
}
use tera_trade.Trades.Rows.{
  CloseTag, ClosedTradeHistoryEntry, Excursion, ExitNote, ExitReason, InstrumentSpec, LiveOps,
  TradeRow, TradeWorld, any_open, auto_reconciled, bracket_estimate, delete_excursion,
  estimated_from_bracket, estimated_from_trailing_stop, excursion_of, find_open, forced,
  forced_after_bracket_failure, forced_close_via_opposite_order, forced_opposite, no_note,
  real_fill, reconciled_real, reconciled_unknown, trailing_estimate, update_trade,
}
use tera_trade.Number.{Number, minus, of_nat, times}
use tera_trade.Risk.Brackets.{
  ReanchoredBracket, bracket_is_valid_against_entry, reanchor_bracket_to_real_entry,
}
use tera_trade.Trades.History.{find_matching_closed_trade}
use tera_trade.Market.{is_long}
use tera_trade.Trades.Excursion.{no_excursion}

pub record ClosedSimTrade (D : Type 0) : Type 0 where
  pub trade_id : ℕ
  pub symbol : String
  pub exit_time : ℕ
  pub exit_price : D
  pub exit_reason : ExitReason
  pub custom_tag : Option CloseTag

-- The tags that `closeTrade` has a text for.
pub tag_note : Option CloseTag → ExitNote
tag_note (some estimated_from_bracket) = bracket_estimate
tag_note (some estimated_from_trailing_stop) = trailing_estimate
tag_note (some forced_after_bracket_failure) = forced
tag_note (some forced_close_via_opposite_order) = forced_opposite
tag_note _ = no_note

module _ {D B : Type 0} where
  cancel_unless_open :
      (String → B → Bool × B) → LiveOps D B → ℕ → String → TradeWorld D B → TradeWorld D B
  unfolding any_open
  cancel_unless_open cancel ops account symbol w =
      let (flat, polled) = ops.is_position_flat symbol w.broker_state in
      let confirmed = get_or flat false in
      if any_open account symbol w.trades
      then w
      else if confirmed
      then record w { broker_state = (cancel symbol polled).1 }
      else record w { broker_state = polled }

  pub cancel_resting_orders_after_close : LiveOps D B → ℕ → String → TradeWorld D B → TradeWorld D B
  unfolding cancel_unless_open
  cancel_resting_orders_after_close ops account symbol w = elim ops.cancel_resting_order [
    | none ↦ w
    | some cancel ↦ cancel_unless_open cancel ops account symbol w
  ]

module _ {D : Type 0} where
  -- The ids of the broker's rows that other trades of the symbol have claimed.
  pub claimed_ids : ℕ → String → List (TradeRow D) → List String
  claimed_ids i symbol [] = []
  claimed_ids i symbol (t ∷ trades) =
      let rest = claimed_ids i symbol trades in
      if str_eq t.symbol symbol && not (t.id == i)
      then elim t.broker_order_id [ none ↦ rest | some claimed ↦ claimed ∷ rest ]
      else rest

module _ {D B : Type 0} where
  pub try_read_real_closed_trade :
      LiveOps D B → TradeRow D → TradeWorld D B → Option (ClosedTradeHistoryEntry D) × B
  unfolding claimed_ids
  try_read_real_closed_trade ops trade w =
      let (entries, polled) = ops.read_closed_trade_history trade.symbol w.broker_state in
      let excluded = claimed_ids trade.id trade.symbol w.trades in
      (
        elim entries [ none ↦ none | some rows ↦ find_matching_closed_trade trade rows excluded ],
        polled,
      )

module _ {D : Type 0} ⦃n : Number D⦄ where
  -- The bracket is moved with the entry unless it is valid against the real one.
  pub bracket_for : TradeRow D → D → ReanchoredBracket D
  bracket_for trade real_entry =
      if bracket_is_valid_against_entry real_entry trade.stop_price trade.take_profit_price
        trade.side
      then record {
        new_stop_price = trade.stop_price;
        new_take_profit_price = trade.take_profit_price;
        offset = of_nat 0;
      }
      else reanchor_bracket_to_real_entry trade.entry_price real_entry trade.stop_price
          trade.take_profit_price

  -- The update with the broker's own row.
  pub closed_from_history :
      ExitReason → ExitNote → TradeRow D → ClosedTradeHistoryEntry D → TradeRow D → TradeRow D
  unfolding bracket_for
  closed_from_history reason note trade real row =
      let bracket = bracket_for trade real.entry_price in
      record row {
        entry_price = real.entry_price;
        stop_price = bracket.new_stop_price;
        take_profit_price = bracket.new_take_profit_price;
        exit_time = some real.exit_time;
        exit_price = some real.exit_price;
        exit_reason = some reason;
        exit_note = note;
        pnl = some real.net_pnl;
        fees = some (minus (of_nat 0) real.total_deductions);
        broker_order_id = some real.broker_trade_id;
        is_open = false;
      }

  pub trade_pnl : InstrumentSpec D → TradeRow D → D → D
  trade_pnl instrument trade exit_price =
      let direction = if is_long trade.side then of_nat 1 else minus (of_nat 0) (of_nat 1) in
      times (times (times (minus exit_price trade.entry_price) direction) instrument.point_value)
        (of_nat trade.quantity)

  pub with_excursion : Excursion D → TradeRow D → TradeRow D
  with_excursion e row = record row { mae = some e.mae; mfe = some e.mfe }

  pub closed_from_estimate :
      InstrumentSpec D → ClosedSimTrade D → TradeRow D → TradeRow D → TradeRow D
  unfolding trade_pnl tag_note
  closed_from_estimate instrument closed trade row = record row {
    exit_time = some closed.exit_time;
    exit_price = some closed.exit_price;
    exit_reason = some closed.exit_reason;
    exit_note = tag_note closed.custom_tag;
    pnl = some (trade_pnl instrument trade closed.exit_price);
    is_open = false;
  }

  -- The update of the row.
  pub close_change :
      InstrumentSpec D
      → ClosedSimTrade D
      → TradeRow D
      → Excursion D
      → Option (ClosedTradeHistoryEntry D)
      → TradeRow D
      → TradeRow D
  unfolding closed_from_history closed_from_estimate with_excursion
  close_change instrument closed trade e (some real) row =
      with_excursion e (closed_from_history closed.exit_reason real_fill trade real row)
  close_change instrument closed trade e none row =
      with_excursion e (closed_from_estimate instrument closed trade row)

  -- The update of `reconcileBrokerFlatTrade`: without a row of the broker no price and no profit is
  -- made up.
  pub reconcile_change :
      ℕ → TradeRow D → Option (ClosedTradeHistoryEntry D) → TradeRow D → TradeRow D
  unfolding closed_from_history
  reconcile_change now trade (some entry) row =
      closed_from_history auto_reconciled reconciled_real trade entry row
  reconcile_change now trade none row = record row {
    exit_time = some now;
    exit_reason = some auto_reconciled;
    exit_note = reconciled_unknown;
    is_open = false;
  }

module _ {D B : Type 0} ⦃n : Number D⦄ where
  pub close_found :
      LiveOps D B
      → Bool
      → InstrumentSpec D
      → ℕ
      → ClosedSimTrade D
      → TradeRow D
      → TradeWorld D B
      → TradeWorld D B
  unfolding try_read_real_closed_trade close_change excursion_of delete_excursion update_trade
      cancel_resting_orders_after_close
  close_found ops is_live instrument account closed trade w =
      let e = get_or (excursion_of trade.id w.excursions) no_excursion in
      let (real, polled) = try_read_real_closed_trade ops trade w in
      let after : TradeWorld D B = record w {
        broker_state = polled;
        trades = update_trade trade.id (close_change instrument closed trade e real) w.trades;
        excursions = delete_excursion trade.id w.excursions;
      } in
      if is_live then cancel_resting_orders_after_close ops account trade.symbol after else after

  -- `liveBroker` is passed just when `is_live`.
  unfoldable pub close_trade :
      LiveOps D B → Bool → InstrumentSpec D → ℕ → ClosedSimTrade D → TradeWorld D B → TradeWorld D B
  unfolding close_found find_open
  close_trade ops is_live instrument account closed w =
      elim (find_open closed.trade_id account w.trades) [
        | none ↦ w
        | some trade ↦ close_found ops is_live instrument account closed trade w
      ]

  -- `reconcileBrokerFlatTrade`
  pub reconcile_broker_flat_trade : LiveOps D B → ℕ → TradeRow D → TradeWorld D B → TradeWorld D B
  unfolding try_read_real_closed_trade reconcile_change
  reconcile_broker_flat_trade ops now trade w =
      let (real, polled) = try_read_real_closed_trade ops trade w in
      record w {
        broker_state = polled;
        trades = update_trade trade.id (reconcile_change now trade real) w.trades;
      }
