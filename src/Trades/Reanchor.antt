-- ===== src/Trades/Reanchor.antt =====
-- backend/src/engine/loop.ts: `maybeReanchorToRealEntry`, which moves a bracket once to the entry price
-- that the broker holds. The answers are the trade to carry on with, and the state.
-- FILL_PLAUSIBILITY_FRACTION of backend/src/marketData/instruments.ts is 0.01, and
-- ENTRY_REANCHOR_MIN_TICKS of backend/src/risk/stops.ts is 2.
pub mod Exits
pub mod Kept
use tera_trade.Prelude.{
  Bool, List, Option, String, any, if◌then◌else◌, none, not, some, ℕ, ◌==◌, ◌||◌, ◌∷◌,
}
use tera_trade.Trades.Rows.{InstrumentSpec, LiveOps, TradeRow, TradeWorld, other_open, update_trade}
use tera_trade.Number.{Number, abs, decimal, gt, larger, lt, minus, of_nat, times}
use tera_trade.Risk.Brackets.{
  ReanchoredBracket, bracket_is_valid_against_entry, reanchor_bracket_to_real_entry,
}
use tera_trade.Trades.Protect.{activate_take_profit_order}

abbrev pub entry_reanchor_min_ticks : ℕ
entry_reanchor_min_ticks = 2

is_checked : ℕ → List ℕ → Bool
is_checked i = any (λ j. j == i)

module _ {D : Type 0} ⦃n : Number D⦄ where
  abbrev pub fill_plausibility_fraction : D
  fill_plausibility_fraction = decimal 1 2

  -- The deviations that leave the row as it is: implausible ones, and those under two ticks.
  pub keeps_entry : InstrumentSpec D → D → D → Bool
  keeps_entry instrument recorded_entry real_entry =
      let deviation = abs (minus real_entry recorded_entry) in
      let tolerance =
        larger instrument.max_fill_deviation_points
          (times (abs recorded_entry) fill_plausibility_fraction) in
      gt deviation tolerance
      || lt deviation (times instrument.tick_size (of_nat entry_reanchor_min_ticks))

  pub with_entry : D → TradeRow D → TradeRow D
  with_entry real_entry row = record row { entry_price = real_entry }

  pub with_bracket : D → ReanchoredBracket D → Bool → TradeRow D → TradeRow D
  with_bracket real_entry bracket placed row = record row {
    entry_price = real_entry;
    stop_price = bracket.new_stop_price;
    take_profit_price = bracket.new_take_profit_price;
    take_profit_order_placed = placed;
  }

module _ {D B : Type 0} ⦃n : Number D⦄ where
  -- After the old order is cancelled.
  replace_cancelled : LiveOps D B → TradeRow D → D → Bool → TradeWorld D B → Bool × TradeWorld D B
  replace_cancelled ops trade target took w =
      let (placed, after) = activate_take_profit_order ops trade target w in
      if took then (placed, after) else (trade.take_profit_order_placed, w)

  -- The resting order at the new target; the answer is `takeProfitOrderPlaced`.
  move_resting_order :
      LiveOps D B
      → TradeRow D
      → Option D
      → Option (String → B → Bool × B)
      → TradeWorld D B
      → Bool × TradeWorld D B
  unfolding replace_cancelled
  move_resting_order ops trade (some target) (some cancel) w =
      let (took, after) = cancel trade.symbol w.broker_state in
      if not trade.take_profit_order_placed || trade.trailing_stop_placed
      then (trade.take_profit_order_placed, w)
      else if other_open trade.id trade.account_id trade.symbol w.trades
      then (trade.take_profit_order_placed, w)
      else replace_cancelled ops trade target took (record w { broker_state = after })
  move_resting_order ops trade _ _ w = (trade.take_profit_order_placed, w)

  update_both :
      TradeRow D → (TradeRow D → TradeRow D) → TradeWorld D B → TradeRow D × TradeWorld D B
  update_both trade change w =
      (change trade, record w { trades = update_trade trade.id change w.trades })

  reanchor_bracket : LiveOps D B → TradeRow D → D → TradeWorld D B → TradeRow D × TradeWorld D B
  unfolding move_resting_order update_both with_bracket
  reanchor_bracket ops trade real_entry w =
      let bracket =
        reanchor_bracket_to_real_entry trade.entry_price real_entry trade.stop_price
          trade.take_profit_price in
      let (placed, moved) =
        move_resting_order ops trade bracket.new_take_profit_price ops.cancel_resting_order w in
      update_both trade (with_bracket real_entry bracket placed) moved

  reanchor_read :
      LiveOps D B
      → InstrumentSpec D
      → TradeRow D
      → Option D
      → TradeWorld D B
      → TradeRow D × TradeWorld D B
  unfolding keeps_entry update_both reanchor_bracket with_entry
  reanchor_read ops instrument trade none w = (trade, w)
  reanchor_read ops instrument trade (some real_entry) w =
      if keeps_entry instrument trade.entry_price real_entry
      then (trade, w)
      else if bracket_is_valid_against_entry real_entry trade.stop_price trade.take_profit_price
          trade.side
      then update_both trade (with_entry real_entry) w
      else reanchor_bracket ops trade real_entry w

  unfoldable pub maybe_reanchor_to_real_entry :
      LiveOps D B → InstrumentSpec D → TradeRow D → TradeWorld D B → TradeRow D × TradeWorld D B
  unfolding reanchor_read is_checked
  maybe_reanchor_to_real_entry ops instrument trade w =
      let (real_entry, polled) = ops.read_open_position_entry_price trade.symbol w.broker_state in
      if is_checked trade.id w.entry_checked
      then (trade, w)
      else reanchor_read ops instrument trade real_entry
          (record w { broker_state = polled; entry_checked = trade.id ∷ w.entry_checked })
