-- ===== src/Trades/Reanchor/Exits.antt =====
-- `maybeReanchorToRealEntry` of backend/src/engine/loop.ts uses neither the broker's close button nor
-- its opposite orders.
use tera_trade.Prelude.{Bool, Option, String, ap, if◌then◌else◌, none, refl, some, ℕ, ◌∷◌, ◌≡◌}
use tera_trade.Trades.Rows.{InstrumentSpec, LiveOps, TradeRow, TradeWorld}
use tera_trade.Number.{Number}
use tera_trade.Market.{Side}
use tera_trade.Trades.Protect.{activate_take_profit_order}
use tera_trade.Trades.Reanchor.{
  is_checked, maybe_reanchor_to_real_entry, move_resting_order, reanchor_bracket, reanchor_read,
  replace_cancelled, keeps_entry, update_both, with_bracket, with_entry,
}
use tera_trade.Trades.Close.Exits.{with_exits}
use tera_trade.Risk.Brackets.{bracket_is_valid_against_entry, reanchor_bracket_to_real_entry}

module _ {D B : Type 0} ⦃n : Number D⦄ (close : String → B → Bool × B)
    (flatten : String → Side → ℕ → B → Bool × B) where
  move_resting-with_exits :
      (ops : LiveOps D B) (trade : TradeRow D) (target : Option D)
      (cancel : Option (String → B → Bool × B)) (w : TradeWorld D B)
      → move_resting_order (with_exits close flatten ops) trade target cancel w
        ≡ move_resting_order ops trade target cancel w
  unfolding move_resting_order replace_cancelled activate_take_profit_order
  move_resting-with_exits ops trade none cancel w = refl
  move_resting-with_exits ops trade (some p) none w = refl
  move_resting-with_exits ops trade (some p) (some cancel) w = refl

  reanchor_bracket-with_exits :
      (ops : LiveOps D B) (trade : TradeRow D) (real_entry : D) (w : TradeWorld D B)
      → reanchor_bracket (with_exits close flatten ops) trade real_entry w
        ≡ reanchor_bracket ops trade real_entry w
  unfolding reanchor_bracket
  reanchor_bracket-with_exits ops trade real_entry w =
      let bracket =
        reanchor_bracket_to_real_entry trade.entry_price real_entry trade.stop_price
          trade.take_profit_price in
      ap (λ moved. update_both trade (with_bracket real_entry bracket moved.0) moved.1)
        (move_resting-with_exits ops trade bracket.new_take_profit_price ops.cancel_resting_order w)

  reanchor_read-with_exits :
      (ops : LiveOps D B) (instrument : InstrumentSpec D) (trade : TradeRow D) (real : Option D)
      (w : TradeWorld D B)
      → reanchor_read (with_exits close flatten ops) instrument trade real w
        ≡ reanchor_read ops instrument trade real w
  unfolding reanchor_read reanchor_bracket move_resting_order replace_cancelled
      activate_take_profit_order
  reanchor_read-with_exits ops instrument trade none w = refl
  reanchor_read-with_exits ops instrument trade (some p) w =
      ap
        (λ r.
          if keeps_entry instrument trade.entry_price p
          then (trade, w)
          else if bracket_is_valid_against_entry p trade.stop_price trade.take_profit_price
              trade.side
          then update_both trade (with_entry p) w
          else r)
        (reanchor_bracket-with_exits ops trade p w)

  pub maybe_reanchor-with_exits :
      (ops : LiveOps D B) (instrument : InstrumentSpec D) (trade : TradeRow D) (w : TradeWorld D B)
      → maybe_reanchor_to_real_entry (with_exits close flatten ops) instrument trade w
        ≡ maybe_reanchor_to_real_entry ops instrument trade w
  unfolding maybe_reanchor_to_real_entry
  maybe_reanchor-with_exits ops instrument trade w =
      let (real, polled) = ops.read_open_position_entry_price trade.symbol w.broker_state in
      let w' : TradeWorld D B = record w {
        broker_state = polled;
        entry_checked = trade.id ∷ w.entry_checked;
      } in
      ap (λ r. if is_checked trade.id w.entry_checked then (trade, w) else r)
        (reanchor_read-with_exits ops instrument trade real w')
