-- ===== src/Trades/Live/Glitch.antt =====
-- A tick of `manageLiveOpenTrade` of backend/src/engine/loop.ts while the chart cannot be read.
use tera_trade.Prelude.{
  Bool, Bool-cases, Option, String, ap, false, inl, inr, none, refl, some, true, ◌≡◌, ◌∙◌,
}
use tera_trade.Number.{Number}
use tera_trade.Trades.Live.{
  TickContext, arm_trailing, box_exit, close_live, exit_live, exit_price_of, force_close,
  hits_stop_of, hits_target_of, is_outside_box, is_read_ok, manage_live_open_trade, place_target,
  settle_live, sync_flat, tick_live, confirmed,
}
use tera_trade.Trades.Rows.{TradeRow, TradeWorld}
use tera_trade.Trades.Reanchor.{maybe_reanchor_to_real_entry}
use tera_trade.Risk.ChartZoneGate.{read_failed}

module _ {D B : Type 0} where
  abbrev unread : String → TickContext D B → TickContext D B
  unread error x = record x { chart = read_failed error }

  abbrev ungated : TickContext D B → TickContext D B
  ungated x = record x { chart_gate_enabled = false }

module _ {D B : Type 0} ⦃n : Number D⦄ (error : String) (x : TickContext D B) where
  box_exit-unread :
      (trade : TradeRow D) (trailing target : Bool) (w : TradeWorld D B)
      → box_exit (unread error x) trade trailing target w
        ≡ box_exit (ungated x) trade trailing target w
  unfolding box_exit is_outside_box is_read_ok
  box_exit-unread trade trailing target w = elim (Bool-cases x.chart_gate_enabled) [
    | inl e ↦ rw e refl
    | inr e ↦ rw e refl
  ]

  sync_flat-unread :
      (trade : TradeRow D) (trailing target : Bool) (price : Option D) (w : TradeWorld D B)
      → sync_flat (unread error x) trade trailing target price w
        ≡ sync_flat (ungated x) trade trailing target price w
  unfolding sync_flat close_live
  sync_flat-unread trade true target price w = refl
  sync_flat-unread trade false true (some p) w = refl
  sync_flat-unread trade false true none w = refl
  sync_flat-unread trade false false price w = refl

  settle_live-unread :
      (trade : TradeRow D) (is_flat trailing target : Bool) (w : TradeWorld D B)
      → settle_live (unread error x) trade is_flat trailing target w
        ≡ settle_live (ungated x) trade is_flat trailing target w
  unfolding settle_live exit_live force_close close_live hits_stop_of hits_target_of exit_price_of
  settle_live-unread trade true trailing target w =
      sync_flat-unread trade trailing target trade.take_profit_price w
  settle_live-unread trade false trailing target w =
      ap (λ r. exit_live (ungated x) trade r.0 r.1) (box_exit-unread trade trailing target w)

  place_target-unread :
      (trade : TradeRow D) (price : Option D) (w : TradeWorld D B)
      → place_target (unread error x) trade price w ≡ place_target (ungated x) trade price w
  unfolding place_target
  place_target-unread trade none w = refl
  place_target-unread trade (some p) w = refl

  settle_at : TickContext D B → TradeRow D → Bool → Bool × TradeWorld D B → TradeWorld D B
  settle_at y trade trailing placed =
      let (flat, polled) = y.ops.is_position_flat trade.symbol placed.1.broker_state in
      settle_live y trade (confirmed flat) trailing placed.0
        (record placed.1 { broker_state = polled })

  tick_live-unread :
      (trade : TradeRow D) (w : TradeWorld D B)
      → tick_live (unread error x) trade w ≡ tick_live (ungated x) trade w
  unfolding tick_live arm_trailing settle_at
  tick_live-unread trade w =
      let armed = arm_trailing x trade w in
      let placed = place_target (ungated x) trade trade.take_profit_price armed.1 in
      ap (settle_at (unread error x) trade armed.0)
        (place_target-unread trade trade.take_profit_price armed.1)
      ∙ settle_live-unread trade _ armed.0 placed.0 _

  -- A chart that cannot be read changes nothing: the tick does what it does with the chart's gate
  -- switched off, so no open trade is closed and no stop is moved because of it.
  pub manage_live_open_trade-unread :
      (trade : TradeRow D) (w : TradeWorld D B)
      → manage_live_open_trade (record x { chart = read_failed error }) trade w
        ≡ manage_live_open_trade (record x { chart_gate_enabled = false }) trade w
  unfolding manage_live_open_trade
  manage_live_open_trade-unread trade w =
      let r = maybe_reanchor_to_real_entry x.ops x.instrument trade w in tick_live-unread r.0 r.1
