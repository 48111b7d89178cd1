-- ===== src/Trades/Live/Exits.antt =====
-- The exits that `manageLiveOpenTrade` of backend/src/engine/loop.ts sends: the position's close button, and
-- the opposite order.
use tera_trade.Prelude.{
  Bool, Option, String, false, none, some, true, ℕ, ◌≡◌, ap, ◌∙◌, Bool-cases, if◌then◌else◌, inl,
  inr, refl, not, ◌&&◌,
}
use tera_trade.Number.{Number}
use tera_trade.Market.{Side}
use tera_trade.Trades.Live.{
  TickContext, close_live, sync_flat, arm_trailing, manage_live_open_trade, place_target, tick_live,
  ExitState, box_exit, confirmed, exit_live, exit_price_of, force_close, hits_stop_of,
  hits_target_of, is_green, is_outside_box, settle_live, to_breakeven,
}
use tera_trade.Trades.Rows.{
  TradeRow, TradeWorld, ExitReason, LiveOps, closed_red_outside_chart_box, estimated_from_bracket,
  forced_after_bracket_failure, forced_close_via_opposite_order, CloseTag, by_stop, by_target,
}
use tera_trade.Trades.Close.Exits.{close_trade-with_exits, reconcile-with_exits, with_exits}
use tera_trade.Trades.Protect.{activate_take_profit_order, activate_trailing_stop}
use tera_trade.Trades.Reanchor.Exits.{maybe_reanchor-with_exits}
use tera_trade.Trades.Reanchor.{maybe_reanchor_to_real_entry}

module _ {D B : Type 0} ⦃n : Number D⦄ (close : String → B → Bool × B)
    (flatten : String → Side → ℕ → B → Bool × B) where
  abbrev context_with_exits : TickContext D B → TickContext D B
  context_with_exits x = record x { ops = with_exits close flatten x.ops }

  sync_flat-with_exits :
      (x : TickContext D B) (trade : TradeRow D) (trailing target : Bool) (price : Option D)
      (w : TradeWorld D B)
      → sync_flat (context_with_exits x) trade trailing target price w
        ≡ sync_flat x trade trailing target price w
  unfolding sync_flat close_live
  sync_flat-with_exits x trade true target price w =
      close_trade-with_exits close flatten x.ops true x.instrument x.account _ w
  sync_flat-with_exits x trade false true (some p) w =
      close_trade-with_exits close flatten x.ops true x.instrument x.account _ w
  sync_flat-with_exits x trade false true none w =
      reconcile-with_exits close flatten x.ops x.now trade w
  sync_flat-with_exits x trade false false price w =
      reconcile-with_exits close flatten x.ops x.now trade w

  -- Right after a read of a position that does not say it is gone, the two exits do what the broker's do.
  -- Elsewhere they may do anything.
  abbrev pub IsSameWhenOpen : LiveOps D B → Type 0
  IsSameWhenOpen ops =
      (symbol : String) (b : B)
      → confirmed (ops.is_position_flat symbol b).0 ≡ false
      → let seen = (ops.is_position_flat symbol b).1 in
        (close symbol seen ≡ ops.request_close_position symbol seen)
        × ((side : Side) (quantity : ℕ)
            → flatten symbol side quantity seen ≡ ops.flatten_position symbol side quantity seen)

  -- `force_close`, from what the close button, the second read and the opposite order answer.
  abbrev forced :
      TickContext D B
      → TradeRow D
      → ExitState D
      → D
      → ExitReason
      → TradeWorld D B
      → Bool × B
      → Option Bool × B
      → Bool × B
      → TradeWorld D B
  forced x trade s price reason w (closed, requested) (flat, polled) (flattened, after) =
      let tag =
        if s.closing_red then closed_red_outside_chart_box else forced_after_bracket_failure in
      if closed
      then close_live x trade price reason tag (record w { broker_state = requested })
      else if confirmed flat
      then close_live x trade price reason estimated_from_bracket
          (record w { broker_state = polled })
      else if flattened
      then close_live x trade price reason forced_close_via_opposite_order
          (record w { broker_state = after })
      else record w { broker_state = after }

  close_live-with_exits :
      (x : TickContext D B) (trade : TradeRow D) (price : D) (reason : ExitReason) (tag : CloseTag)
      (w : TradeWorld D B)
      → close_live (context_with_exits x) trade price reason tag w
        ≡ close_live x trade price reason tag w
  unfolding close_live
  close_live-with_exits x trade price reason tag w =
      close_trade-with_exits close flatten x.ops true x.instrument x.account _ w

  forced-with_exits :
      (x : TickContext D B) (trade : TradeRow D) (s : ExitState D) (price : D) (reason : ExitReason)
      (w : TradeWorld D B) (p : Bool × B) (q : Option Bool × B) (r : Bool × B)
      → forced (context_with_exits x) trade s price reason w p q r
        ≡ forced x trade s price reason w p q r
  forced-with_exits x trade s price reason w (true, requested) q r =
      close_live-with_exits x trade price reason _ _
  forced-with_exits x trade s price reason w (false, requested) (some true, polled) r =
      close_live-with_exits x trade price reason _ _
  forced-with_exits x trade s price reason w (false, requested) (some false, polled) (true, b) =
      close_live-with_exits x trade price reason _ _
  forced-with_exits x trade s price reason w (false, requested) (some false, polled) (false, b) =
      refl
  forced-with_exits x trade s price reason w (false, requested) (none, polled) (true, b) =
      close_live-with_exits x trade price reason _ _
  forced-with_exits x trade s price reason w (false, requested) (none, polled) (false, b) = refl

  forced_lem :
      (x : TickContext D B) (trade : TradeRow D) (s : ExitState D) (price : D) (reason : ExitReason)
      (w : TradeWorld D B) (p : Bool × B) (q : Option Bool × B) (r r' : Bool × B)
      → (confirmed q.0 ≡ false → r ≡ r')
      → forced x trade s price reason w p q r ≡ forced x trade s price reason w p q r'
  forced_lem x trade s price reason w (true, requested) q r r' h = refl
  forced_lem x trade s price reason w (false, requested) q r r' h =
      elim (Bool-cases (confirmed q.0)) [ inl e ↦ rw e refl | inr e ↦ rw (h e) refl ]

  force_close-with_exits :
      (x : TickContext D B) (trade : TradeRow D) (s : ExitState D) (price : D) (reason : ExitReason)
      (w : TradeWorld D B)
      → IsSameWhenOpen x.ops
      → close trade.symbol w.broker_state ≡ x.ops.request_close_position trade.symbol w.broker_state
      → force_close (context_with_exits x) trade s price reason w
        ≡ force_close x trade s price reason w
  unfolding force_close
  force_close-with_exits x trade s price reason w same e =
      let answers : Bool × B → TradeWorld D B = λ p.
        let q = x.ops.is_position_flat trade.symbol p.1 in
        forced (context_with_exits x) trade s price reason w p q
          (flatten trade.symbol trade.side trade.quantity q.1) in
      let p = x.ops.request_close_position trade.symbol w.broker_state in
      let q = x.ops.is_position_flat trade.symbol p.1 in
      let flattened = flatten trade.symbol trade.side trade.quantity q.1 in
      ap answers e
      ∙ forced-with_exits x trade s price reason w p q flattened
      ∙ forced_lem x trade s price reason w p q flattened
          (x.ops.flatten_position trade.symbol trade.side trade.quantity q.1)
          (λ open_still. (same trade.symbol p.1 open_still).1 trade.side trade.quantity)

  exit_live-with_exits :
      (x : TickContext D B) (trade : TradeRow D) (s : ExitState D) (w : TradeWorld D B)
      → IsSameWhenOpen x.ops
      → exit_live (context_with_exits x) trade s w ≡ exit_live x trade s w
  unfolding exit_live exit_price_of hits_stop_of hits_target_of
  exit_live-with_exits x trade s w same =
      let read = x.ops.is_position_flat trade.symbol w.broker_state in
      let here : TradeWorld D B = record w { broker_state = read.1 } in
      let reason = if hits_stop_of x trade s then by_stop else by_target in
      let price = exit_price_of x trade s in
      elim (Bool-cases (not (hits_stop_of x trade s) && not (hits_target_of x trade s))) [
        | inl e ↦ rw e refl
        | inr e ↦ elim (Bool-cases (confirmed read.0)) [
          | inl flat ↦
              rw (e, flat) (close_live-with_exits x trade price reason estimated_from_bracket here)
          | inr open_still ↦
              rw (e, open_still)
                (force_close-with_exits x trade s price reason here same
                  (same trade.symbol w.broker_state open_still).0)
        ]
      ]

  settle_live-with_exits :
      (x : TickContext D B) (trade : TradeRow D) (is_flat trailing target : Bool)
      (w : TradeWorld D B)
      → IsSameWhenOpen x.ops
      → settle_live (context_with_exits x) trade is_flat trailing target w
        ≡ settle_live x trade is_flat trailing target w
  unfolding settle_live box_exit is_outside_box is_green to_breakeven activate_trailing_stop
  settle_live-with_exits x trade true trailing target w same =
      sync_flat-with_exits x trade trailing target trade.take_profit_price w
  settle_live-with_exits x trade false trailing target w same =
      let (s, after) = box_exit x trade trailing target w in
      exit_live-with_exits x trade s after same

  tick_live-with_exits :
      (x : TickContext D B) (trade : TradeRow D) (w : TradeWorld D B)
      → IsSameWhenOpen x.ops
      → tick_live (context_with_exits x) trade w ≡ tick_live x trade w
  unfolding tick_live arm_trailing place_target activate_trailing_stop activate_take_profit_order
  tick_live-with_exits x trade w same = settle_live-with_exits x trade _ _ _ _ same

  -- A tick is the same for any two brokers that differ only in what the close button and the opposite order
  -- do elsewhere than right after a read of the position that does not say it is gone: it sends neither
  -- at any other moment, so none for a position that the read just before reports as gone.
  pub manage_live_open_trade-with_exits :
      (x : TickContext D B) (trade : TradeRow D) (w : TradeWorld D B)
      → IsSameWhenOpen x.ops
      → manage_live_open_trade (record x { ops = with_exits close flatten x.ops }) trade w
        ≡ manage_live_open_trade x trade w
  unfolding manage_live_open_trade
  manage_live_open_trade-with_exits x trade w same =
      let r = maybe_reanchor_to_real_entry x.ops x.instrument trade w in
      ap (λ r. tick_live (context_with_exits x) r.0 r.1)
        (maybe_reanchor-with_exits close flatten x.ops x.instrument trade w)
      ∙ tick_live-with_exits x r.0 r.1 same
