-- ===== src/Trades/Close/Estimate.antt =====
-- What `closeTrade` of backend/src/engine/loop.ts writes where the broker has no history of trades.
use tera_trade.Prelude.{
  All, Bool, Bool-cases, List, String, [], arith, false, inl, inr, none, refl, some, ℕ, ◌==◌, ◌∷◌,
  ◌≡◌, get_or, subst,
}
use tera_trade.Trades.Close.{
  ClosedSimTrade, close_change, close_trade, closed_from_estimate, try_read_real_closed_trade,
  with_excursion,
}
use tera_trade.Trades.Rows.{
  Excursion, ExitReason, InstrumentSpec, LiveOps, TradeRow, TradeWorld, find_open, update_trade,
  excursion_of,
}
use tera_trade.Number.{Number}
use tera_trade.Trades.Close.Once.{close_found-trades, find_open-id}
use tera_trade.Trades.Excursion.{no_excursion}

module _ {D : Type 0} where
  abbrev pub IsClosedAt : D → ExitReason → TradeRow D → Type 0
  IsClosedAt price reason row =
      (row.is_open ≡ false) × (row.exit_price ≡ some price) × (row.exit_reason ≡ some reason)

  -- The rows of an id.
  abbrev pub OfTrade : ℕ → (TradeRow D → Type 0) → TradeRow D → Type 0
  OfTrade i P row = row.id ≡ i → P row

  update_trade-All :
      (P : TradeRow D → Type 0) (i : ℕ) (change : TradeRow D → TradeRow D)
      (trades : List (TradeRow D))
      → ((row : TradeRow D) → P (change row))
      → All (OfTrade i P) (update_trade i change trades)
  unfolding update_trade
  update_trade-All P i change [] h = tt
  update_trade-All P i change (t ∷ trades) h = elim (Bool-cases (t.id == i)) [
    | inl e ↦ (rw e (λ _. h t), update_trade-All P i change trades h)
    | inr e ↦ (rw e (λ same. absurd (ground arith)), update_trade-All P i change trades h)
  ]

module _ {D : Type 0} ⦃n : Number D⦄ where
  close_change-IsClosedAt :
      (instrument : InstrumentSpec D) (closed : ClosedSimTrade D) (trade : TradeRow D)
      (e : Excursion D) (row : TradeRow D)
      → IsClosedAt closed.exit_price closed.exit_reason
          (close_change instrument closed trade e none row)
  unfolding close_change with_excursion closed_from_estimate
  close_change-IsClosedAt instrument closed trade e row = (refl, refl, refl)

module _ {D B : Type 0} ⦃n : Number D⦄ where
  abbrev pub HasNoHistory : LiveOps D B → Type 0
  HasNoHistory ops = (symbol : String) (b : B) → (ops.read_closed_trade_history symbol b).0 ≡ none

  try_read-none :
      (ops : LiveOps D B) (trade : TradeRow D) (w : TradeWorld D B)
      → HasNoHistory ops
      → (try_read_real_closed_trade ops trade w).0 ≡ none
  unfolding try_read_real_closed_trade
  try_read-none ops trade w h = rw (h trade.symbol w.broker_state) refl

  -- A close of an open trade leaves its row closed, at the price and for the reason given.
  pub close_trade-IsClosedAt :
      (ops : LiveOps D B) (is_live : Bool) (instrument : InstrumentSpec D) (account : ℕ)
      (closed : ClosedSimTrade D) (w : TradeWorld D B) {t : TradeRow D}
      → HasNoHistory ops
      → find_open closed.trade_id account w.trades ≡ some t
      → All
          (OfTrade closed.trade_id (IsClosedAt closed.exit_price closed.exit_reason))
          (close_trade ops is_live instrument account closed w).trades
  unfolding close_trade
  close_trade-IsClosedAt ops is_live instrument account closed w {t} h e =
      let rows = close_found-trades ops is_live instrument account closed t w in
      let (same, _) = find_open-id closed.trade_id account w.trades e in
      let excursion = get_or (excursion_of t.id w.excursions) no_excursion in
      let P : TradeRow D → Type 0 = IsClosedAt closed.exit_price closed.exit_reason in
      let change = close_change instrument closed t excursion none in
      rw (e, close_trade, rows, try_read-none ops t w h)
        (subst (λ i. All (OfTrade i P) (update_trade t.id change w.trades)) same
          (update_trade-All P t.id change w.trades
            (close_change-IsClosedAt instrument closed t excursion)))
