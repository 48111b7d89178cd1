-- ===== src/Trades/Close/Once.antt =====
-- A trade is closed once by `closeTrade` of backend/src/engine/loop.ts, and no other trade is touched.
use tera_trade.Prelude.{
  Bool-cases, List, Option, String, [], arith, false, inl, inr, none, refl, some, true, ℕ, ◌==◌,
  ◌∷◌, ◌≡◌, ◌≢◌, Bool, Option-cases, find-cases, get_or, subst, sym, ◌&&◌, ◌∙◌,
}
use tera_trade.Trades.Close.{
  ClosedSimTrade, cancel_resting_orders_after_close, cancel_unless_open, close_change,
  closed_from_estimate, closed_from_history, with_excursion, close_found, close_trade,
  try_read_real_closed_trade, reconcile_broker_flat_trade, reconcile_change,
}
use tera_trade.Trades.Rows.{
  ClosedTradeHistoryEntry, Excursion, InstrumentSpec, LiveOps, TradeRow, TradeWorld, find_open,
  find_trade, update_trade, excursion_of,
}
use tera_trade.Number.{Number}
use mathlib.Core.Option.{some-injective}
use tera_trade.Trades.Excursion.{no_excursion}

module _ {D : Type 0} where
  -- A change that keeps the id of a row and closes it.
  abbrev IsClosing : (TradeRow D → TradeRow D) → Type 0
  IsClosing change =
      (row : TradeRow D) → ((change row).id ≡ row.id) × ((change row).is_open ≡ false)

  find_open-update_trade :
      (i account : ℕ) (change : TradeRow D → TradeRow D) (trades : List (TradeRow D))
      → IsClosing change
      → find_open i account (update_trade i change trades) ≡ none
  unfolding find_open update_trade
  find_open-update_trade i account change [] h = refl
  find_open-update_trade i account change (t ∷ trades) h = elim (Bool-cases (t.id == i)) [
    | inl e ↦ ground (arith, find_open-update_trade i account change trades h, h t)
    | inr e ↦ ground (arith, find_open-update_trade i account change trades h)
  ]

  find_trade-update_trade :
      (i j : ℕ) (change : TradeRow D → TradeRow D) (trades : List (TradeRow D))
      → IsClosing change
      → i ≢ j
      → find_trade j (update_trade i change trades) ≡ find_trade j trades
  unfolding find_trade update_trade
  find_trade-update_trade i j change [] h ne = refl
  find_trade-update_trade i j change (t ∷ trades) h ne = elim (Bool-cases (t.id == i)) [
    | inl e ↦ ground (arith, find_trade-update_trade i j change trades h ne, h t)
    | inr e ↦ ground (arith, find_trade-update_trade i j change trades h ne)
  ]

  pub find_open-id :
      (i account : ℕ) (trades : List (TradeRow D)) {t : TradeRow D}
      → find_open i account trades ≡ some t
      → (t.id ≡ i) × (t.is_open ≡ true)
  unfolding find_open
  find_open-id i account trades e =
      elim (find-cases (λ t. t.id == i && (t.account_id == account && t.is_open)) trades) [
        | inl missed ↦ absurd (ground (arith, missed.0))
        | inr (t, found, holds, here) ↦
            subst (λ t. (t.id ≡ i) × (t.is_open ≡ true)) (some-injective _ _ (sym found ∙ e))
              (ground arith)
      ]

module _ {D : Type 0} ⦃n : Number D⦄ where
  close_change-IsClosing :
      (instrument : InstrumentSpec D) (closed : ClosedSimTrade D) (trade : TradeRow D)
      (e : Excursion D) (real : Option (ClosedTradeHistoryEntry D))
      → IsClosing (close_change instrument closed trade e real)
  unfolding close_change with_excursion closed_from_history closed_from_estimate
  close_change-IsClosing instrument closed trade e none row = (refl, refl)
  close_change-IsClosing instrument closed trade e (some real) row = (refl, refl)

  reconcile_change-IsClosing :
      (now : ℕ) (trade : TradeRow D) (real : Option (ClosedTradeHistoryEntry D))
      → IsClosing (reconcile_change now trade real)
  unfolding reconcile_change closed_from_history
  reconcile_change-IsClosing now trade none row = (refl, refl)
  reconcile_change-IsClosing now trade (some entry) row = (refl, refl)

module _ {D B : Type 0} where
  cancel_resting-trades :
      (ops : LiveOps D B) (account : ℕ) (symbol : String) (w : TradeWorld D B)
      → (cancel_resting_orders_after_close ops account symbol w).trades ≡ w.trades
  unfolding cancel_resting_orders_after_close cancel_unless_open
  cancel_resting-trades ops account symbol w = ground arith

module _ {D B : Type 0} ⦃n : Number D⦄ where
  -- The update that the close of a trade makes.
  abbrev pub change_of :
      LiveOps D B
      → InstrumentSpec D
      → ClosedSimTrade D
      → TradeRow D
      → TradeWorld D B
      → TradeRow D
      → TradeRow D
  change_of ops instrument closed trade w =
      close_change instrument closed trade
        (get_or (excursion_of trade.id w.excursions) no_excursion)
        (try_read_real_closed_trade ops trade w).0

  pub close_found-trades :
      (ops : LiveOps D B) (is_live : Bool) (instrument : InstrumentSpec D) (account : ℕ)
      (closed : ClosedSimTrade D) (trade : TradeRow D) (w : TradeWorld D B)
      → (close_found ops is_live instrument account closed trade w).trades
        ≡ update_trade trade.id (change_of ops instrument closed trade w) w.trades
  unfolding close_found
  close_found-trades ops is_live instrument account closed trade w = elim (Bool-cases is_live) [
    | inl e ↦ rw e (cancel_resting-trades ops account trade.symbol _)
    | inr e ↦ rw e refl
  ]

  close_trade-missing :
      (ops : LiveOps D B) (is_live : Bool) (instrument : InstrumentSpec D) (account : ℕ)
      (closed : ClosedSimTrade D) (w : TradeWorld D B)
      → find_open closed.trade_id account w.trades ≡ none
      → close_trade ops is_live instrument account closed w ≡ w
  unfolding close_trade
  close_trade-missing ops is_live instrument account closed w e = ground arith

  close_trade-found :
      (ops : LiveOps D B) (is_live : Bool) (instrument : InstrumentSpec D) (account : ℕ)
      (closed : ClosedSimTrade D) (w : TradeWorld D B) {t : TradeRow D}
      → find_open closed.trade_id account w.trades ≡ some t
      → (change : TradeRow D → TradeRow D) × IsClosing change
        × ((close_trade ops is_live instrument account closed w).trades
            ≡ update_trade closed.trade_id change w.trades)
  unfolding close_trade
  close_trade-found ops is_live instrument account closed w {t} e =
      let rows = close_found-trades ops is_live instrument account closed t w in
      let (same, _) = find_open-id closed.trade_id account w.trades e in
      (
        change_of ops instrument closed t w,
        close_change-IsClosing instrument closed t
            (get_or (excursion_of t.id w.excursions) no_excursion)
            (try_read_real_closed_trade ops t w).0,
        rw (e, close_trade, rows, same) refl,
      )

  pub find_open-close_trade :
      (ops : LiveOps D B) (is_live : Bool) (instrument : InstrumentSpec D) (account : ℕ)
      (closed : ClosedSimTrade D) (w : TradeWorld D B)
      → find_open closed.trade_id account
          (close_trade ops is_live instrument account closed w).trades
        ≡ none
  find_open-close_trade ops is_live instrument account closed w =
      elim (Option-cases (find_open closed.trade_id account w.trades)) [
        | inl e ↦ rw (close_trade-missing ops is_live instrument account closed w e) e
        | inr (t, e) ↦
            let (change, closing, rows) =
              close_trade-found ops is_live instrument account closed w e in
            rw rows (find_open-update_trade closed.trade_id account change w.trades closing)
      ]

  -- After a close the trade is not open any more, so a second close of it changes nothing: neither the
  -- rows nor the excursions nor the broker.
  pub close_trade-close_trade :
      (ops ops' : LiveOps D B) (is_live is_live' : Bool) (instrument instrument' : InstrumentSpec D)
      (account : ℕ) (closed closed' : ClosedSimTrade D) (w : TradeWorld D B)
      → closed'.trade_id ≡ closed.trade_id
      → let after = close_trade ops is_live instrument account closed w in
        (find_open closed.trade_id account after.trades ≡ none)
        × (close_trade ops' is_live' instrument' account closed' after ≡ after)
  close_trade-close_trade ops ops' is_live is_live' instrument instrument' account closed closed' w
        same =
      let gone = find_open-close_trade ops is_live instrument account closed w in
      (gone, close_trade-missing ops' is_live' instrument' account closed' _ (rw same gone))

  -- A close changes no row of another trade.
  pub close_trade-find_trade :
      (ops : LiveOps D B) (is_live : Bool) (instrument : InstrumentSpec D) (account : ℕ)
      (closed : ClosedSimTrade D) (w : TradeWorld D B) (j : ℕ)
      → closed.trade_id ≢ j
      → find_trade j (close_trade ops is_live instrument account closed w).trades
        ≡ find_trade j w.trades
  close_trade-find_trade ops is_live instrument account closed w j ne =
      elim (Option-cases (find_open closed.trade_id account w.trades)) [
        | inl e ↦ rw (close_trade-missing ops is_live instrument account closed w e) refl
        | inr (t, e) ↦
            let (change, closing, rows) =
              close_trade-found ops is_live instrument account closed w e in
            rw rows (find_trade-update_trade closed.trade_id j change w.trades closing ne)
      ]

  pub find_open-reconcile :
      (ops : LiveOps D B) (now account : ℕ) (trade : TradeRow D) (w : TradeWorld D B)
      → find_open trade.id account (reconcile_broker_flat_trade ops now trade w).trades ≡ none
  unfolding reconcile_broker_flat_trade
  find_open-reconcile ops now account trade w =
      find_open-update_trade trade.id account _ w.trades
        (reconcile_change-IsClosing now trade (try_read_real_closed_trade ops trade w).0)
