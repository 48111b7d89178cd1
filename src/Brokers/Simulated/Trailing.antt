-- ===== src/Brokers/Simulated/Trailing.antt =====
-- The trailing stop of backend/src/brokers/simulatedBroker.ts only tightens.
use tera_trade.Prelude.{subst, ◌∙◌, ℕ, ◌≡◌, refl, Option, some, none, List, [], ◌∷◌, arith}
use tera_trade.Number.{Number, IsOrdered, plus, minus, times, larger, smaller, of_nat, ◌≼◌}
use tera_trade.Brokers.Types.{OrderSide, buy, sell}
use tera_trade.Brokers.Simulated.{
  Key, SimBracket, SimulatedBroker, get, trailed, trailed_if, update_bracket, update_in,
  update_trailing_stop,
}

module _ {D : Type 0} ⦃n : Number D⦄ where
  -- The second stop is no looser than the first: not lower for a buy, not higher for a sell.
  abbrev pub IsNoLooser : OrderSide → D → D → Type 0
  IsNoLooser buy stop stop' = stop ≼ stop'
  IsNoLooser sell stop stop' = stop' ≼ stop

  -- The broker after a sequence of prices.
  pub after_prices : Key → List D → SimulatedBroker D → SimulatedBroker D
  after_prices key [] b = b
  after_prices key (p ∷ ps) b = after_prices key ps (update_trailing_stop key p b)

  module _ (laws : IsOrdered D) where
    trailed_lem :
        (side : OrderSide) (ticks : ℕ) (p : D) (b : SimBracket D)
        → ((trailed side ticks p b).side ≡ b.side)
          × IsNoLooser side b.stop_price (trailed side ticks p b).stop_price
    unfolding trailed
    trailed_lem buy ticks p b = ground (
      arith,
      laws.lte_total b.stop_price b.stop_price,
      laws.lte_total b.stop_price
          (minus (larger b.highest_favorable p) (times b.tick_size (of_nat ticks))),
    )
    trailed_lem sell ticks p b = ground (
      arith,
      laws.lte_total b.stop_price b.stop_price,
      laws.lte_total b.stop_price
          (plus (smaller b.highest_favorable p) (times b.tick_size (of_nat ticks))),
    )

    IsNoLooser-refl : (side : OrderSide) (stop : D) → IsNoLooser side stop stop
    IsNoLooser-refl buy stop = ground (arith, laws.lte_total stop stop)
    IsNoLooser-refl sell stop = ground (arith, laws.lte_total stop stop)

    IsNoLooser-trans :
        (side : OrderSide) (a b c : D)
        → IsNoLooser side a b
        → IsNoLooser side b c
        → IsNoLooser side a c
    IsNoLooser-trans buy a b c h k = laws.lte_trans a b c h k
    IsNoLooser-trans sell a b c h k = laws.lte_trans c b a k h

    trailed_if_lem :
        (o : Option ℕ) (p : D) (b : SimBracket D)
        → ((trailed_if o p b).side ≡ b.side)
          × IsNoLooser b.side b.stop_price (trailed_if o p b).stop_price
    unfolding trailed_if
    trailed_if_lem none p b = (refl, IsNoLooser-refl b.side b.stop_price)
    trailed_if_lem (some ticks) p b = trailed_lem b.side ticks p b

    get-update_in :
        (key : Key) (p : D) (m : List (Key × SimBracket D)) {v : SimBracket D}
        → get key m ≡ some v
        → get key (update_in key p m) ≡ some (update_bracket p v)
    unfolding get update_in
    get-update_in key p [] e = cc
    get-update_in key p ((j, w) ∷ m) {v} e = ground (arith, get-update_in key p m {v = v})

    -- Over any sequence of prices the bracket stays, on the side that it was opened on, and its stop is
    -- never lowered for a buy and never raised for a sell.
    pub update_trailing_stop-IsNoLooser :
        (key : Key) (prices : List D) (b : SimulatedBroker D) {v : SimBracket D}
        → get key b.brackets ≡ some v
        → (w : SimBracket D) × (get key (after_prices key prices b).brackets ≡ some w)
          × (w.side ≡ v.side)
          × IsNoLooser v.side v.stop_price w.stop_price
    unfolding update_trailing_stop update_bracket after_prices
    update_trailing_stop-IsNoLooser key [] b {v} e =
        (v, e, refl, IsNoLooser-refl v.side v.stop_price)
    update_trailing_stop-IsNoLooser key (p ∷ ps) b {v} e =
        let one = trailed_if_lem v.trail_ticks p v in
        let (w, found, side, later) =
          update_trailing_stop-IsNoLooser key ps (update_trailing_stop key p b)
            (get-update_in key p b.brackets e) in
        let now = update_bracket p v in
        let tighter = subst (λ s. IsNoLooser s now.stop_price w.stop_price) one.0 later in
        (
          w,
          found,
          side ∙ one.0,
          IsNoLooser-trans v.side v.stop_price now.stop_price w.stop_price one.1 tighter,
        )
