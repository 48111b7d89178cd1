-- ===== src/MarketData/MinuteBars/Bounds.antt =====
-- The bars of backend/src/marketData/minuteBarAggregator.ts are well formed.
use tera_trade.Prelude.{
  All, ap, ◌∙◌, ltb, ◌==◌, ◌*◌, ◌/◌, ℕ, ◌≡◌, ◌<◌, ◌+◌, ◌-◌, ◌⊎◌, inl, inr, refl, Bool-cases, Option,
  some, none, List, [], ◌∷◌, arith,
}
use tera_trade.Number.{Number, IsOrdered, abs, minus, divided_by, of_nat, ◌≼◌, ◌≺◌}
use tera_trade.MarketData.MinuteBars.{
  InProgressBar, Accepted, PendingOutlier, Aggregator, Tick, Screening, dropped, accepted, screen,
  screen_outlier, confirm_count, fold_tick, new_bar, grown_bar, accept_tick, after_screening,
  add_tick, max_tick_pct_move, max_rejection_duration_ms,
}

module _ {D : Type 0} ⦃n : Number D⦄ where
  -- Open and close between low and high.
  abbrev pub IsBar : InProgressBar D → Type 0
  IsBar b =
      (b.low ≼ b.open_price) × (b.open_price ≼ b.high) × (b.low ≼ b.close) × (b.close ≼ b.high)

  abbrev pub IsBarOrNone : Option (InProgressBar D) → Type 0
  IsBarOrNone none = Unit
  IsBarOrNone (some b) = IsBar b

  -- More than five percent away from a positive price.
  abbrev pub IsImplausible : D → Accepted D → Type 0
  IsImplausible price last =
      (of_nat 0 ≺ last.price)
      × (max_tick_pct_move ≺ divided_by (abs (minus price last.price)) last.price)

  abbrev pub with_bar : Option (InProgressBar D) → List (InProgressBar D) → List (InProgressBar D)
  with_bar none bars = bars
  with_bar (some b) bars = b ∷ bars

  -- The state after a sequence of ticks, and the bars that they complete.
  pub run_ticks : List (Tick D) → Aggregator D → Aggregator D × List (InProgressBar D)
  run_ticks [] a = (a, [])
  run_ticks (t ∷ ts) a =
      let (next, completed) = add_tick t a in
      let (last, bars) = run_ticks ts next in (last, with_bar completed bars)

  All-with :
      (o : Option (InProgressBar D)) (bars : List (InProgressBar D))
      → IsBarOrNone o
      → All IsBar bars
      → All IsBar (with_bar o bars)
  All-with none bars h k = k
  All-with (some b) bars h k = (h, k)

  module _ (laws : IsOrdered D) where
    new_bar-IsBar : (t : Tick D) (k : ℕ) → IsBar (new_bar t k)
    unfolding new_bar
    new_bar-IsBar t k = ground (arith, laws.lte_total t.price t.price)

    grown_bar-IsBar : (t : Tick D) (b : InProgressBar D) → IsBar b → IsBar (grown_bar t b)
    unfolding grown_bar
    grown_bar-IsBar t b h = ground (
      arith,
      laws.lte_total t.price t.price,
      laws.lte_total b.high t.price,
      laws.lte_total b.low t.price,
      laws.lte_trans b.open_price b.high t.price,
      laws.lte_trans t.price b.low b.open_price,
    )

    fold_tick-IsBar :
        (t : Tick D) (o : Option (InProgressBar D))
        → IsBarOrNone o
        → IsBar (fold_tick t o).0 × IsBarOrNone (fold_tick t o).1
    unfolding fold_tick
    fold_tick-IsBar t none h = (new_bar-IsBar t (t.time / 60_000 * 60_000), tt)
    fold_tick-IsBar t (some b) h = elim (Bool-cases (b.minute_key == t.time / 60_000 * 60_000)) [
      | inl same ↦ rw same (grown_bar-IsBar t b h, tt)
      | inr other ↦ rw other (new_bar-IsBar t (t.time / 60_000 * 60_000), h)
    ]

    after_screening-IsBar :
        (t : Tick D) (v : Screening D) (a : Aggregator D)
        → IsBarOrNone a.current
        → let (next, completed) = after_screening t v a in
          IsBarOrNone next.current × IsBarOrNone completed
    unfolding after_screening accept_tick
    after_screening-IsBar t (dropped pending) a h = (h, tt)
    after_screening-IsBar t (accepted pending) a h = fold_tick-IsBar t a.current h

    add_tick-IsBar :
        (t : Tick D) (a : Aggregator D)
        → IsBarOrNone a.current
        → let (next, completed) = add_tick t a in IsBarOrNone next.current × IsBarOrNone completed
    unfolding add_tick
    add_tick-IsBar t a h =
        after_screening-IsBar t (screen t.price t.time a.last_accepted a.pending_outlier) a h

    -- From a state whose bar in progress, if any, is well formed, every sequence of ticks completes only
    -- bars whose open and close lie between their low and high, and leaves such a bar in progress.
    pub run_ticks-IsBar :
        (ts : List (Tick D)) (a : Aggregator D)
        → IsBarOrNone a.current
        → let (next, completed) = run_ticks ts a in IsBarOrNone next.current × All IsBar completed
    unfolding run_ticks
    run_ticks-IsBar [] a h = (h, tt)
    run_ticks-IsBar (t ∷ ts) a h =
        let (now, done) = add_tick-IsBar t a h in
        let (last, rest) = run_ticks-IsBar ts (add_tick t a).0 now in
        (last, All-with (add_tick t a).1 (run_ticks ts (add_tick t a).0).1 done rest)

  screen_dropped :
      (price : D) (time : ℕ) (last : Accepted D) (pending : Option (PendingOutlier D))
      → IsImplausible price last
      → (time < last.accepted_at + max_rejection_duration_ms) ⊎ (pending ≡ none)
      → (p : Option (PendingOutlier D)) × (screen price time (some last) pending ≡ dropped p)
  unfolding screen screen_outlier confirm_count
  screen_dropped price time last none h k =
      elim (Bool-cases (ltb (time - last.accepted_at) max_rejection_duration_ms)) [
        | inl young ↦ (none, ground arith)
        | inr old ↦ (some record { price = price; count = 1 }, ground arith)
      ]
  screen_dropped price time last (some q) h k = (some q, ground arith)

  after_dropped :
      (t : Tick D) (v : Screening D) (a : Aggregator D) {p : Option (PendingOutlier D)}
      → v ≡ dropped p
      → let (next, completed) = after_screening t v a in
        (next.current ≡ a.current) × (next.last_accepted ≡ a.last_accepted) × (completed ≡ none)
  unfolding after_screening
  after_dropped t (dropped q) a e = (refl, refl, refl)
  after_dropped t (accepted q) a e = ground arith

  -- A tick more than five percent away from the last accepted price changes no bar and is not accepted,
  -- where that price is less than two minutes old or no outlier is awaiting confirmation.
  pub add_tick_rejects :
      (t : Tick D) (a : Aggregator D) {last : Accepted D}
      → a.last_accepted ≡ some last
      → IsImplausible t.price last
      → (t.time < last.accepted_at + max_rejection_duration_ms) ⊎ (a.pending_outlier ≡ none)
      → let (next, completed) = add_tick t a in
        (next.current ≡ a.current) × (next.last_accepted ≡ a.last_accepted) × (completed ≡ none)
  unfolding add_tick
  add_tick_rejects t a {last} e far k =
      let (p, drop) = screen_dropped t.price t.time last a.pending_outlier far k in
      after_dropped t (screen t.price t.time a.last_accepted a.pending_outlier) a
        (ap (λ o. screen t.price t.time o a.pending_outlier) e ∙ drop)
