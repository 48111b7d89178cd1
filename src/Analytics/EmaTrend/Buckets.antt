-- ===== src/Analytics/EmaTrend/Buckets.antt =====
-- The bars of `aggregateBars`, of backend/src/analytics/intradayEmaProximity.ts.
use tera_trade.Number.{Number, IsOrdered, ◌≼◌}
use tera_trade.Prelude.{
  All, Any, Bool-cases, List, [], arith, inl, inr, leb, ℕ, ◌*◌, ◌<◌, ◌==◌, ◌∷◌, ◌≡◌, ◌≢◌, refl, ◌∙◌,
}
use tera_trade.Market.{OhlcBar}
use tera_trade.Analytics.EmaTrend.{
  aggregate_bars, bucket_start, insert_bar, merge_bucket, put_bar, put_bars, sort_bars,
}

module _ {D : Type 0} where
  -- The times of the list ascend, and all are later than the bound, if there is one.
  abbrev pub IsChronological : List (OhlcBar D) → Type 0
  IsChronological [] = Unit
  IsChronological (b ∷ bars) = All (λ c. b.time < c.time) bars × IsChronological bars

  -- No two bars of the list have the same time.
  abbrev pub IsDistinct : List (OhlcBar D) → Type 0
  IsDistinct [] = Unit
  IsDistinct (b ∷ bars) = All (λ c. c.time ≢ b.time) bars × IsDistinct bars

module _ {D : Type 0} ⦃n : Number D⦄ where
  abbrev pub IsHolding : ℕ → OhlcBar D → OhlcBar D → Type 0
  IsHolding key bar b = (b.time ≡ key) × (bar.high ≼ b.high) × (b.low ≼ bar.low)

  insert_bar-All :
      (P : OhlcBar D → Type 0) (x : OhlcBar D) (xs : List (OhlcBar D))
      → P x
      → All P xs
      → All P (insert_bar x xs)
  unfolding insert_bar
  insert_bar-All P x [] p h = (p, tt)
  insert_bar-All P x (y ∷ ys) p h = elim (Bool-cases (leb x.time y.time)) [
    | inl e ↦ ground (arith, p, h)
    | inr e ↦ ground (arith, insert_bar-All P x ys p h.1)
  ]

  insert_bar-Any :
      (P : OhlcBar D → Type 0) (x : OhlcBar D) (xs : List (OhlcBar D))
      → Any P (x ∷ xs)
      → Any P (insert_bar x xs)
  unfolding insert_bar
  insert_bar-Any P x [] h = h
  insert_bar-Any P x (y ∷ ys) (inl h) = elim (Bool-cases (leb x.time y.time)) [
    | inl e ↦ ground (arith, h)
    | inr e ↦ ground (arith, insert_bar-Any P x ys (inl h))
  ]
  insert_bar-Any P x (y ∷ ys) (inr (inl h)) = ground (arith, h)
  insert_bar-Any P x (y ∷ ys) (inr (inr h)) = elim (Bool-cases (leb x.time y.time)) [
    | inl e ↦ ground (arith, h)
    | inr e ↦ ground (arith, insert_bar-Any P x ys (inr h))
  ]

  sort_bars-All : (P : OhlcBar D → Type 0) (xs : List (OhlcBar D)) → All P xs → All P (sort_bars xs)
  unfolding sort_bars
  sort_bars-All P [] h = tt
  sort_bars-All P (x ∷ xs) h = insert_bar-All P x (sort_bars xs) h.0 (sort_bars-All P xs h.1)

  sort_bars-Any : (P : OhlcBar D → Type 0) (xs : List (OhlcBar D)) → Any P xs → Any P (sort_bars xs)
  unfolding sort_bars
  sort_bars-Any P [] h = absurd h
  sort_bars-Any P (x ∷ xs) (inl h) = insert_bar-Any P x (sort_bars xs) (inl h)
  sort_bars-Any P (x ∷ xs) (inr h) = insert_bar-Any P x (sort_bars xs) (inr (sort_bars-Any P xs h))

  later_lem :
      (x y : OhlcBar D) (ys : List (OhlcBar D))
      → x.time < y.time
      → All (λ c. y.time < c.time) ys
      → All (λ c. x.time < c.time) ys
  later_lem x y [] e h = tt
  later_lem x y (z ∷ ys) e h = (omega (arith, e, h.0), later_lem x y ys e h.1)

  insert_bar-IsChronological :
      (x : OhlcBar D) (xs : List (OhlcBar D))
      → All (λ c. c.time ≢ x.time) xs
      → IsChronological xs
      → IsChronological (insert_bar x xs)
  unfolding insert_bar
  insert_bar-IsChronological x [] d h = (tt, tt)
  insert_bar-IsChronological x (y ∷ ys) d h = elim (Bool-cases (leb x.time y.time)) [
    | inl e ↦
        let earlier : x.time < y.time = ground (arith, d.0, e) in
        ground (arith, earlier, later_lem x y ys earlier h.0, h)
    | inr e ↦
        let after : y.time < x.time = ground (arith, e) in
        ground (
          arith,
          insert_bar-All (λ c. y.time < c.time) x ys after h.0,
          insert_bar-IsChronological x ys d.1 h.1,
        )
  ]

  sort_bars-IsChronological :
      (xs : List (OhlcBar D)) → IsDistinct xs → IsChronological (sort_bars xs)
  unfolding sort_bars
  sort_bars-IsChronological [] h = tt
  sort_bars-IsChronological (x ∷ xs) h =
      insert_bar-IsChronological x (sort_bars xs) (sort_bars-All (λ c. c.time ≢ x.time) xs h.0)
        (sort_bars-IsChronological xs h.1)

  put_bar-All :
      (P : ℕ → Type 0) (key : ℕ) (bar : OhlcBar D) (bs : List (OhlcBar D))
      → P key
      → All (λ b. P b.time) bs
      → All (λ b. P b.time) (put_bar key bar bs)
  unfolding put_bar merge_bucket
  put_bar-All P key bar [] p h = (p, tt)
  put_bar-All P key bar (b ∷ bs) p h = elim (Bool-cases (b.time == key)) [
    | inl e ↦ ground (arith, p, h)
    | inr e ↦ ground (arith, put_bar-All P key bar bs p h.1)
  ]

  put_bar-IsDistinct :
      (key : ℕ) (bar : OhlcBar D) (bs : List (OhlcBar D))
      → IsDistinct bs
      → IsDistinct (put_bar key bar bs)
  unfolding put_bar merge_bucket
  put_bar-IsDistinct key bar [] h = (tt, tt)
  put_bar-IsDistinct key bar (b ∷ bs) h = elim (Bool-cases (b.time == key)) [
    | inl e ↦ ground (arith, h)
    | inr e ↦
        let other : key ≢ b.time = λ k. ground (arith, e, k) in
        ground (
          arith,
          put_bar-All (λ t. t ≢ b.time) key bar bs other h.0,
          put_bar-IsDistinct key bar bs h.1,
        )
  ]

  put_bars-IsDistinct :
      (span : ℕ) (bars bs : List (OhlcBar D)) → IsDistinct bs → IsDistinct (put_bars span bars bs)
  unfolding put_bars
  put_bars-IsDistinct span [] bs h = h
  put_bars-IsDistinct span (bar ∷ bars) bs h =
      put_bars-IsDistinct span bars _ (put_bar-IsDistinct (bucket_start span bar) bar bs h)

  module _ (laws : IsOrdered D) where
    open laws use {lte_total, lte_trans}

    merge_bucket_lem :
        (bar b : OhlcBar D)
        → let m = merge_bucket bar b in
          (m.time ≡ b.time)
          × (b.high ≼ m.high)
          × (m.low ≼ b.low)
          × (bar.high ≼ m.high)
          × (m.low ≼ bar.low)
    unfolding merge_bucket
    merge_bucket_lem bar b = ground (
      arith,
      lte_total b.high b.high,
      lte_total bar.high bar.high,
      lte_total b.high bar.high,
      lte_total b.low b.low,
      lte_total bar.low bar.low,
      lte_total b.low bar.low,
    )

    put_bar-IsHolding :
        (key : ℕ) (bar : OhlcBar D) (bs : List (OhlcBar D))
        → Any (IsHolding key bar) (put_bar key bar bs)
    unfolding put_bar
    put_bar-IsHolding key bar [] = inl (
      refl,
      ground (arith, lte_total bar.high bar.high),
      ground (arith, lte_total bar.low bar.low),
    )
    put_bar-IsHolding key bar (b ∷ bs) = elim (Bool-cases (b.time == key)) [
      | inl e ↦ ground (arith, e, merge_bucket_lem bar b)
      | inr e ↦ ground (arith, put_bar-IsHolding key bar bs)
    ]

    put_bar_keeps :
        (key k : ℕ) (bar c : OhlcBar D) (bs : List (OhlcBar D))
        → Any (IsHolding k c) bs
        → Any (IsHolding k c) (put_bar key bar bs)
    unfolding put_bar
    put_bar_keeps key k bar c [] h = absurd h
    put_bar_keeps key k bar c (b ∷ bs) (inl (same, high, low)) =
        let (time, up, down, high_bar, low_bar) = merge_bucket_lem bar b in
        let kept : IsHolding k c (merge_bucket bar b) =
          (time ∙ same, lte_trans _ _ _ high up, lte_trans _ _ _ down low) in
        elim (Bool-cases (b.time == key)) [
          | inl e ↦ ground (arith, kept)
          | inr e ↦ ground (arith, same, high, low)
        ]
    put_bar_keeps key k bar c (b ∷ bs) (inr h) = elim (Bool-cases (b.time == key)) [
      | inl e ↦ ground (arith, h)
      | inr e ↦ ground (arith, put_bar_keeps key k bar c bs h)
    ]

    put_bars_keeps :
        (span k : ℕ) (bars : List (OhlcBar D)) (c : OhlcBar D) (bs : List (OhlcBar D))
        → Any (IsHolding k c) bs
        → Any (IsHolding k c) (put_bars span bars bs)
    unfolding put_bars
    put_bars_keeps span k [] c bs h = h
    put_bars_keeps span k (bar ∷ bars) c bs h =
        put_bars_keeps span k bars c _ (put_bar_keeps (bucket_start span bar) k bar c bs h)

    put_bars-IsHolding :
        (span : ℕ) (bars bs : List (OhlcBar D))
        → All (λ bar. Any (IsHolding (bucket_start span bar) bar) (put_bars span bars bs)) bars
    unfolding put_bars
    put_bars-IsHolding span [] bs = tt
    put_bars-IsHolding span (bar ∷ bars) bs = (
      put_bars_keeps span (bucket_start span bar) bars bar _
          (put_bar-IsHolding (bucket_start span bar) bar bs),
      put_bars-IsHolding span bars (put_bar (bucket_start span bar) bar bs),
    )

    sorted_lem :
        (span : ℕ) (bars bs : List (OhlcBar D))
        → All (λ bar. Any (IsHolding (bucket_start span bar) bar) bs) bars
        → All (λ bar. Any (IsHolding (bucket_start span bar) bar) (sort_bars bs)) bars
    sorted_lem span [] bs h = tt
    sorted_lem span (bar ∷ bars) bs h =
        (sort_bars-Any (IsHolding (bucket_start span bar) bar) bs h.0, sorted_lem span bars bs h.1)

    -- The times of the aggregated bars ascend without repetition, and each bar of the input has its bucket
    -- among them: the one whose time is the bar's rounded down, and whose range holds the bar's range.
    pub aggregate_bars-IsHolding :
        (bars : List (OhlcBar D)) (minutes : ℕ)
        → IsChronological (aggregate_bars bars minutes)
          × All
              (λ bar.
                Any
                  (IsHolding (bucket_start (minutes * 60000) bar) bar)
                  (aggregate_bars bars minutes))
              bars
    unfolding aggregate_bars
    aggregate_bars-IsHolding bars minutes = (
      sort_bars-IsChronological (put_bars (minutes * 60000) bars [])
          (put_bars-IsDistinct (minutes * 60000) bars [] tt),
      sorted_lem (minutes * 60000) bars (put_bars (minutes * 60000) bars [])
          (put_bars-IsHolding (minutes * 60000) bars []),
    )
