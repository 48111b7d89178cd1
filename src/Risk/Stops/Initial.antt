-- ===== src/Risk/Stops/Initial.antt =====
-- On which side of the entry the initial stop and target of backend/src/risk/stops.ts stand.
use tera_trade.Prelude.{
  ◌≢◌, drop, length, ◌-◌, refl, ℕ, ◌≡◌, ◌≢◌, refl, Option, some, none, get_or, List, [], ◌∷◌, arith,
  inl, ◌⊎◌,
}
use tera_trade.Number.{
  Number, IsOrdered, IsExact, minus, times, abs, of_nat, decimal, IsPositive, IsNonneg, ◌≼◌, ◌≺◌,
}
use tera_trade.Market.{Side, long, short, OhlcBar}
use tera_trade.Risk.Stops.{
  trail_ticks_of, aggregate_to_five_minute_candles, swing_candle_count, stop_plan_of, StopOptions,
  SwingPlan, StopBasis, swing, compute_swing_based_plan, optional_swing_plan, compute_initial_stop,
  swing_plan_from, structure_or_atr_stop, ahead, behind,
}

module _ {D : Type 0} ⦃n : Number D⦄ where
  -- A stop stands strictly behind the entry, seen in the trade's direction, and a target not behind.
  abbrev pub IsBehind : Side → D → D → Type 0
  IsBehind long entry level = level ≺ entry
  IsBehind short entry level = entry ≺ level

  abbrev pub IsAhead : Side → D → D → Type 0
  IsAhead long entry target = entry ≼ target
  IsAhead short entry target = target ≼ entry

  abbrev pub atr_stop_distance_of : D → StopOptions D → D
  atr_stop_distance_of atr_value opts = times atr_value (get_or opts.atr_multiplier (decimal 15 1))

  ahead-IsAhead :
      IsOrdered D
      → (side : Side) (entry d : D) → IsNonneg d
      → IsAhead side entry (ahead side entry d)
  ahead-IsAhead laws long entry d h = laws.le-plus entry d h
  ahead-IsAhead laws short entry d h = laws.minus-le entry d h

  behind-IsBehind :
      IsExact D
      → (side : Side) (entry d : D) → IsPositive d
      → IsBehind side entry (behind side entry d)
  behind-IsBehind laws long entry d h = laws.minus_lt entry d h
  behind-IsBehind laws short entry d h = laws.plus_gt entry d h

  -- What the swing plan guarantees.
  swing_plan_from_lem :
      (laws : IsOrdered D) (entry : D) (side : Side) (r : D) (cs : List (OhlcBar D))
      {p : SwingPlan D}
      → IsNonneg r
      → swing_plan_from entry side r cs ≡ some p
      → IsBehind side entry p.swing_stop_price × IsAhead side entry p.swing_take_profit_price
  unfolding swing_plan_from
  swing_plan_from_lem laws entry side r [] nr e = cc
  swing_plan_from_lem laws entry side r (c ∷ cs) {p} nr e =
      let d = abs (minus entry p.swing_stop_price) in
      let nd = laws.times_nonneg d r (laws.abs_nonneg (minus entry p.swing_stop_price)) nr in
      ground (arith, ahead-IsAhead laws side entry (times d r) nd)

  structure_or_atr_stop_tight :
      (laws : IsOrdered D) (entry : D) (side : Side) (d : D) (structure : Option D)
      → (structure_or_atr_stop entry side d structure).1 ≼ d
  unfolding structure_or_atr_stop
  structure_or_atr_stop_tight laws entry side d none = ground (arith, laws.lte_total d d)
  structure_or_atr_stop_tight laws entry side d (some s) =
      ground (arith, laws.lte_total d d, laws.lte_total (abs (minus entry s)) d)

  -- The stop stands strictly behind the entry, or is the structure price that was given, strictly nearer
  -- to the entry than the ATR distance.
  abbrev pub IsStopOf : D → Side → D → Option D → StopBasis → D → Type 0
  IsStopOf entry side d structure basis level =
      IsBehind side entry level
      ⊎ ((basis ≡ StopBasis.structure) × (structure ≡ some level) × (abs (minus entry level) ≺ d))

  structure_or_atr_stop_side :
      (laws : IsOrdered D) (exact : IsExact D) (entry : D) (side : Side) (d : D)
      (structure : Option D)
      → IsPositive d
      → let (level, distance, basis) = structure_or_atr_stop entry side d structure in
        IsStopOf entry side d structure basis level × IsNonneg distance
  unfolding structure_or_atr_stop
  structure_or_atr_stop_side laws exact entry side d none h =
      (inl (behind-IsBehind exact side entry d h), ground (arith, laws.lte_total d (of_nat 0)))
  structure_or_atr_stop_side laws exact entry side d (some s) h = ground (
    arith,
    behind-IsBehind exact side entry d h,
    laws.lte_total d (of_nat 0),
    laws.abs_nonneg (minus entry s),
  )

  optional_swing_plan_lem :
      (laws : IsOrdered D) (entry : D) (side : Side) (bars : Option (List (OhlcBar D))) (r : D)
      {p : SwingPlan D}
      → IsNonneg r
      → optional_swing_plan entry side bars r ≡ some p
      → IsBehind side entry p.swing_stop_price × IsAhead side entry p.swing_take_profit_price
  unfolding optional_swing_plan compute_swing_based_plan
  optional_swing_plan_lem laws entry side none r nr e = cc
  optional_swing_plan_lem laws entry side (some bars) r {p} nr e =
      let candles = aggregate_to_five_minute_candles bars in
      let last5 = drop (length candles - swing_candle_count) candles in
      ground (arith, swing_plan_from_lem laws entry side r last5 {p = p} nr)

  stop_plan_of_side :
      (laws : IsOrdered D) (entry : D) (side : Side) (r d : D) (structure : Option D) (ticks : ℕ)
      (fallback : D × D × StopBasis) (plan : Option (SwingPlan D))
      → IsStopOf entry side d structure fallback.2 fallback.0 × IsNonneg (fallback.1)
      → ((p : SwingPlan D)
          → plan ≡ some p
          → IsBehind side entry p.swing_stop_price × IsAhead side entry p.swing_take_profit_price)
      → IsNonneg r
      → let result = stop_plan_of entry side r ticks fallback plan in
        IsStopOf entry side d structure result.basis result.stop_price
        × IsAhead side entry result.take_profit_price
  unfolding stop_plan_of
  stop_plan_of_side laws entry side r d structure ticks (level, distance, basis) none f g nr =
      (f.0, ahead-IsAhead laws side entry (times distance r) (laws.times_nonneg distance r f.1 nr))
  stop_plan_of_side laws entry side r d structure ticks fallback (some p) f g nr =
      let (level, target) = g p refl in (inl level, target)

  -- With a positive ATR distance and an R multiple that is not negative, the planned stop stands strictly
  -- behind the entry in the direction of the trade, or the plan rests on structure and its stop is the
  -- given structure price, strictly nearer to the entry than the ATR distance; the target does not
  -- stand behind the entry, whichever basis the plan has.
  pub compute_initial_stop_side :
      (laws : IsOrdered D) (exact : IsExact D) (entry : D) (side : Side) (atr_value : D)
      (structure : Option D) (opts : StopOptions D)
      → IsPositive (atr_stop_distance_of atr_value opts)
      → IsNonneg (get_or opts.take_profit_r_multiple (decimal 30 1))
      → let plan = compute_initial_stop entry side atr_value structure opts in
        IsStopOf entry side
          (atr_stop_distance_of atr_value opts)
          structure
          plan.basis
          plan.stop_price
        × IsAhead side entry plan.take_profit_price
  unfolding compute_initial_stop
  compute_initial_stop_side laws exact entry side atr_value structure opts pd nr =
      let r = get_or opts.take_profit_r_multiple (decimal 30 1) in
      let d = atr_stop_distance_of atr_value opts in
      let fallback = structure_or_atr_stop_side laws exact entry side d structure pd in
      stop_plan_of_side laws entry side r d structure (trail_ticks_of atr_value opts)
        (structure_or_atr_stop entry side d structure)
        (optional_swing_plan entry side opts.recent_bars r) fallback
        (λ p found. optional_swing_plan_lem laws entry side opts.recent_bars r nr found) nr

  stop_plan_of_tight :
      (entry : D) (side : Side) (r d : D) (ticks : ℕ) (fallback : D × D × StopBasis)
      (plan : Option (SwingPlan D))
      → fallback.1 ≼ d
      → let result = stop_plan_of entry side r ticks fallback plan in
        result.basis ≢ swing
        → (result.stop_distance_points ≼ d)
          × (result.take_profit_price ≡ ahead side entry (times result.stop_distance_points r))
  unfolding stop_plan_of
  stop_plan_of_tight entry side r d ticks (level, distance, basis) none h ne = (h, refl)
  stop_plan_of_tight entry side r d ticks fallback (some p) h ne = absurd (ne refl)

  -- A plan that does not rest on a swing never risks more points than the ATR distance, and its target
  -- stands at the R multiple of the distance that it does risk.
  pub compute_initial_stop_tight :
      (laws : IsOrdered D) (entry : D) (side : Side) (atr_value : D) (structure : Option D)
      (opts : StopOptions D)
      → (compute_initial_stop entry side atr_value structure opts).basis ≢ swing
      → let plan = compute_initial_stop entry side atr_value structure opts in
        (plan.stop_distance_points ≼ atr_stop_distance_of atr_value opts)
        × (plan.take_profit_price
            ≡ ahead side entry (
                times plan.stop_distance_points
                  (get_or opts.take_profit_r_multiple (decimal 30 1))))
  unfolding compute_initial_stop
  compute_initial_stop_tight laws entry side atr_value structure opts ne =
      let r = get_or opts.take_profit_r_multiple (decimal 30 1) in
      let d = atr_stop_distance_of atr_value opts in
      stop_plan_of_tight entry side r d (trail_ticks_of atr_value opts)
        (structure_or_atr_stop entry side d structure)
        (optional_swing_plan entry side opts.recent_bars r)
        (structure_or_atr_stop_tight laws entry side d structure) ne

  -- A structure price within the ATR distance is taken as the stop without a check of its side: with no
  -- swing plan, a long whose structure price is not below the entry gets a stop that is not below it,
  -- and likewise a short.
  pub compute_initial_stop_wrong_side :
      (entry : D) (side : Side) (atr_value s : D) (opts : StopOptions D)
      → optional_swing_plan entry side opts.recent_bars
          (get_or opts.take_profit_r_multiple (decimal 30 1))
        ≡ none
      → of_nat 0 ≺ abs (minus entry s)
      → abs (minus entry s) ≺ atr_stop_distance_of atr_value opts
      → ¬ IsBehind side entry s
      → let plan = compute_initial_stop entry side atr_value (some s) opts in
        (plan.basis ≡ StopBasis.structure) × ¬ IsBehind side entry plan.stop_price
  unfolding compute_initial_stop structure_or_atr_stop stop_plan_of
  compute_initial_stop_wrong_side entry side atr_value s opts missing positive near wrong =
      rw (missing, stop_plan_of, positive, near) (refl, wrong)
