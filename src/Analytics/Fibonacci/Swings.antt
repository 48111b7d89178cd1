-- ===== src/Analytics/Fibonacci/Swings.antt =====
-- What `findSwing` of backend/src/analytics/fibonacci.ts finds.
use tera_trade.Number.{Number, IsOrdered, gt, lt, ◌≼◌}
use tera_trade.Prelude.{
  All, Any, List, [], arith, if◌then◌else◌, refl, some, suc, ℕ, ◌∷◌, ◌≡◌, ◌⊎◌, Any-extend,
}
use tera_trade.Market.{OhlcBar}
use tera_trade.Analytics.Fibonacci.{Swing, SwingScan, find_swing, swing_from, swing_of, swing_step}

module _ {D : Type 0} ⦃n : Number D⦄ where
  -- The swing's high and low are those of bars of the list, and bound every bar of it.
  abbrev pub IsSwingOf : List (OhlcBar D) → D → D → Type 0
  IsSwingOf bars high low =
      Any (λ b. b.high ≡ high) bars
      × Any (λ b. b.low ≡ low) bars
      × All (λ b. (b.high ≼ high) × (low ≼ b.low)) bars

  module _ (laws : IsOrdered D) where
    open laws use {lte_total, lte_trans}

    raised_lem :
        (a x : D) → let t = if gt x a then x else a in (a ≼ t) × (x ≼ t) × ((a ≡ t) ⊎ (x ≡ t))
    raised_lem a x = ground (arith, lte_total a a, lte_total x x, lte_total a x)

    lowered_lem :
        (a x : D) → let t = if lt x a then x else a in (t ≼ a) × (t ≼ x) × ((a ≡ t) ⊎ (x ≡ t))
    lowered_lem a x = ground (arith, lte_total a a, lte_total x x, lte_total a x)

    swing_from_lem :
        (i : ℕ) (bars : List (OhlcBar D)) (s : SwingScan D)
        → let t = swing_from i bars s in
          (s.high_seen ≼ t.high_seen)
          × (t.low_seen ≼ s.low_seen)
          × All (λ b. (b.high ≼ t.high_seen) × (t.low_seen ≼ b.low)) bars
          × ((s.high_seen ≡ t.high_seen) ⊎ Any (λ b. b.high ≡ t.high_seen) bars)
          × ((s.low_seen ≡ t.low_seen) ⊎ Any (λ b. b.low ≡ t.low_seen) bars)
    unfolding swing_from swing_step
    swing_from_lem i [] s =
        ground (arith, lte_total s.high_seen s.high_seen, lte_total s.low_seen s.low_seen)
    swing_from_lem i (bar ∷ bars) s =
        let t = swing_step i bar s in
        let m = swing_from (suc i) bars t in
        let (up, down, inside, top, bottom) = swing_from_lem (suc i) bars t in
        let (high_up, high_bar, high_of) = raised_lem s.high_seen bar.high in
        let (low_down, low_bar, low_of) = lowered_lem s.low_seen bar.low in
        (
          lte_trans _ _ _ high_up up,
          lte_trans _ _ _ down low_down,
          ((lte_trans _ _ _ high_bar up, lte_trans _ _ _ down low_bar), inside),
          Any-extend (λ b. b.high) bar bars s.high_seen t.high_seen m.high_seen high_of top,
          Any-extend (λ b. b.low) bar bars s.low_seen t.low_seen m.low_seen low_of bottom,
        )

    -- There is a swing exactly of a list that is not empty; its high is the greatest high of the bars, and
    -- its low their smallest low.
    pub find_swing-IsSwingOf :
        (bar : OhlcBar D) (bars : List (OhlcBar D))
        → (s : Swing D) × (find_swing (bar ∷ bars) ≡ some s) × IsSwingOf (bar ∷ bars) s.high s.low
    unfolding find_swing swing_of
    find_swing-IsSwingOf bar bars =
        let start : SwingScan D = record {
          high_idx = 0;
          high_seen = bar.high;
          low_idx = 0;
          low_seen = bar.low;
        } in
        let (up, down, inside, top, bottom) = swing_from_lem 1 bars start in
        (swing_of (swing_from 1 bars start), refl, (top, bottom, ((up, down), inside)))
