-- ===== src/Analytics/OpeningRange/Counts.antt =====
-- The counters that `computeOpeningRangeStats` of backend/src/analytics/openingRange.ts divides.
use tera_trade.Prelude.{Bool, List, [], arith, false, true, ℕ, ◌+◌, ◌∷◌, ◌≡◌, ◌≤◌}
use tera_trade.Analytics.OpeningRange.{
  BreakCounts, SessionBars, WallClock, count_breaks, count_sessions, count_split, counted,
}
use tera_trade.Number.{Number}
use tera_trade.Market.{OhlcBar}

abbrev pub IsBalanced : BreakCounts → Type 0
IsBalanced c =
    (c.sessions_analyzed + c.both_broken ≡ c.high_broken + c.low_broken + c.neither_broken)
    × (c.both_broken ≤ c.high_broken)
    × (c.both_broken ≤ c.low_broken)

count_breaks-IsBalanced :
    (high low : Bool) (c : BreakCounts) → IsBalanced c → IsBalanced (count_breaks high low c)
unfolding count_breaks counted
count_breaks-IsBalanced true true c h = ground (arith, h)
count_breaks-IsBalanced true false c h = ground (arith, h)
count_breaks-IsBalanced false true c h = ground (arith, h)
count_breaks-IsBalanced false false c h = ground (arith, h)

module _ {D : Type 0} ⦃n : Number D⦄ where
  count_split-IsBalanced :
      (opening later : List (OhlcBar D)) (c : BreakCounts)
      → IsBalanced c
      → IsBalanced (count_split opening later c)
  unfolding count_split
  count_split-IsBalanced [] later c h = h
  count_split-IsBalanced (o ∷ opening) [] c h = h
  count_split-IsBalanced (o ∷ opening) (l ∷ later) c h = count_breaks-IsBalanced _ _ c h

  -- From balanced counters the loop ends with balanced ones: the analyzed sessions and those that broke
  -- both sides add up to the breaks of each side and the sessions that broke neither, and no more
  -- sessions broke both sides than broke the high, or the low.
  pub count_sessions-IsBalanced :
      (clock : ℕ → WallClock) (open_minutes range_minutes : ℕ) (sessions : List (SessionBars D))
      (c : BreakCounts)
      → IsBalanced c
      → IsBalanced (count_sessions clock open_minutes range_minutes sessions c)
  unfolding count_sessions
  count_sessions-IsBalanced clock open_minutes range_minutes [] c h = h
  count_sessions-IsBalanced clock open_minutes range_minutes (s ∷ sessions) c h =
      count_sessions-IsBalanced clock open_minutes range_minutes sessions _
        (count_split-IsBalanced _ _ c h)
