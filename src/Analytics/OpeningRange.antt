-- ===== src/Analytics/OpeningRange.antt =====
-- backend/src/analytics/openingRange.ts: how often the later session breaks the range of its first hour.
-- The wall clock of the eastern United States, by `Intl`, is an argument.
pub mod Counts
use tera_trade.Prelude.{
  Bool, List, Option, String, [], false, filter, if◌then◌else◌, leb, ltb, map, none, not, some,
  str_eq, suc, true, zero, ℕ, ◌&&◌, ◌*◌, ◌++◌, ◌+◌, ◌||◌, ◌∷◌,
}
use tera_trade.Number.{Number, divided_by, gt, largest, lt, of_nat, smallest}
use tera_trade.Market.{OhlcBar}

pub record WallClock : Type 0 where
  pub date : String
  pub hour : ℕ
  pub minute : ℕ

pub record SessionBars (D : Type 0) : Type 0 where
  pub session_date : String
  pub bars : List (OhlcBar D)

-- The counters of the loop.
pub record BreakCounts : Type 0 where
  pub sessions_analyzed : ℕ
  pub high_broken : ℕ
  pub low_broken : ℕ
  pub both_broken : ℕ
  pub neither_broken : ℕ

pub record OpeningRangeStats (D : Type 0) : Type 0 where
  pub symbol : String
  pub analyzed : ℕ
  pub prob_high_broken : Option D
  pub prob_low_broken : Option D
  pub prob_both_broken : Option D
  pub prob_neither_broken : Option D

abbrev pub no_counts : BreakCounts
no_counts = record {
  sessions_analyzed = 0;
  high_broken = 0;
  low_broken = 0;
  both_broken = 0;
  neither_broken = 0;
}

-- RTH_CLOSE_HOUR_ET
abbrev rth_close_hour : ℕ
rth_close_hour = 16

counted : Bool → ℕ → ℕ
counted true count = suc count
counted false count = count

-- The last lines of the loop's body.
pub count_breaks : Bool → Bool → BreakCounts → BreakCounts
unfolding counted
count_breaks did_break_high did_break_low c = record {
  sessions_analyzed = suc c.sessions_analyzed;
  high_broken = counted did_break_high c.high_broken;
  low_broken = counted did_break_low c.low_broken;
  both_broken = counted (did_break_high && did_break_low) c.both_broken;
  neither_broken = counted (not did_break_high && not did_break_low) c.neither_broken;
}

minutes_of_day : WallClock → ℕ
minutes_of_day w = w.hour * 60 + w.minute

module _ {D : Type 0} where
  add_to_session : String → OhlcBar D → List (SessionBars D) → List (SessionBars D)
  add_to_session date bar [] = record { session_date = date; bars = bar ∷ [] } ∷ []
  add_to_session date bar (s ∷ sessions) =
      let rest = add_to_session date bar sessions in
      if str_eq s.session_date date
      then record s { bars = s.bars ++ (bar ∷ []) } ∷ sessions
      else s ∷ rest

  group_from : (ℕ → WallClock) → List (OhlcBar D) → List (SessionBars D) → List (SessionBars D)
  unfolding add_to_session
  group_from clock [] sessions = sessions
  group_from clock (bar ∷ bars) sessions =
      group_from clock bars (add_to_session (clock bar.time).date bar sessions)

  pub group_by_session_date : (ℕ → WallClock) → List (OhlcBar D) → List (SessionBars D)
  unfolding group_from
  group_by_session_date clock bars = group_from clock bars []

  in_opening_range : (ℕ → WallClock) → ℕ → ℕ → OhlcBar D → Bool
  unfolding minutes_of_day
  in_opening_range clock open_minutes range_minutes bar =
      let w = clock bar.time in
      not (ltb (minutes_of_day w) open_minutes || leb rth_close_hour w.hour)
      && ltb (minutes_of_day w) (open_minutes + range_minutes)

  in_later_session : (ℕ → WallClock) → ℕ → ℕ → OhlcBar D → Bool
  unfolding minutes_of_day
  in_later_session clock open_minutes range_minutes bar =
      let w = clock bar.time in
      not (ltb (minutes_of_day w) open_minutes || leb rth_close_hour w.hour)
      && not (ltb (minutes_of_day w) (open_minutes + range_minutes))

module _ {D : Type 0} ⦃n : Number D⦄ where
  highest_of : OhlcBar D → List (OhlcBar D) → D
  highest_of b bars = largest b.high (map (λ x. x.high) bars)

  lowest_of : OhlcBar D → List (OhlcBar D) → D
  lowest_of b bars = smallest b.low (map (λ x. x.low) bars)

  pub count_split : List (OhlcBar D) → List (OhlcBar D) → BreakCounts → BreakCounts
  unfolding count_breaks highest_of lowest_of
  count_split [] later c = c
  count_split (o ∷ opening) [] c = c
  count_split (o ∷ opening) (l ∷ later) c =
      count_breaks (gt (highest_of l later) (highest_of o opening))
        (lt (lowest_of l later) (lowest_of o opening)) c

  -- The loop over the sessions.
  unfoldable pub count_sessions :
      (ℕ → WallClock) → ℕ → ℕ → List (SessionBars D) → BreakCounts → BreakCounts
  unfolding count_split in_opening_range in_later_session
  count_sessions clock open_minutes range_minutes [] c = c
  count_sessions clock open_minutes range_minutes (s ∷ sessions) c =
      count_sessions clock open_minutes range_minutes sessions (
        count_split (filter (in_opening_range clock open_minutes range_minutes) s.bars)
          (filter (in_later_session clock open_minutes range_minutes) s.bars) c)

  share_of : ℕ → ℕ → Option D
  share_of count zero = none
  share_of count (suc sessions) = some (divided_by (of_nat count) (of_nat (suc sessions)))

  unfoldable pub compute_opening_range_stats :
      (ℕ → WallClock) → List (OhlcBar D) → String → ℕ → ℕ → ℕ → OpeningRangeStats D
  unfolding group_by_session_date count_sessions share_of
  compute_opening_range_stats clock bars symbol open_hour open_minute range_minutes =
      let c =
        count_sessions clock (open_hour * 60 + open_minute) range_minutes
          (group_by_session_date clock bars) no_counts in
      record {
        symbol = symbol;
        analyzed = c.sessions_analyzed;
        prob_high_broken = share_of c.high_broken c.sessions_analyzed;
        prob_low_broken = share_of c.low_broken c.sessions_analyzed;
        prob_both_broken = share_of c.both_broken c.sessions_analyzed;
        prob_neither_broken = share_of c.neither_broken c.sessions_analyzed;
      }
