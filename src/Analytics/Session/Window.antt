-- ===== src/Analytics/Session/Window.antt =====
-- The window of a session of backend/src/analytics/session.ts.
use tera_trade.Prelude.{ℕ, ◌≡◌, ◌≤◌, ◌<◌, arith}
use tera_trade.Analytics.Session.{
  TradingSession, london, new_york, asian, day_ms, classify_session, get_session_start,
  get_session_end, start_of, end_of,
}

-- A time after the first day lies in the window of its session: at its start or later, and before its
-- end.
pub session_window :
    (time : ℕ) → day_ms ≤ time → (get_session_start time ≤ time) × (time < get_session_end time)
unfolding get_session_start get_session_end start_of end_of classify_session
session_window time h = ground arith

-- All times in the window of a session are classified as that session.
pub session_constant :
    (time u : ℕ)
    → day_ms ≤ time
    → get_session_start time ≤ u
    → u < get_session_end time
    → classify_session u ≡ classify_session time
unfolding get_session_start get_session_end start_of end_of classify_session
session_constant time u h k l = ground arith

-- London, New York, Asian, and London again.
abbrev pub next_session : TradingSession → TradingSession
next_session london = new_york
next_session new_york = asian
next_session asian = london

-- The end of a session starts the next one: the windows leave no gap and do not overlap.
pub session_end_lem :
    (time : ℕ)
    → day_ms ≤ time
    → (classify_session (get_session_end time) ≡ next_session (classify_session time))
      × (get_session_start (get_session_end time) ≡ get_session_end time)
unfolding get_session_start get_session_end start_of end_of classify_session
session_end_lem time h = ground arith
