-- ===== src/Analytics/Session.antt =====
-- backend/src/analytics/session.ts: the trading session of a time, in milliseconds since the epoch; the
-- clock of `Date` in UTC is division, and times before the epoch's second day are not meant.
pub mod Window
use tera_trade.Prelude.{ℕ, ◌+◌, ◌-◌, ◌*◌, ◌/◌, ◌%◌, ltb, leb, ◌&&◌, if◌then◌else◌}

pub data TradingSession : Type 0 where
  new_york london asian : TradingSession

abbrev pub hour_ms : ℕ
hour_ms = 3_600_000

abbrev pub day_ms : ℕ
day_ms = 86_400_000

abbrev pub utc_hours : ℕ → ℕ
utc_hours time = time / hour_ms % 24

-- `setUTCHours(hour, 0, 0, 0)`
abbrev pub at_hour : ℕ → ℕ → ℕ
at_hour hour time = time / day_ms * day_ms + hour * hour_ms

unfoldable pub classify_session : ℕ → TradingSession
classify_session time =
    let hour = utc_hours time in
    if leb 8 hour && ltb hour 13
    then london
    else if leb 13 hour && ltb hour 22
    then new_york
    else asian

start_of : TradingSession → ℕ → ℕ
start_of london time = at_hour 8 time
start_of new_york time = at_hour 13 time
start_of asian time =
    let day = if ltb (utc_hours time) 8 then time - day_ms else time in at_hour 22 day

unfoldable pub get_session_start : ℕ → ℕ
unfolding start_of classify_session
get_session_start time = start_of (classify_session time) time

end_of : TradingSession → ℕ → ℕ
end_of london time = at_hour 13 time
end_of new_york time = at_hour 22 time
end_of asian time =
    let day = if leb 22 (utc_hours time) then time + day_ms else time in at_hour 8 day

unfoldable pub get_session_end : ℕ → ℕ
unfolding end_of classify_session
get_session_end time = end_of (classify_session time) time
