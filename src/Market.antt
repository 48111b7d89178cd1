-- ===== src/Market.antt =====
-- The market data and the enumerations that the parts of the backend share.
use tera_trade.Prelude.{ℕ, Bool, true, false}

-- "long" | "short"
pub data Side : Type 0 where
  long short : Side

abbrev pub opposite : Side → Side
opposite long = short
opposite short = long

abbrev pub is_long : Side → Bool
is_long long = true
is_long short = false

abbrev pub side_eq : Side → Side → Bool
side_eq long long = true
side_eq short short = true
side_eq _ _ = false

-- backend/src/regime/indicators.ts. `time` is the bar's time in milliseconds since the epoch.
pub record OhlcBar (D : Type 0) : Type 0 where
  pub time : ℕ
  pub open_price : D
  pub high : D
  pub low : D
  pub close : D
  pub volume : D
