-- ===== src/Tests/Data.antt =====
-- Numbers, bars and accounts for the tests.
use tera_trade.Prelude.{ℕ, ◌*◌, ◌+◌, zero, suc, false, some, none, List, [], ◌∷◌}
use tera_trade.Prelude.Int.{pos}
use tera_trade.Number.Fixed.{Fixed, fixed_number}
use tera_trade.Market.{long, OhlcBar}
use tera_trade.Risk.Sizing.{Tier}
use tera_trade.Risk.CircuitBreakers.{AccountRiskState, RiskLimitsConfig}
use tera_trade.Risk.Engine.{AssessParams, reversal}

abbrev pub whole_points : ℕ → Fixed
whole_points n = pos (n * 10_000)

abbrev pub flat_bar : ℕ → ℕ → ℕ → OhlcBar Fixed
flat_bar time low high = record {
  time = time;
  open_price = whole_points low;
  high = whole_points high;
  low = whole_points low;
  close = whole_points high;
  volume = whole_points 1;
}

-- Bars five minutes apart.
abbrev pub bars_from : ℕ → ℕ → List (OhlcBar Fixed)
bars_from zero k = []
bars_from (suc n) k = flat_bar (k * 300_000) 4996 5000 ∷ bars_from n (1 + k)

abbrev pub tiers : List (Tier Fixed)
tiers = (pos 6000, 1) ∷ (pos 8000, 3) ∷ (pos 7000, 2) ∷ []

abbrev pub account : AccountRiskState Fixed
account = record {
  current_equity = whole_points 49_000;
  peak_equity = whole_points 50_000;
  daily_starting_equity = whole_points 49_500;
  consecutive_losses = 1;
  trades_today = 4;
}

abbrev pub limits : RiskLimitsConfig Fixed
limits = record {
  per_trade_risk_pct = whole_points 1;
  max_daily_loss_pct = whole_points 3;
  max_trailing_drawdown_pct = whole_points 5;
  max_consecutive_losses = 3;
  max_daily_trades = 10;
  max_position_size = 5;
  per_trade_risk_dollars = some (whole_points 200);
  per_trade_profit_dollars = none;
  max_daily_loss_dollars = some (whole_points 1000);
}

-- A long at 5000 with an ATR of 4 points.
abbrev pub params : AssessParams Fixed
params = record {
  side = long;
  entry_price = whole_points 5000;
  atr_value = whole_points 4;
  structure_swing_price = some (whole_points 4996);
  signal_kind = reversal;
  breakout_level_price = none;
  account_state = account;
  limits = limits;
  point_value = whole_points 5;
  tick_size = pos 2500;
  bars = bars_from 16 0;
  average_probability = pos 7500;
  take_profit_r_multiple = whole_points 3;
  confidence_tiers = tiers;
  explicit_stop_price = none;
  explicit_take_profit_price = none;
  sr_proximity_gate_suspended = false;
  sr_gate_bypass = false;
  hard_take_profit_dollars = none;
  assistant_take_profit_cap_points = some (whole_points 20);
  daily_plan_zones = [];
  requires_daily_plan = false;
  has_conflicting_cross_symbol_position = false;
}
