-- ===== src/Risk/CircuitBreakers.antt =====
-- backend/src/risk/circuitBreakers.ts: the account's loss and drawdown limits. Texts name which message
-- is built, and `kill_switch_enabled` is `getSettings().killSwitchEnabled`.
pub mod Limits
use tera_trade.Prelude.{ℕ, Bool, true, false, leb, if◌then◌else◌, Option, none, some}
use tera_trade.Number.{Number, gte, gt, minus, times, divided_by, of_nat}

pub record AccountRiskState (D : Type 0) : Type 0 where
  pub current_equity : D
  pub peak_equity : D
  pub daily_starting_equity : D
  pub consecutive_losses : ℕ
  pub trades_today : ℕ

pub record RiskLimitsConfig (D : Type 0) : Type 0 where
  pub per_trade_risk_pct : D
  pub max_daily_loss_pct : D
  pub max_trailing_drawdown_pct : D
  pub max_consecutive_losses : ℕ
  pub max_daily_trades : ℕ
  pub max_position_size : ℕ
  pub per_trade_risk_dollars : Option D
  pub per_trade_profit_dollars : Option D
  pub max_daily_loss_dollars : Option D

pub data BreakerReason : Type 0 where
  daily_loss_dollars daily_loss_pct trailing_drawdown losing_streak daily_trades : BreakerReason

pub record CircuitBreakerDecision : Type 0 where
  pub allowed : Bool
  pub trip_kill_switch : Bool
  pub reason : Option BreakerReason

-- The checks of the second half, which never touch the kill switch.
check_pauses : ℕ → ℕ → ℕ → ℕ → CircuitBreakerDecision
check_pauses losses max_losses trades max_trades =
    if leb max_losses losses
    then record { allowed = false; trip_kill_switch = false; reason = some losing_streak }
    else if leb max_trades trades
    then record { allowed = false; trip_kill_switch = false; reason = some daily_trades }
    else record { allowed = true; trip_kill_switch = false; reason = none }

tripped : BreakerReason → CircuitBreakerDecision
tripped why = record { allowed = false; trip_kill_switch = true; reason = some why }

module _ {D : Type 0} ⦃n : Number D⦄ where
  -- `limits.maxDailyLossDollars != null && dailyLossDollars.gte(limits.maxDailyLossDollars)`
  pub reaches_cap : Option D → D → Bool
  reaches_cap none loss = false
  reaches_cap (some cap) loss = gte loss cap

  -- A part of `whole_amount` in percent, and 0 where that is not positive.
  pub percent_of : D → D → D
  percent_of part whole_amount =
      if gt whole_amount (of_nat 0)
      then times (divided_by part whole_amount) (of_nat 100)
      else of_nat 0

  unfoldable pub check_circuit_breakers :
      Bool → AccountRiskState D → RiskLimitsConfig D → CircuitBreakerDecision
  unfolding check_pauses tripped reaches_cap percent_of
  check_circuit_breakers kill_switch_enabled state limits =
      let daily_loss = minus state.daily_starting_equity state.current_equity in
      let daily_loss_pct_of = percent_of daily_loss state.daily_starting_equity in
      let trailing_dd_pct =
        percent_of (minus state.peak_equity state.current_equity) state.peak_equity in
      let pauses =
        check_pauses state.consecutive_losses limits.max_consecutive_losses state.trades_today
          limits.max_daily_trades in
      if kill_switch_enabled
      then if reaches_cap limits.max_daily_loss_dollars daily_loss
        then tripped daily_loss_dollars
        else if gte daily_loss_pct_of limits.max_daily_loss_pct
        then tripped daily_loss_pct
        else if gte trailing_dd_pct limits.max_trailing_drawdown_pct
        then tripped trailing_drawdown
        else pauses
      else pauses
