-- ===== src/Risk/CircuitBreakers/Limits.antt =====
-- When the circuit breakers allow a trade, and when they trip the kill switch.
use tera_trade.Prelude.{◌<◌, ◌≡◌, ◌↔◌, true, false, arith}
use tera_trade.Number.{Number, minus, ◌≺◌}
use tera_trade.Risk.CircuitBreakers.{
  AccountRiskState, RiskLimitsConfig, reaches_cap, percent_of, check_circuit_breakers,
}

module _ {D : Type 0} ⦃n : Number D⦄ where
  -- Neither the daily loss, in dollars or in percent, nor the drawdown has reached its limit.
  abbrev pub IsSolvent : AccountRiskState D → RiskLimitsConfig D → Type 0
  IsSolvent state limits =
      let daily_loss = minus state.daily_starting_equity state.current_equity in
      (reaches_cap limits.max_daily_loss_dollars daily_loss ≡ false)
      × (percent_of daily_loss state.daily_starting_equity ≺ limits.max_daily_loss_pct)
      × (percent_of (minus state.peak_equity state.current_equity) state.peak_equity
          ≺ limits.max_trailing_drawdown_pct)

  abbrev pub IsUnpaused : AccountRiskState D → RiskLimitsConfig D → Type 0
  IsUnpaused state limits =
      (state.consecutive_losses < limits.max_consecutive_losses)
      × (state.trades_today < limits.max_daily_trades)

  -- With the kill switch enabled a trade is allowed exactly when no loss limit, no losing streak and no
  -- trade count is reached, and the kill switch is tripped exactly when a loss limit is reached.
  pub check_circuit_breakers_iff :
      (state : AccountRiskState D) (limits : RiskLimitsConfig D)
      → let d = check_circuit_breakers true state limits in
        ((d.allowed ≡ true) ↔ (IsSolvent state limits × IsUnpaused state limits))
        × ((d.trip_kill_switch ≡ false) ↔ IsSolvent state limits)
  unfolding check_circuit_breakers
  check_circuit_breakers_iff state limits = ground arith

  -- With it disabled the kill switch is never tripped and no loss limit blocks a trade.
  pub check_circuit_breakers_disabled :
      (state : AccountRiskState D) (limits : RiskLimitsConfig D)
      → let d = check_circuit_breakers false state limits in
        ((d.allowed ≡ true) ↔ IsUnpaused state limits) × (d.trip_kill_switch ≡ false)
  unfolding check_circuit_breakers
  check_circuit_breakers_disabled state limits = ground arith
