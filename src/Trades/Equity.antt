-- ===== src/Trades/Equity.antt =====
-- backend/src/engine/accounting.ts: unrealized profit, equity, and the state that the circuit breakers
-- read. The rows of trades and of equity points are lists; sums and maxima that the database computes
-- are folds. `lastPrices` and the point values are functions of the symbol, `none` where the map has no
-- entry; the scraped snapshot of the account is an argument.
pub mod Peak
use tera_trade.Risk.CircuitBreakers.{AccountRiskState}
use tera_trade.Prelude.{
  Bool, List, Option, String, [], false, filter, find, get_or, if◌then◌else◌, is_some, leb, length,
  none, not, some, suc, take, true, ℕ, ◌&&◌, ◌==◌, ◌∷◌,
}
use tera_trade.Trades.Rows.{BrokerKind, TradeRow, kind_eq, simulated, tradesea_browser_control}
use tera_trade.Number.{Number, larger, lt, minus, of_nat, plus, times}
use tera_trade.Market.{Side, long, short}
use tera_trade.Execution.Mode.{TradingMode, live}

pub record EquityPoint (D : Type 0) : Type 0 where
  pub time : ℕ
  pub account_id : ℕ
  pub broker_kind : BrokerKind
  pub equity : D

pub record Account (D : Type 0) : Type 0 where
  pub id : ℕ
  pub is_tradesea : Bool
  pub starting_balance : D

-- `accountSource`, and `currentBrokerKind`.
abbrev pub current_broker_kind : TradingMode → BrokerKind → BrokerKind
current_broker_kind live configured = configured
current_broker_kind _ configured = simulated

pub broker_kind_for_account : {D : Type 0} → Account D → TradingMode → BrokerKind → BrokerKind
broker_kind_for_account account mode configured =
    if account.is_tradesea then tradesea_browser_control else current_broker_kind mode configured

pub in_scope : Option BrokerKind → BrokerKind → Bool
in_scope none kind = true
in_scope (some k) kind = kind_eq kind k

pub exited_since : ℕ → Option ℕ → Bool
exited_since start none = false
exited_since start (some time) = leb start time

module _ {D : Type 0} ⦃n : Number D⦄ where
  pub direction_sign : Side → D
  direction_sign long = of_nat 1
  direction_sign short = minus (of_nat 0) (of_nat 1)

  -- The loop of `computeOpenUnrealizedPnl`.
  unrealized_from : (String → Option D) → (String → Option D) → D → List (TradeRow D) → D
  unfolding direction_sign
  unrealized_from last_prices point_values total [] = total
  unrealized_from last_prices point_values total (t ∷ trades) =
      let point_value = get_or (point_values t.symbol) (of_nat 1) in
      let next : D = elim (last_prices t.symbol) [
        | none ↦ total
        | some price ↦ plus total (
            times (times (times (minus price t.entry_price) (direction_sign t.side)) point_value)
              (of_nat t.quantity))
      ] in
      unrealized_from last_prices point_values next trades

  pub compute_open_unrealized_pnl :
      ℕ → (String → Option D) → (String → Option D) → Option BrokerKind → List (TradeRow D) → D
  unfolding unrealized_from
  compute_open_unrealized_pnl account last_prices point_values kind trades =
      unrealized_from last_prices point_values (of_nat 0)
        (filter (λ t. t.account_id == account && (t.is_open && in_scope kind t.broker_kind)) trades)

  realized_from : List (TradeRow D) → D
  realized_from [] = of_nat 0
  realized_from (t ∷ trades) = plus (realized_from trades) (get_or t.pnl (of_nat 0))

  -- The branch without a scraped value.
  pub compute_account_equity :
      Account D
      → (String → Option D)
      → (String → Option D)
      → Option BrokerKind
      → Bool
      → TradingMode
      → BrokerKind
      → (BrokerKind → Option D)
      → List (TradeRow D)
      → D
  unfolding compute_open_unrealized_pnl realized_from
  compute_account_equity account last_prices point_values override browser_source mode configured
        scraped trades =
      let kind = get_or override (current_broker_kind mode configured) in
      let reads_snapshot =
        if is_some override
        then not (kind_eq kind simulated)
        else browser_source && not (kind_eq kind simulated) in
      let scoped = if is_some override then kind else simulated in
      let realized = realized_from (
        filter (λ t. t.account_id == account.id && (not t.is_open && kind_eq t.broker_kind scoped))
          trades) in
      let computed =
        plus (plus account.starting_balance realized)
          (compute_open_unrealized_pnl account.id last_prices point_values (some scoped) trades) in
      if reads_snapshot then get_or (scraped kind) computed else computed

  -- `_max`
  highest : Option D → List (EquityPoint D) → Option D
  highest best [] = best
  highest none (p ∷ points) = highest (some p.equity) points
  highest (some best) (p ∷ points) = highest (some (larger best p.equity)) points

  pub is_losing : Option D → Bool
  is_losing none = false
  is_losing (some pnl) = lt pnl (of_nat 0)

  -- The leading run of losing trades, the latest trade first.
  pub losing_run : List (TradeRow D) → ℕ
  unfolding is_losing
  losing_run [] = 0
  losing_run (t ∷ trades) = let rest = losing_run trades in if is_losing t.pnl then suc rest else 0

  -- `recent_closed` is in descending order of exit time; `points` in ascending order of time.
  unfoldable pub compute_account_risk_state :
      ℕ
      → BrokerKind
      → D
      → ℕ
      → List (EquityPoint D)
      → List (TradeRow D)
      → List (TradeRow D)
      → AccountRiskState D
  unfolding highest losing_run exited_since
  compute_account_risk_state account kind current_equity today_start points recent_closed trades =
      let mine = filter (λ p. p.account_id == account && kind_eq p.broker_kind kind) points in
      let peak = get_or (highest none mine) current_equity in
      let first_today = find (λ p. leb today_start p.time) mine in
      let closed_today =
        filter
          (λ t.
            t.account_id == account
            && (not t.is_open
                && (kind_eq t.broker_kind kind && exited_since today_start t.exit_time)))
          recent_closed in
      record {
        current_equity = current_equity;
        peak_equity = larger peak current_equity;
        daily_starting_equity = elim first_today [ none ↦ current_equity | some p ↦ p.equity ];
        consecutive_losses = losing_run (take 50 closed_today);
        trades_today = length (
            filter
              (λ t.
                t.account_id == account
                && (kind_eq t.broker_kind kind && leb today_start t.entry_time))
              trades);
      }
