-- ===== src/Execution/Engine.antt =====
-- backend/src/execution/engine.ts: `executeIfApproved`. The broker is any `BrokerClient` over a state,
-- which the waiting between two polls may change too. The database is three lists; its next trade id is
-- part of it. Texts, times, ids of brokers and accounts, the score and the regime columns are left out.
pub mod Covered
pub mod Guards
pub mod Shift
use tera_trade.Prelude.{
  ℕ, zero, suc, ◌+◌, Bool, true, false, not, if◌then◌else◌, Option, none, some, get_or, List, [],
  ◌∷◌, ◌++◌, String,
}
use mathlib.Core.Option
use tera_trade.Number.{Number, plus, minus}
use tera_trade.Market.{Side}
use tera_trade.Brokers.Types.{
  OrderType, market, FillStatus, filled, pending, rejected, OrderRequest, OrderResult, BrokerClient,
  order_side,
}
use tera_trade.Execution.Mode.{TradingMode, analysis_only, paper, live}
use tera_trade.Risk.Engine.{RiskAssessment}

pub data Decision : Type 0 where
  taken skipped_score : Decision

pub record Signal : Type 0 where
  pub strategy_id : String
  pub symbol : String
  pub side : Side

pub record Trade (D : Type 0) : Type 0 where
  pub id : ℕ
  pub symbol : String
  pub strategy_id : String
  pub side : Side
  pub quantity : ℕ
  pub entry_price : D
  pub stop_price : D
  pub take_profit_price : Option D

pub record OrderRecord (D : Type 0) : Type 0 where
  pub trade_id : ℕ
  pub quantity : ℕ
  pub price : D
  pub is_filled : Bool

pub record Database (D : Type 0) : Type 0 where
  pub next_trade_id : ℕ
  pub trades : List (Trade D)
  pub order_records : List (OrderRecord D)
  pub score_links : List (ℕ × ℕ)

pub data Reason : Type 0 where
  below_threshold not_approved analysis_only_mode broker_rejected expired_unfilled : Reason
  order_placed : Reason

-- The returned result, or the TypeError of `shiftedStopPrice!.toString()` on a missing stop.
pub data ExecutionResult : Type 0 where
  executed : ℕ → ExecutionResult
  not_executed : Reason → ExecutionResult
  missing_stop : ExecutionResult

abbrev pub limit_fill_confirmation_retries : ℕ
limit_fill_confirmation_retries = 601

-- What the call is given besides the broker, its state and the database.
pub record Setup (D : Type 0) : Type 0 where
  pub mode : TradingMode
  pub broker_account_id : String
  pub signal : Signal
  pub decision : Decision
  pub assessment : RiskAssessment D
  pub entry_price : D
  pub score_id : Option ℕ

abbrev is_skipped : Decision → Bool
is_skipped taken = false
is_skipped skipped_score = true

abbrev is_analysis_only : TradingMode → Bool
is_analysis_only analysis_only = true
is_analysis_only _ = false

pub record Outcome (D B : Type 0) : Type 0 where
  pub result : ExecutionResult
  pub broker_state : B
  pub database : Database D

link_score : Option ℕ → ℕ → List (ℕ × ℕ) → List (ℕ × ℕ)
link_score none trade_id links = links
link_score (some score_id) trade_id links = (score_id, trade_id) ∷ links

module _ {D B : Type 0} where
  -- The polls of a resting order, so many at most, until the position is no longer flat.
  await_fill : BrokerClient D B → String → ℕ → B → Bool × B
  await_fill broker symbol zero b = (false, b)
  await_fill broker symbol (suc attempts) b =
      let (flat, polled) = broker.is_position_flat symbol b in
      let rest = await_fill broker symbol attempts polled in
      elim flat [ some is_flat ↦ if is_flat then rest else (true, polled) | none ↦ rest ]

module _ {D : Type 0} ⦃n : Number D⦄ where
  pub order_request : Setup D → OrderRequest D
  order_request s = record {
    account_id = s.broker_account_id;
    symbol = s.signal.symbol;
    side = order_side s.signal.side;
    order_type = market;
    quantity = s.assessment.quantity;
    trail_ticks = s.assessment.trail_ticks;
    stop_loss_price = s.assessment.stop_price;
    take_profit_price = s.assessment.take_profit_price;
    reference_price = some s.entry_price;
  }

  -- The rows of a trade at a fill price; `none` for the price is a missing stop.
  record_trade : Setup D → D → Option D → Database D → ExecutionResult × Database D
  unfolding link_score
  record_trade s fill none db = (missing_stop, db)
  record_trade s fill (some stop) db =
      let trade : Trade D = record {
        id = db.next_trade_id;
        symbol = s.signal.symbol;
        strategy_id = s.signal.strategy_id;
        side = s.signal.side;
        quantity = s.assessment.quantity;
        entry_price = fill;
        stop_price = stop;
        take_profit_price =
            Option.map (λ t. plus t (minus fill s.entry_price)) s.assessment.take_profit_price;
      } in
      let order : OrderRecord D = record {
        trade_id = db.next_trade_id;
        quantity = s.assessment.quantity;
        price = fill;
        is_filled = true;
      } in
      (
        executed db.next_trade_id,
        record {
          next_trade_id = 1 + db.next_trade_id;
          trades = trade ∷ db.trades;
          order_records = order ∷ db.order_records;
          score_links = link_score s.score_id db.next_trade_id db.score_links;
        },
      )

  filled_at : {B : Type 0} → Setup D → D → B → Database D → Outcome D B
  unfolding record_trade
  filled_at s fill b db =
      let stop = Option.map (λ p. plus p (minus fill s.entry_price)) s.assessment.stop_price in
      let (result, after) = record_trade s fill stop db in
      record { result = result; broker_state = b; database = after }

  -- What follows `placeOrder`, by its status.
  after_order :
      {B : Type 0}
      → BrokerClient D B
      → Setup D
      → FillStatus
      → Option D
      → B
      → Database D
      → Outcome D B
  unfolding filled_at await_fill
  after_order broker s rejected price b db = record {
    result = not_executed broker_rejected;
    broker_state = b;
    database = db;
  }
  after_order broker s filled price b db = filled_at s (get_or price s.entry_price) b db
  after_order broker s pending price b db =
      let (confirmed, polled) =
        await_fill broker s.signal.symbol limit_fill_confirmation_retries b in
      if confirmed then filled_at s s.entry_price polled db else record {
        result = not_executed expired_unfilled;
        broker_state = broker.cancel_resting_order s.signal.symbol polled;
        database = db;
      }

  -- The three returns before an order is placed.
  pub entry_guard : Setup D → Option Reason
  entry_guard s =
      if is_skipped s.decision
      then some below_threshold
      else if not s.assessment.approved
      then some not_approved
      else if is_analysis_only s.mode
      then some analysis_only_mode
      else none

  guarded_entry :
      {B : Type 0} → Option Reason → BrokerClient D B → Setup D → B → Database D → Outcome D B
  unfolding after_order order_request
  guarded_entry (some reason) broker s b db = record {
    result = not_executed reason;
    broker_state = b;
    database = db;
  }
  guarded_entry none broker s b db =
      let (result, placed) = broker.place_order (order_request s) b in
      after_order broker s result.status result.filled_price placed db

  unfoldable pub execute_if_approved :
      {B : Type 0} → BrokerClient D B → Setup D → B → Database D → Outcome D B
  unfolding guarded_entry entry_guard
  execute_if_approved broker s b db = guarded_entry (entry_guard s) broker s b db
