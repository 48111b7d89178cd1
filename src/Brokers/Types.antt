-- ===== src/Brokers/Types.antt =====
-- backend/src/brokers/types.ts: orders, and the interface that the execution engine uses.
use tera_trade.Prelude.{ℕ, Bool, Option, String}
use tera_trade.Market.{Side, long, short}

pub data OrderSide : Type 0 where
  buy sell : OrderSide

pub data OrderType : Type 0 where
  market limit stop trailing_stop : OrderType

-- `OrderResult.status`
pub data FillStatus : Type 0 where
  filled pending rejected : FillStatus

-- `BrokerOrder.status`, of the values that the program gives it.
pub data OrderStatus : Type 0 where
  order_filled order_pending order_cancelled : OrderStatus

pub record OrderRequest (D : Type 0) : Type 0 where
  pub account_id : String
  pub symbol : String
  pub side : OrderSide
  pub order_type : OrderType
  pub quantity : ℕ
  pub trail_ticks : Option ℕ
  pub stop_loss_price : Option D
  pub take_profit_price : Option D
  pub reference_price : Option D

pub record OrderResult (D : Type 0) : Type 0 where
  pub broker_order_id : Option ℕ
  pub status : FillStatus
  pub filled_price : Option D

-- The operations of a broker with state `B`. Those that may be absent or fail answer `none`, as the
-- caller's `?.` and `.catch(() => null)` do.
pub record BrokerClient (D B : Type 0) : Type 0 where
  pub place_order : OrderRequest D → B → OrderResult D × B
  pub is_position_flat : String → B → Option Bool × B
  pub cancel_resting_order : String → B → B

abbrev pub order_side : Side → OrderSide
order_side long = buy
order_side short = sell
