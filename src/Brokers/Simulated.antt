-- ===== src/Brokers/Simulated.antt =====
-- backend/src/brokers/simulatedBroker.ts: the paper broker. Positions, brackets and orders are
-- association lists in the order of insertion; the key of the first two is account and symbol. The
-- counter of order ids is part of the state. Records leave out what the key says, tags and the profit of
-- an open position, which is always 0. `connect` and the reads of accounts do nothing here.
pub mod Trailing
use tera_trade.Prelude.{
  ℕ, ◌+◌, ◌==◌, Bool, true, false, ◌&&◌, not, if◌then◌else◌, Option, none, some, List, [], ◌∷◌,
  String, str_eq, filter,
}
use tera_trade.Number.{Number, plus, minus, times, gt, lt, of_nat, decimal, larger, smaller}
use tera_trade.Brokers.Types.{
  OrderSide, buy, sell, OrderStatus, order_filled, order_pending, order_cancelled, filled, rejected,
  OrderRequest, OrderResult,
}

pub record Position (D : Type 0) : Type 0 where
  pub side : OrderSide
  pub quantity : ℕ
  pub avg_price : D

pub record SimBracket (D : Type 0) : Type 0 where
  pub side : OrderSide
  pub quantity : ℕ
  pub entry_price : D
  pub stop_price : D
  pub take_profit_price : Option D
  pub trail_ticks : Option ℕ
  pub tick_size : D
  pub highest_favorable : D

pub record BrokerOrder : Type 0 where
  pub account_id : String
  pub symbol : String
  pub side : OrderSide
  pub quantity : ℕ
  pub status : OrderStatus

abbrev pub Key : Type 0
Key = String × String

abbrev pub key_eq : Key → Key → Bool
key_eq k j = str_eq k.0 j.0 && str_eq k.1 j.1

-- `Map`: `get`, `set` (in place, or at the end) and `delete`.
unfoldable pub get {ℓ} : {V : Type ℓ} → Key → List (Key × V) → Option V
get k [] = none
get k ((j, v) ∷ m) = if key_eq j k then some v else get k m

pub put {ℓ} : {V : Type ℓ} → Key → V → List (Key × V) → List (Key × V)
put k v [] = (k, v) ∷ []
put k v ((j, w) ∷ m) = let rest = put k v m in if key_eq j k then (k, v) ∷ m else (j, w) ∷ rest

pub erase {ℓ} : {V : Type ℓ} → Key → List (Key × V) → List (Key × V)
erase k [] = []
erase k ((j, v) ∷ m) = let rest = erase k m in if key_eq j k then rest else (j, v) ∷ rest

pub record SimulatedBroker (D : Type 0) : Type 0 where
  pub next_order_id : ℕ
  pub positions : List (Key × Position D)
  pub brackets : List (Key × SimBracket D)
  pub orders : List (ℕ × BrokerOrder)

find_order : ℕ → List (ℕ × BrokerOrder) → Option BrokerOrder
find_order i [] = none
find_order i ((j, o) ∷ m) = if j == i then some o else find_order i m

put_order : ℕ → BrokerOrder → List (ℕ × BrokerOrder) → List (ℕ × BrokerOrder)
put_order i o [] = (i, o) ∷ []
put_order i o ((j, w) ∷ m) =
    let rest = put_order i o m in if j == i then (i, o) ∷ m else (j, w) ∷ rest

is_pending : OrderStatus → Bool
is_pending order_pending = true
is_pending _ = false

module _ {D : Type 0} ⦃n : Number D⦄ where
  abbrev pub sim_tick_size : D
  sim_tick_size = decimal 25 2

  -- One tick of slippage against the order.
  pub fill_price_of : OrderSide → D → D
  fill_price_of buy reference = plus reference (times sim_tick_size (of_nat 1))
  fill_price_of sell reference = minus reference (times sim_tick_size (of_nat 1))

  -- The bracket is set only if the request has a stop.
  set_bracket :
      Key → OrderRequest D → D → Option D → List (Key × SimBracket D) → List (Key × SimBracket D)
  unfolding put
  set_bracket key request fill none brackets = brackets
  set_bracket key request fill (some stop) brackets =
      put key
        (record {
          side = request.side;
          quantity = request.quantity;
          entry_price = fill;
          stop_price = stop;
          take_profit_price = request.take_profit_price;
          trail_ticks = request.trail_ticks;
          tick_size = sim_tick_size;
          highest_favorable = fill;
        })
        brackets

  fill_order : OrderRequest D → D → SimulatedBroker D → OrderResult D × SimulatedBroker D
  unfolding put set_bracket put_order
  fill_order request fill b =
      let key : Key = (request.account_id, request.symbol) in
      let position : Position D = record {
        side = request.side;
        quantity = request.quantity;
        avg_price = fill;
      } in
      let order : BrokerOrder = record {
        account_id = request.account_id;
        symbol = request.symbol;
        side = request.side;
        quantity = request.quantity;
        status = order_filled;
      } in
      (
        record {
          broker_order_id = some b.next_order_id;
          status = filled;
          filled_price = some fill;
        },
        record {
          next_order_id = 1 + b.next_order_id;
          positions = put key position b.positions;
          brackets = set_bracket key request fill request.stop_loss_price b.brackets;
          orders = put_order b.next_order_id order b.orders;
        },
      )

  place_at : OrderRequest D → Option D → SimulatedBroker D → OrderResult D × SimulatedBroker D
  unfolding fill_order fill_price_of
  place_at request none b =
      (record { broker_order_id = none; status = rejected; filled_price = none }, b)
  place_at request (some reference) b = fill_order request (fill_price_of request.side reference) b

  unfoldable pub place_order :
      OrderRequest D → SimulatedBroker D → OrderResult D × SimulatedBroker D
  unfolding place_at
  place_order request b = place_at request request.reference_price b

  cancel_found : ℕ → Option BrokerOrder → SimulatedBroker D → Bool × SimulatedBroker D
  unfolding is_pending put_order
  cancel_found i none b = (false, b)
  cancel_found i (some o) b =
      if is_pending o.status
      then (
        true,
        record b { orders = put_order i (record o { status = order_cancelled }) b.orders },
      )
      else (false, b)

  pub cancel_order : ℕ → SimulatedBroker D → Bool × SimulatedBroker D
  unfolding find_order cancel_found
  cancel_order i b = cancel_found i (find_order i b.orders) b

  -- The direction is 1 or -1.
  pnl_of : D → Option (Position D) → D
  pnl_of exit none = of_nat 0
  pnl_of exit (some p) =
      times (minus exit p.avg_price)
        (elim p.side [ buy ↦ of_nat 1 | sell ↦ minus (of_nat 0) (of_nat 1) ])

  pub close_position : Key → D → SimulatedBroker D → D × SimulatedBroker D
  unfolding erase get pnl_of
  close_position key exit b = (
    pnl_of exit (get key b.positions),
    record b { positions = erase key b.positions; brackets = erase key b.brackets },
  )

  -- The bracket after a price, for a trail of so many ticks.
  trailed : OrderSide → ℕ → D → SimBracket D → SimBracket D
  trailed buy ticks current b =
      let best = larger b.highest_favorable current in
      let new_stop = minus best (times b.tick_size (of_nat ticks)) in
      let stop = if gt new_stop b.stop_price then new_stop else b.stop_price in
      record b { highest_favorable = best; stop_price = stop }
  trailed sell ticks current b =
      let best = smaller b.highest_favorable current in
      let new_stop = plus best (times b.tick_size (of_nat ticks)) in
      let stop = if lt new_stop b.stop_price then new_stop else b.stop_price in
      record b { highest_favorable = best; stop_price = stop }

  trailed_if : Option ℕ → D → SimBracket D → SimBracket D
  unfolding trailed
  trailed_if none current b = b
  trailed_if (some ticks) current b = trailed b.side ticks current b

  pub update_bracket : D → SimBracket D → SimBracket D
  unfolding trailed_if
  update_bracket current b = trailed_if b.trail_ticks current b

  -- The bracket is changed in place.
  update_in : Key → D → List (Key × SimBracket D) → List (Key × SimBracket D)
  unfolding update_bracket
  update_in key current [] = []
  update_in key current ((j, v) ∷ m) =
      let rest = update_in key current m in
      if key_eq j key then (j, update_bracket current v) ∷ m else (j, v) ∷ rest

  unfoldable pub update_trailing_stop : Key → D → SimulatedBroker D → SimulatedBroker D
  unfolding update_in
  update_trailing_stop key current b = record b { brackets = update_in key current b.brackets }

  stop_of : Option (SimBracket D) → Option D
  stop_of none = none
  stop_of (some b) = some b.stop_price

  pub get_bracket_stop_price : Key → SimulatedBroker D → Option D
  unfolding get stop_of
  get_bracket_stop_price key b = stop_of (get key b.brackets)
