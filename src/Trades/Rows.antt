-- ===== src/Trades/Rows.antt =====
-- The state that backend/src/engine/loop.ts keeps of open trades: the rows of trades and orders, and
-- the process's own maps of excursions and of trades whose entry was checked. The texts of a row are
-- left out but for which note its close adds. An operation of a broker that may be absent or be
-- rejected answers `false` or `none` then. Times are milliseconds.
use tera_trade.Prelude.{
  Bool, List, Option, String, [], any, find, if◌then◌else◌, none, not, some, str_eq, ℕ, ◌&&◌, ◌==◌,
  ◌∷◌,
}
use tera_trade.Brokers.Types.{OrderSide, OrderType, buy, sell}
use tera_trade.Market.{Side, long, short}
use tera_trade.Risk.Brackets.{TickBand}

pub data BrokerKind : Type 0 where
  simulated projectx browser_control tradesea_browser_control : BrokerKind

abbrev kind_number : BrokerKind → ℕ
kind_number simulated = 0
kind_number projectx = 1
kind_number browser_control = 2
kind_number tradesea_browser_control = 3

abbrev pub kind_eq : BrokerKind → BrokerKind → Bool
kind_eq a b = kind_number a == kind_number b

pub data ExitReason : Type 0 where
  by_stop by_target by_trailing_stop auto_reconciled : ExitReason

-- `customTag`
pub data CloseTag : Type 0 where
  estimated_from_bracket estimated_from_trailing_stop estimated_from_take_profit_order : CloseTag
  forced_after_bracket_failure forced_close_via_opposite_order : CloseTag
  closed_red_outside_chart_box : CloseTag

-- The note that a close adds to the explanation.
pub data ExitNote : Type 0 where
  no_note real_fill bracket_estimate trailing_estimate forced forced_opposite : ExitNote
  reconciled_real reconciled_unknown : ExitNote

pub record TradeRow (D : Type 0) : Type 0 where
  pub id : ℕ
  pub account_id : ℕ
  pub symbol : String
  pub broker_kind : BrokerKind
  pub side : Side
  pub quantity : ℕ
  pub entry_time : ℕ
  pub entry_price : D
  pub stop_price : D
  pub take_profit_price : Option D
  pub is_open : Bool
  pub trailing_stop_placed : Bool
  pub take_profit_order_placed : Bool
  pub let_it_ride : Bool
  pub exit_time : Option ℕ
  pub exit_price : Option D
  pub exit_reason : Option ExitReason
  pub exit_note : ExitNote
  pub pnl : Option D
  pub fees : Option D
  pub mae : Option D
  pub mfe : Option D
  pub broker_order_id : Option String

-- `orderRecord`, of an order that protects a trade.
pub record ProtectiveOrder (D : Type 0) : Type 0 where
  pub trade_id : ℕ
  pub order_type : OrderType
  pub side : OrderSide
  pub price : Option D
  pub quantity : ℕ

pub record Excursion (D : Type 0) : Type 0 where
  pub mfe : D
  pub mae : D

pub record ClosedTradeHistoryEntry (D : Type 0) : Type 0 where
  pub broker_trade_id : String
  pub quantity : ℕ
  pub side : Side
  pub entry_time : ℕ
  pub exit_time : ℕ
  pub entry_price : D
  pub exit_price : D
  pub total_deductions : D
  pub net_pnl : D

pub record InstrumentSpec (D : Type 0) : Type 0 where
  pub tick_size : D
  pub point_value : D
  pub max_fill_deviation_points : D
  pub trailing_stop_tick_band : Option TickBand

pub record LiveOps (D B : Type 0) : Type 0 where
  pub is_position_flat : String → B → Option Bool × B
  pub cancel_resting_order : Option (String → B → Bool × B)
  pub place_trailing_stop : String → Side → ℕ → ℕ → B → Bool × B
  pub place_take_profit_order : String → Side → ℕ → D → B → Bool × B
  pub request_close_position : String → B → Bool × B
  pub flatten_position : String → Side → ℕ → B → Bool × B
  pub read_open_position_entry_price : String → B → Option D × B
  pub read_closed_trade_history : String → B → Option (List (ClosedTradeHistoryEntry D)) × B

pub record TradeWorld (D B : Type 0) : Type 0 where
  pub broker_state : B
  pub trades : List (TradeRow D)
  pub orders : List (ProtectiveOrder D)
  pub excursions : List (ℕ × Excursion D)
  pub entry_checked : List ℕ

abbrev pub closing_side : Side → OrderSide
closing_side long = sell
closing_side short = buy

module _ {D : Type 0} where
  -- `trade.findFirst({ where: { id, accountId, status: "open" } })`
  unfoldable pub find_open : ℕ → ℕ → List (TradeRow D) → Option (TradeRow D)
  find_open i account = find (λ t. t.id == i && (t.account_id == account && t.is_open))

  -- `trade.update({ where: { id }, data })`
  unfoldable pub update_trade :
      ℕ → (TradeRow D → TradeRow D) → List (TradeRow D) → List (TradeRow D)
  update_trade i change [] = []
  update_trade i change (t ∷ trades) =
      (if t.id == i then change t else t) ∷ update_trade i change trades

  unfoldable pub find_trade : ℕ → List (TradeRow D) → Option (TradeRow D)
  find_trade i = find (λ t. t.id == i)

  -- `trade.findFirst({ where: { accountId, symbol, status: "open" } })`, of the others than a trade.
  unfoldable pub other_open : ℕ → ℕ → String → List (TradeRow D) → Bool
  other_open i account symbol =
      any
        (λ t. not (t.id == i) && (t.account_id == account && (str_eq t.symbol symbol && t.is_open)))

  unfoldable pub any_open : ℕ → String → List (TradeRow D) → Bool
  any_open account symbol =
      any (λ t. t.account_id == account && (str_eq t.symbol symbol && t.is_open))

-- `Map` and `Set` with ids as keys: a later entry of a key is not read.
unfoldable pub excursion_of : {D : Type 0} → ℕ → List (ℕ × Excursion D) → Option (Excursion D)
excursion_of i [] = none
excursion_of i ((j, e) ∷ m) = if j == i then some e else excursion_of i m

unfoldable pub set_excursion :
    {D : Type 0} → ℕ → Excursion D → List (ℕ × Excursion D) → List (ℕ × Excursion D)
set_excursion i e [] = (i, e) ∷ []
set_excursion i e ((j, f) ∷ m) =
    let rest = set_excursion i e m in if j == i then (i, e) ∷ m else (j, f) ∷ rest

unfoldable pub delete_excursion : {D : Type 0} → ℕ → List (ℕ × Excursion D) → List (ℕ × Excursion D)
delete_excursion i [] = []
delete_excursion i ((j, f) ∷ m) =
    let rest = delete_excursion i m in if j == i then rest else (j, f) ∷ rest
