-- ===== src/Trades/Conflict.antt =====
-- backend/src/engine/crossSymbolConflictCheck.ts, with `getConflictingPartnerSymbol` of
-- backend/src/marketData/instruments.ts.
pub mod Compatible
use tera_trade.Prelude.{
  Bool, List, Option, String, any, false, if◌then◌else◌, none, some, str_eq, ℕ, ◌&&◌, ◌==◌,
}
use tera_trade.Market.{Side, opposite, side_eq}
use tera_trade.Trades.Rows.{TradeRow}

pub get_conflicting_partner_symbol : String → Option String
get_conflicting_partner_symbol symbol =
    if str_eq symbol "ES" then some "NQ" else if str_eq symbol "NQ" then some "ES" else none

module _ {D : Type 0} where
  pub conflicts : List ℕ → String → Side → TradeRow D → Bool
  conflicts accounts partner side t =
      any (λ a. a == t.account_id) accounts
      && (str_eq t.symbol partner && (side_eq t.side (opposite side) && t.is_open))

  unfoldable pub has_conflicting_cross_symbol_position :
      List ℕ → String → Side → List (TradeRow D) → Bool
  unfolding conflicts get_conflicting_partner_symbol
  has_conflicting_cross_symbol_position accounts symbol side trades =
      elim (get_conflicting_partner_symbol symbol) [
        | none ↦ false
        | some partner ↦ any (conflicts accounts partner side) trades
      ]
