-- ===== src/Trades/History.antt =====
-- backend/src/browserControl/tradeHistoryPanel.ts: `findMatchingClosedTrade`, which matches a trade to a
-- row of the broker's own history by side, quantity and time of entry.
pub mod Closest
use tera_trade.Prelude.{
  Bool, List, Option, String, [], any, if◌then◌else◌, leb, ltb, max, min, none, not, some, str_eq,
  true, ℕ, ◌&&◌, ◌-◌, ◌==◌, ◌∷◌,
}
use tera_trade.Trades.Rows.{ClosedTradeHistoryEntry, TradeRow}
use tera_trade.Market.{side_eq}

abbrev pub match_tolerance_ms : ℕ
match_tolerance_ms = 180_000

module _ {D : Type 0} where
  -- `Math.abs` of the difference of two times.
  abbrev pub delta_ms : TradeRow D → ClosedTradeHistoryEntry D → ℕ
  delta_ms trade entry =
      max entry.entry_time trade.entry_time - min entry.entry_time trade.entry_time

  pub is_candidate : TradeRow D → List String → ClosedTradeHistoryEntry D → Bool
  is_candidate trade excluded entry =
      not (any (λ i. str_eq i entry.broker_trade_id) excluded)
      && (side_eq entry.side trade.side
          && (entry.quantity == trade.quantity && leb (delta_ms trade entry) match_tolerance_ms))

  -- `deltaMs < bestDeltaMs`, infinite before the first match.
  pub closer_in_time :
      TradeRow D → Option (ClosedTradeHistoryEntry D) → ClosedTradeHistoryEntry D → Bool
  closer_in_time trade none entry = true
  closer_in_time trade (some best) entry = ltb (delta_ms trade entry) (delta_ms trade best)

  pub match_step :
      TradeRow D
      → List String
      → Option (ClosedTradeHistoryEntry D)
      → ClosedTradeHistoryEntry D
      → Option (ClosedTradeHistoryEntry D)
  unfolding is_candidate closer_in_time
  match_step trade excluded best entry =
      if is_candidate trade excluded entry && closer_in_time trade best entry
      then some entry
      else best

  pub match_from :
      TradeRow D
      → List String
      → Option (ClosedTradeHistoryEntry D)
      → List (ClosedTradeHistoryEntry D)
      → Option (ClosedTradeHistoryEntry D)
  unfolding match_step
  match_from trade excluded best [] = best
  match_from trade excluded best (entry ∷ entries) =
      match_from trade excluded (match_step trade excluded best entry) entries

  unfoldable pub find_matching_closed_trade :
      TradeRow D
      → List (ClosedTradeHistoryEntry D)
      → List String
      → Option (ClosedTradeHistoryEntry D)
  unfolding match_from
  find_matching_closed_trade trade entries excluded = match_from trade excluded none entries
