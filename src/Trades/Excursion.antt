-- ===== src/Trades/Excursion.antt =====
-- backend/src/engine/loop.ts: `trackExcursion`, the largest favourable and adverse move of a trade.
pub mod Grown
use tera_trade.Trades.Rows.{Excursion, TradeRow, excursion_of, set_excursion}
use tera_trade.Prelude.{List, get_or, if◌then◌else◌, ℕ}
use tera_trade.Number.{Number, larger, minus, of_nat, times}
use tera_trade.Market.{Side, is_long, long, short}

module _ {D : Type 0} ⦃n : Number D⦄ where
  abbrev pub no_excursion : Excursion D
  no_excursion = record { mfe = of_nat 0; mae = of_nat 0 }

  abbrev pub direction_of : Side → D
  direction_of long = of_nat 1
  direction_of short = minus (of_nat 0) (of_nat 1)

  pub favorable_move : TradeRow D → D → D → D
  favorable_move trade high low =
      let extreme = if is_long trade.side then high else low in
      larger (of_nat 0) (times (minus extreme trade.entry_price) (direction_of trade.side))

  pub adverse_move : TradeRow D → D → D → D
  adverse_move trade high low =
      let extreme = if is_long trade.side then low else high in
      larger (of_nat 0) (times (minus trade.entry_price extreme) (direction_of trade.side))

  unfoldable pub track_excursion :
      TradeRow D → D → D → List (ℕ × Excursion D) → List (ℕ × Excursion D)
  unfolding excursion_of set_excursion favorable_move adverse_move
  track_excursion trade high low m =
      let existing = get_or (excursion_of trade.id m) no_excursion in
      set_excursion trade.id
        (record {
          mfe = larger existing.mfe (favorable_move trade high low);
          mae = larger existing.mae (adverse_move trade high low);
        })
        m
