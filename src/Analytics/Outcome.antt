-- ===== src/Analytics/Outcome.antt =====
-- backend/src/analytics/outcomeSimulation.ts: what a setup would have made of the bars that followed.
pub mod First
use tera_trade.Prelude.{Bool, if◌then◌else◌, Option, none, some, List, [], ◌∷◌, get_last?}
use tera_trade.Number.{Number, lte, gte, gt, minus, times, divided_by, abs, of_nat}
use tera_trade.Market.{Side, is_long, OhlcBar}

pub data OutcomeLabel : Type 0 where
  win loss no_resolution : OutcomeLabel

pub record HypotheticalOutcome (D : Type 0) : Type 0 where
  pub label : OutcomeLabel
  pub r_multiple : D

module _ {D : Type 0} ⦃n : Number D⦄ where
  abbrev pub hits_stop : Side → D → OhlcBar D → Bool
  hits_stop side stop_price bar =
      if is_long side then lte bar.low stop_price else gte bar.high stop_price

  abbrev pub hits_target : Side → D → OhlcBar D → Bool
  hits_target side take_profit_price bar =
      if is_long side then gte bar.high take_profit_price else lte bar.low take_profit_price

  abbrev pub minus_one : D
  minus_one = minus (of_nat 0) (of_nat 1)

  pub win_multiple : D → D → D → D
  win_multiple entry_price stop_price take_profit_price =
      let stop_distance = abs (minus entry_price stop_price) in
      if gt stop_distance (of_nat 0)
      then divided_by (abs (minus take_profit_price entry_price)) stop_distance
      else of_nat 0

  -- The multiple at the last bar's close.
  open_multiple : Side → D → D → Option (OhlcBar D) → D
  open_multiple side entry_price stop_price none = of_nat 0
  open_multiple side entry_price stop_price (some last) =
      let stop_distance = abs (minus entry_price stop_price) in
      let direction = if is_long side then of_nat 1 else minus_one in
      if gt stop_distance (of_nat 0)
      then divided_by (times (minus last.close entry_price) direction) stop_distance
      else of_nat 0

  -- The loop over the bars; the first argument is the answer after the last of them.
  walk_bars : HypotheticalOutcome D → Side → D → D → D → List (OhlcBar D) → HypotheticalOutcome D
  unfolding win_multiple
  walk_bars unresolved side entry_price stop_price take_profit_price [] = unresolved
  walk_bars unresolved side entry_price stop_price take_profit_price (bar ∷ bars) =
      let rest = walk_bars unresolved side entry_price stop_price take_profit_price bars in
      if hits_stop side stop_price bar
      then record { label = loss; r_multiple = minus_one }
      else if hits_target side take_profit_price bar
      then record {
        label = win;
        r_multiple = win_multiple entry_price stop_price take_profit_price;
      }
      else rest

  pub evaluate_hypothetical_outcome : Side → D → D → D → List (OhlcBar D) → HypotheticalOutcome D
  unfolding walk_bars open_multiple
  evaluate_hypothetical_outcome side entry_price stop_price take_profit_price bars =
      let unresolved : HypotheticalOutcome D = record {
        label = no_resolution;
        r_multiple = open_multiple side entry_price stop_price (get_last? bars);
      } in
      walk_bars unresolved side entry_price stop_price take_profit_price bars
