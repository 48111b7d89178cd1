-- ===== src/Tests/Trades.antt =====
-- Ticks, closes and the history of a trade, on concrete rows.
use tera_trade.Trades.Close.{ClosedSimTrade, close_trade}
use tera_trade.Trades.Rows.{
  ClosedTradeHistoryEntry, Excursion, InstrumentSpec, LiveOps, TradeRow, TradeWorld, by_stop,
  by_target, excursion_of, find_open, no_note, simulated,
}
use tera_trade.Number.Fixed.{Fixed, Fixed-IsExact, Fixed-IsOrdered, fixed_number, Fixed-IsMonotone}
use tera_trade.Trades.Reanchor.Kept.{IsAnchored, maybe_reanchor_to_real_entry-IsAnchored}
use tera_trade.Trades.History.Closest.{IsClosestMatch, find_matching_closed_trade-IsClosestMatch}
use tera_trade.Trades.Conflict.Compatible.{
  IsCompatible, has_conflicting_cross_symbol_position-IsCompatible,
}
use tera_trade.Trades.Live.Flat.{IsFlatAlways, manage_live_open_trade_closed}
use tera_trade.Brokers.Simulated.{SimulatedBroker}
use tera_trade.Trades.Live.{TickContext, manage_live_open_trade}
use tera_trade.Prelude.{
  [], false, get_or, none, refl, some, true, ◌∷◌, ◌≡◌, ◌≢◌, List, ℕ, All, Bool, IsIn, String, arith,
  if◌then◌else◌, leb, suc,
}
use tera_trade.Tests.Data.{whole_points}
use tera_trade.Trades.Excursion.{no_excursion, track_excursion}
use tera_trade.Tests.Gates.{chart}
use tera_trade.Trades.Close.Once.{close_trade-close_trade}
use tera_trade.Tests.Execution.{empty_broker}
use tera_trade.Trades.History.{find_matching_closed_trade}
use tera_trade.Trades.Conflict.{has_conflicting_cross_symbol_position}
use tera_trade.Market.{long, Side}
use tera_trade.Trades.Live.Glitch.{manage_live_open_trade-unread}
use tera_trade.Trades.Live.Exits.{manage_live_open_trade-with_exits, IsSameWhenOpen}
use tera_trade.Trades.Paper.{sim_ops}
use tera_trade.Trades.Reanchor.{maybe_reanchor_to_real_entry}
use tera_trade.Prelude.Int.{pos, negsuc, ℤ}
use tera_trade.Risk.ChartZoneGate.{read_failed}
use tera_trade.Trades.Excursion.Grown.{track_excursion-IsGrown, IsGreatestIn, gain_at, loss_at}
use tera_trade.Trades.Close.Exits.{with_exits}
use tera_trade.Trades.Equity.{EquityPoint, compute_account_risk_state}
use tera_trade.Trades.Equity.Peak.{
  IsClosedToday, IsPeakOf, IsStreak, closed_today_of, compute_account_risk_state-IsPeakOf,
}

abbrev trade : TradeRow Fixed
trade = record {
  id = 7;
  account_id = 1;
  symbol = "NQ";
  broker_kind = simulated;
  side = long;
  quantity = 2;
  entry_time = 1_000_000;
  entry_price = whole_points 5000;
  stop_price = whole_points 4996;
  take_profit_price = some (whole_points 5012);
  is_open = true;
  trailing_stop_placed = false;
  take_profit_order_placed = false;
  let_it_ride = false;
  exit_time = none;
  exit_price = none;
  exit_reason = none;
  exit_note = no_note;
  pnl = none;
  fees = none;
  mae = none;
  mfe = none;
  broker_order_id = none;
}

abbrev spec : InstrumentSpec Fixed
spec = record {
  tick_size = pos 2500;
  point_value = whole_points 2;
  max_fill_deviation_points = whole_points 10;
  trailing_stop_tick_band = some (record { min_ticks = 20; max_ticks = 35 });
}

abbrev paper_world : TradeWorld Fixed (SimulatedBroker Fixed)
paper_world = record {
  broker_state = empty_broker;
  trades = trade ∷ [];
  orders = [];
  excursions = [];
  entry_checked = [];
}

abbrev exit_at_stop : ClosedSimTrade Fixed
exit_at_stop = record {
  trade_id = 7;
  symbol = "NQ";
  exit_time = 2_000_000;
  exit_price = whole_points 4996;
  exit_reason = by_stop;
  custom_tag = none;
}

close_trade-close_trade_example :
    let after = close_trade sim_ops false spec 1 exit_at_stop paper_world in
    (find_open 7 1 after.trades ≡ none)
    × (close_trade sim_ops true spec 1 (record exit_at_stop { exit_reason = by_target }) after
        ≡ after)
close_trade-close_trade_example =
    close_trade-close_trade sim_ops sim_ops false true spec spec 1 exit_at_stop
      (record exit_at_stop { exit_reason = by_target }) paper_world refl

-- A live broker that reports every position as gone, and whose history has one row.
abbrev history_row : ClosedTradeHistoryEntry Fixed
history_row = record {
  broker_trade_id = "3063210748";
  quantity = 2;
  side = long;
  entry_time = 1_005_000;
  exit_time = 1_900_000;
  entry_price = whole_points 5001;
  exit_price = whole_points 4997;
  total_deductions = pos 0;
  net_pnl = pos 0;
}

abbrev flat_ops : LiveOps Fixed (SimulatedBroker Fixed)
flat_ops = record sim_ops {
  is_position_flat = λ symbol b. (some true, b);
  read_closed_trade_history = λ symbol b. (some (history_row ∷ []), b);
  read_open_position_entry_price = λ symbol b. (some (whole_points 5001), b);
}

abbrev tick : TickContext Fixed (SimulatedBroker Fixed)
tick = record {
  ops = flat_ops;
  instrument = spec;
  account = 1;
  atr_value = none;
  now = 2_000_000;
  chart_gate_enabled = true;
  chart = chart;
  bar_time = 2_000_000;
  high = whole_points 5003;
  low = whole_points 4995;
}

abbrev flat_always : IsFlatAlways flat_ops
flat_always symbol b = refl

manage_live_open_trade_closed_example :
    find_open 7 1 (manage_live_open_trade tick trade paper_world).trades ≡ none
manage_live_open_trade_closed_example =
    manage_live_open_trade_closed tick trade paper_world flat_always

-- A live broker whose state counts the reads of the position, which is gone from the third one on, and
-- whose close button fails.
abbrev counting_ops : LiveOps Fixed ℕ
counting_ops = record {
  is_position_flat = λ symbol b. (some (leb 2 b), suc b);
  cancel_resting_order = none;
  place_trailing_stop = λ symbol side quantity ticks b. (true, b);
  place_take_profit_order = λ symbol side quantity price b. (true, b);
  request_close_position = λ symbol b. (false, b);
  flatten_position = λ symbol side quantity b. (true, b);
  read_open_position_entry_price = λ symbol b. (none, b);
  read_closed_trade_history = λ symbol b. (none, b);
}

abbrev counting_tick : TickContext Fixed ℕ
counting_tick = record {
  ops = counting_ops;
  instrument = spec;
  account = 1;
  atr_value = none;
  now = 2_000_000;
  chart_gate_enabled = false;
  chart = chart;
  bar_time = 2_000_000;
  high = whole_points 5001;
  low = whole_points 4995;
}

abbrev counting_world : TradeWorld Fixed ℕ
counting_world = record {
  broker_state = 0;
  trades = trade ∷ [];
  orders = [];
  excursions = [];
  entry_checked = [];
}

-- Exits that go wrong once the position is gone.
abbrev late_close : String → ℕ → Bool × ℕ
late_close symbol b = if leb b 2 then (false, b) else (true, 99)

abbrev late_flatten : String → Side → ℕ → ℕ → Bool × ℕ
late_flatten symbol side quantity b = if leb b 2 then (true, b) else (true, 99)

late_exits-IsSameWhenOpen : IsSameWhenOpen late_close late_flatten counting_ops
late_exits-IsSameWhenOpen symbol b e = (ground (arith, e), λ side quantity. ground (arith, e))

manage_live_open_trade-with_exits_example :
    manage_live_open_trade
      (record counting_tick { ops = with_exits late_close late_flatten counting_ops })
      trade
      counting_world
    ≡ manage_live_open_trade counting_tick trade counting_world
manage_live_open_trade-with_exits_example =
    manage_live_open_trade-with_exits late_close late_flatten counting_tick trade counting_world
      late_exits-IsSameWhenOpen

manage_live_open_trade-unread_example :
    manage_live_open_trade (record tick { chart = read_failed "no tab" }) trade paper_world
    ≡ manage_live_open_trade (record tick { chart_gate_enabled = false }) trade paper_world
manage_live_open_trade-unread_example =
    manage_live_open_trade-unread "no tab" tick trade paper_world

maybe_reanchor_to_real_entry-IsAnchored_example :
    let after = (maybe_reanchor_to_real_entry flat_ops spec trade paper_world).0 in
    (IsIn trade.id [] → after ≡ trade)
    × ((¬ IsIn trade.id []) → IsAnchored spec trade (some (whole_points 5001)) after)
maybe_reanchor_to_real_entry-IsAnchored_example =
    maybe_reanchor_to_real_entry-IsAnchored Fixed-IsOrdered Fixed-IsExact flat_ops spec trade
      paper_world

track_excursion-IsGrown_example :
    let m : List (ℕ × Excursion Fixed) = [] in
    let before = get_or (excursion_of 7 m) no_excursion in
    let after = track_excursion trade (whole_points 5003) (whole_points 4995) m in
    ((e : Excursion Fixed) × (excursion_of 7 after ≡ some e)
      × IsGreatestIn (gain_at trade) (whole_points 5003) (whole_points 4995) before.mfe e.mfe
      × IsGreatestIn (loss_at trade) (whole_points 5003) (whole_points 4995) before.mae e.mae)
    × (trade.id ≢ 8 → excursion_of 8 after ≡ excursion_of 8 m)
track_excursion-IsGrown_example =
    track_excursion-IsGrown Fixed-IsOrdered Fixed-IsMonotone trade (whole_points 5003)
      (whole_points 4995) [] 8 refl

match_is_the_row : find_matching_closed_trade trade (history_row ∷ []) [] ≡ some history_row
unfolding find_matching_closed_trade
match_is_the_row = refl

find_matching_closed_trade-IsClosestMatch_example :
    IsClosestMatch trade
      ("3063210749" ∷ [])
      (history_row ∷ [])
      (find_matching_closed_trade trade (history_row ∷ []) ("3063210749" ∷ []))
find_matching_closed_trade-IsClosestMatch_example =
    find_matching_closed_trade-IsClosestMatch trade (history_row ∷ []) ("3063210749" ∷ [])

abbrev es_trade : TradeRow Fixed
es_trade = record trade { id = 8; symbol = "ES" }

nothing_held : has_conflicting_cross_symbol_position {D = Fixed} (1 ∷ []) "NQ" long [] ≡ false
unfolding has_conflicting_cross_symbol_position
nothing_held = refl

only_trade : IsCompatible (1 ∷ []) (trade ∷ [])
only_trade =
    has_conflicting_cross_symbol_position-IsCompatible (1 ∷ []) [] trade
      (λ t u in_t in_u held_t held_u opposed. in_t) nothing_held

no_conflict : has_conflicting_cross_symbol_position (1 ∷ []) "ES" long (trade ∷ []) ≡ false
unfolding has_conflicting_cross_symbol_position
no_conflict = refl

has_conflicting_cross_symbol_position-IsCompatible_example :
    IsCompatible (1 ∷ []) (es_trade ∷ trade ∷ [])
has_conflicting_cross_symbol_position-IsCompatible_example =
    has_conflicting_cross_symbol_position-IsCompatible (1 ∷ []) (trade ∷ []) es_trade only_trade
      no_conflict

abbrev point : EquityPoint Fixed
point = record {
  time = 1000;
  account_id = 1;
  broker_kind = simulated;
  equity = whole_points 50_500;
}

-- A loss and a win of the day, and a loss of an earlier day.
abbrev closed_at : ℕ → ℤ → TradeRow Fixed
closed_at time pnl = record trade { is_open = false; exit_time = some time; pnl = some pnl }

abbrev closed_trades : List (TradeRow Fixed)
closed_trades =
    closed_at 5000 (negsuc 20_000)
    ∷ closed_at 4000 (negsuc 10_000)
    ∷ closed_at 3000 (pos 10_000)
    ∷ closed_at 500 (negsuc 10_000)
    ∷ []

abbrev other_point : EquityPoint Fixed
other_point = record point { account_id = 2; equity = whole_points 90_000 }

risk_state_run :
    (compute_account_risk_state 1 simulated
      (whole_points 50_000)
      1000
      (other_point ∷ point ∷ [])
      closed_trades
      closed_trades).consecutive_losses
    ≡ 2
unfolding compute_account_risk_state
risk_state_run = refl

compute_account_risk_state-IsPeakOf_example :
    let s =
      compute_account_risk_state 1 simulated
        (whole_points 50_000)
        1000
        (other_point ∷ point ∷ [])
        closed_trades
        closed_trades in
    IsPeakOf 1 simulated (whole_points 50_000) (other_point ∷ point ∷ []) s.peak_equity
    × IsStreak (closed_today_of 1 simulated 1000 closed_trades) s.consecutive_losses
    × All (IsClosedToday 1 simulated 1000) (closed_today_of 1 simulated 1000 closed_trades)
compute_account_risk_state-IsPeakOf_example =
    compute_account_risk_state-IsPeakOf Fixed-IsOrdered 1 simulated (whole_points 50_000) 1000
      (other_point ∷ point ∷ []) closed_trades closed_trades
