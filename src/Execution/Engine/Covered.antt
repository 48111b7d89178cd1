-- ===== src/Execution/Engine/Covered.antt =====
-- `executeIfApproved` of backend/src/execution/engine.ts on an answer of the risk engine.
use mathlib.Core.Option
use tera_trade.Prelude.{◌≡◌, ◌≢◌, refl, true, Option, some, none, arith, get_or}
use tera_trade.Number.{Number, plus, minus}
use tera_trade.Brokers.Types.{BrokerClient, FillStatus, filled, pending, rejected}
use tera_trade.Execution.Engine.{
  Setup, Database, missing_stop, Reason, entry_guard, guarded_entry, execute_if_approved, filled_at,
  record_trade, after_order, await_fill, limit_fill_confirmation_retries, order_request,
}
use tera_trade.Risk.Engine.{AssessParams, assess_new_trade}
use tera_trade.Risk.Engine.Approval.{assess_new_trade-IsProtected}

module _ {D : Type 0} ⦃n : Number D⦄ where
  record_trade_covered :
      (s : Setup D) (fill : D) (stop : Option D) (db : Database D) {p : D}
      → stop ≡ some p
      → (record_trade s fill (Option.map (λ p. plus p (minus fill s.entry_price)) stop) db).0
        ≢ missing_stop
  unfolding record_trade
  record_trade_covered s fill none db e = cc
  record_trade_covered s fill (some q) db e = ground arith

  approved_of_guard : (s : Setup D) → entry_guard s ≡ none → s.assessment.approved ≡ true
  unfolding entry_guard
  approved_of_guard s e = ground arith

  module _ {B : Type 0} where
    filled_at_covered :
        (s : Setup D) (fill : D) (b : B) (db : Database D) {p : D}
        → s.assessment.stop_price ≡ some p
        → (filled_at s fill b db).result ≢ missing_stop
    unfolding filled_at
    filled_at_covered s fill b db e = record_trade_covered s fill s.assessment.stop_price db e

    after_order_covered :
        (broker : BrokerClient D B) (s : Setup D) (status : FillStatus) (price : Option D) (b : B)
        (db : Database D) {p : D}
        → s.assessment.stop_price ≡ some p
        → (after_order broker s status price b db).result ≢ missing_stop
    unfolding after_order
    after_order_covered broker s rejected price b db e = ground arith
    after_order_covered broker s filled price b db e =
        filled_at_covered s (get_or price s.entry_price) b db e
    after_order_covered broker s pending price b db e =
        let (confirmed, polled) =
          await_fill broker s.signal.symbol limit_fill_confirmation_retries b in
        ground (arith, filled_at_covered s s.entry_price polled db e)

    guarded_entry_covered :
        (g : Option Reason) (broker : BrokerClient D B) (s : Setup D) (b : B) (db : Database D)
        → (g ≡ none → (p : D) × (s.assessment.stop_price ≡ some p))
        → (guarded_entry g broker s b db).result ≢ missing_stop
    unfolding guarded_entry
    guarded_entry_covered (some r) broker s b db h = ground arith
    guarded_entry_covered none broker s b db h =
        let (result, placed) = broker.place_order (order_request s) b in
        after_order_covered broker s result.status result.filled_price placed db (h refl).1

    -- On an assessment that the risk engine made, the call never fails for a missing stop.
    pub execute_if_approved_covered :
        (broker : BrokerClient D B) (s : Setup D) (b : B) (db : Database D) (p : AssessParams D)
        → s.assessment ≡ assess_new_trade p
        → (execute_if_approved broker s b db).result ≢ missing_stop
    unfolding execute_if_approved
    execute_if_approved_covered broker s b db p e =
        let protect : entry_guard s ≡ none → (x : D) × (s.assessment.stop_price ≡ some x) =
          λ passed.
            let approved = approved_of_guard s passed in
            let safe = assess_new_trade-IsProtected p (rw e at approved) in
            (safe.stop, rw e safe.stop_set) in
        guarded_entry_covered (entry_guard s) broker s b db protect
