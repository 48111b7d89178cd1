-- ===== src/Execution/Engine/Shift.antt =====
-- What `executeIfApproved` of backend/src/execution/engine.ts records of a fill.
use mathlib.Core.Option
use tera_trade.Prelude.{Bool, ◌≡◌, ◌⊎◌, true, false, Option, some, ◌∷◌}
use tera_trade.Number.{Number, minus}
use tera_trade.Execution.Engine.{Setup, Database, Trade, ExecutionResult, executed}

abbrev pub is_executed : ExecutionResult → Bool
is_executed (executed id) = true
is_executed _ = false

module _ {D : Type 0} ⦃n : Number D⦄ where
  -- One new trade with the assessed quantity, whose stop and target stand as far from its real entry as
  -- the assessed ones from the assessed entry; or nothing recorded, and not reported as executed.
  abbrev pub IsRecorded : Setup D → Database D → ExecutionResult → Database D → Type 0
  IsRecorded s db result after =
      ((t : Trade D) × (result ≡ executed t.id)
        × (after.trades ≡ t ∷ db.trades)
        × (t.id ≡ db.next_trade_id)
        × (t.quantity ≡ s.assessment.quantity)
        × (Option.map (λ p. minus p s.entry_price) s.assessment.stop_price
            ≡ some (minus t.stop_price t.entry_price))
        × (Option.map (λ p. minus p s.entry_price) s.assessment.take_profit_price
            ≡ Option.map (λ p. minus p t.entry_price) t.take_profit_price))
      ⊎ ((after ≡ db) × (is_executed result ≡ false))
