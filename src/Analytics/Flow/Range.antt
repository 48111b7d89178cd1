-- ===== src/Analytics/Flow/Range.antt =====
-- The range of the signals of backend/src/analytics/orderFlow.ts and ppm.ts.
use tera_trade.Number.{Number, IsOrdered, of_nat, ◌≼◌}
use tera_trade.Analytics.Flow.{
  FlowSnapshot, clamp_signal, negated, order_flow_direction_signal, ppm_direction_signal,
}
use tera_trade.Prelude.{Option, arith, none, some}
use tera_trade.Market.{Side, long, short}

module _ {D : Type 0} ⦃n : Number D⦄ where
  abbrev IsSignal : D → Type 0
  IsSignal x = (negated (of_nat 1) ≼ x) × (x ≼ of_nat 1)

  module _ (laws : IsOrdered D) where
    open laws use {lte_total, lte_trans, minus-le, decimal_nonneg}

    minus_one_le : negated {D = D} (of_nat 1) ≼ of_nat 1
    unfolding negated
    minus_one_le =
        lte_trans _ _ _ (minus-le (of_nat 0) (of_nat 1) (decimal_nonneg 1 0)) (decimal_nonneg 1 0)

    zero-IsSignal : IsSignal (of_nat 0)
    unfolding negated
    zero-IsSignal = (minus-le (of_nat 0) (of_nat 1) (decimal_nonneg 1 0), decimal_nonneg 1 0)

    clamp_signal-IsSignal : (x : D) → IsSignal (clamp_signal x)
    unfolding clamp_signal
    clamp_signal-IsSignal x = ground (
      arith,
      minus_one_le,
      lte_total (negated (of_nat 1)) (negated (of_nat 1)),
      lte_total (of_nat 1) (of_nat 1),
      lte_total (of_nat 1) x,
      lte_total (negated (of_nat 1)) x,
    )

    order_flow_direction_signal-IsSignal :
        (snapshot : Option (FlowSnapshot D)) (side : Side)
        → IsSignal (order_flow_direction_signal snapshot side)
    unfolding order_flow_direction_signal
    order_flow_direction_signal-IsSignal none side = zero-IsSignal
    order_flow_direction_signal-IsSignal (some s) long = clamp_signal-IsSignal _
    order_flow_direction_signal-IsSignal (some s) short = clamp_signal-IsSignal _

    ppm_direction_signal-IsSignal :
        (net : Option D) (side : Side) → IsSignal (ppm_direction_signal net side)
    unfolding ppm_direction_signal
    ppm_direction_signal-IsSignal none side = zero-IsSignal
    ppm_direction_signal-IsSignal (some x) long = clamp_signal-IsSignal _
    ppm_direction_signal-IsSignal (some x) short = clamp_signal-IsSignal _

    -- Whatever is read or missing, the signals of order flow and of speed lie between -1 and 1.
    pub direction_signals_bounds :
        (snapshot : Option (FlowSnapshot D)) (net : Option D) (side : Side)
        → IsSignal (order_flow_direction_signal snapshot side)
          × IsSignal (ppm_direction_signal net side)
    direction_signals_bounds snapshot net side =
        (order_flow_direction_signal-IsSignal snapshot side, ppm_direction_signal-IsSignal net side)
