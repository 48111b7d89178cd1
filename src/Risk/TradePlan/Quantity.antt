-- ===== src/Risk/TradePlan/Quantity.antt =====
-- The quantity of a trade plan of backend/src/risk/tradePlan.ts, and its risk in dollars.
use tera_trade.Prelude.{ℕ, ◌≤◌, ◌<◌, ◌≡◌, ◌⊎◌, some, none, arith}
use tera_trade.Number.{Number, IsOrdered, ◌≺◌, times, divided_by, of_nat, ◌≼◌}
use tera_trade.Market.{Side}
use tera_trade.Risk.Sizing.Budget.{compute_position_size_bounds}
use tera_trade.Risk.Sizing.Tiers.{compute_confidence_tier_quantity_le}
use tera_trade.Risk.TradePlan.{
  TradePlanParams, Prices, profit_prices, dollar_prices, trade_quantity, planned_prices,
  compute_trade_plan, min_risk_reward_denominator,
}

module _ {D : Type 0} ⦃n : Number D⦄ where
  -- A plan never takes more contracts than the account's limit, and it takes none, or the stop distance
  -- that it is sized by and the dollar risk of one contract at that distance are positive.
  pub compute_trade_plan_quantity :
      (p : TradePlanParams D)
      → let distance = (planned_prices p).distance in
        let quantity = (compute_trade_plan p).quantity in
        (quantity ≤ p.max_position_size)
        × ((quantity ≡ 0) ⊎ ((of_nat 0 ≺ distance) × (of_nat 0 ≺ times distance p.point_value)))
  unfolding compute_trade_plan trade_quantity
  compute_trade_plan_quantity p =
      let distance = (planned_prices p).distance in
      let bounds =
        compute_position_size_bounds p.risk_amount distance p.point_value p.max_position_size in
      let le =
        compute_confidence_tier_quantity_le p.average_probability p.max_position_size
          p.confidence_tiers in
      ground arith

  profit_prices_floor :
      (laws : IsOrdered D) (entry : D) (side : Side) (value : D) (quantity : ℕ) (profit : D)
      (p : Prices D)
      → let distance = (profit_prices entry side value quantity profit p).distance in
        let floor = divided_by profit min_risk_reward_denominator in
        (floor ≼ times (times distance value) (of_nat quantity))
        ⊎ (distance ≡ divided_by floor (times value (of_nat quantity)))
  unfolding profit_prices
  profit_prices_floor laws entry side value quantity profit p = ground arith

  -- With a profit target in dollars, and no explicit target price, a plan that takes contracts risks at
  -- least a third of that profit, or stands at exactly the distance that costs that third.
  pub compute_trade_plan_risk_floor :
      (laws : IsOrdered D) (p : TradePlanParams D) {profit : D}
      → p.profit_dollars ≡ some profit
      → p.explicit_take_profit_price ≡ none
      → 0 < (compute_trade_plan p).quantity
      → let plan = compute_trade_plan p in
        let floor = divided_by profit min_risk_reward_denominator in
        (floor ≼ times (times plan.stop_distance_points p.point_value) (of_nat plan.quantity))
        ⊎ (plan.stop_distance_points
            ≡ divided_by floor (times p.point_value (of_nat plan.quantity)))
  unfolding compute_trade_plan dollar_prices
  compute_trade_plan_risk_floor laws p {profit} e f pos =
      let initial = planned_prices p in
      let q = trade_quantity p initial.distance in
      ground (arith, profit_prices_floor laws p.entry_price p.side p.point_value q profit initial)
