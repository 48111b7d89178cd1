-- ===== src/Risk/Engine/Approval.antt =====
-- What an approved assessment of backend/src/risk/engine.ts guarantees.
use tera_trade.Prelude.{
  if◌then◌else◌, ◌≤◌, ◌<◌, ◌≡◌, ◌⊎◌, inl, inr, refl, true, false, Bool-cases, Option, some, none,
  arith,
}
use tera_trade.Number.{Number, minus, times, abs, ◌≼◌, ◌≺◌}
use tera_trade.Market.{Side, long, short}
use tera_trade.Analytics.SupportResistance.{SrLevel}
use tera_trade.Risk.Stops.{min_reward_risk_ratio}
use tera_trade.Risk.Sizing.Tiers.{compute_confidence_tier_quantity_le}
use tera_trade.Risk.DailyPlan.{RangeMode}
use tera_trade.Risk.TradePlan.{compute_trade_plan}
use tera_trade.Risk.TradePlan.Quantity.{compute_trade_plan_quantity}
use tera_trade.Risk.Engine.{
  final_assessment, AssessParams, AssessReason, RiskAssessment, rejected, unless, sr_gate,
  daily_plan_gate, daily_plan_range, nearest_level, level_of, assess_assistant, assess_generic,
  assess_prices, assess_new_trade, assistant_prices, reward_below_risk_violation,
  reward_risk_floor_violation, room_too_small_test, min_target_distance, settled_prices,
  target_level, trade_plan_params,
}

module _ {D : Type 0} ⦃n : Number D⦄ where
  -- The target strictly ahead of the entry and the stop strictly behind it, and more to win than to lose.
  abbrev pub RewardExceedsRisk : Side → D → D → D → Type 0
  RewardExceedsRisk long entry stop target =
      (entry ≺ target) × (stop ≺ entry) × (abs (minus entry stop) ≺ abs (minus target entry))
  RewardExceedsRisk short entry stop target =
      (target ≺ entry) × (entry ≺ stop) × (abs (minus entry stop) ≺ abs (minus target entry))

  -- The target at three times the stop distance that the trade is sized by, or farther.
  abbrev pub RewardIsTriple : D → D → D → Type 0
  RewardIsTriple entry distance target =
      times distance min_reward_risk_ratio ≼ abs (minus target entry)

  pub record IsProtected (p : AssessParams D) (a : RiskAssessment D) : Type 0 where
    pub stop : D
    pub target : D
    pub distance : D
    pub stop_set : a.stop_price ≡ some stop
    pub target_set : a.take_profit_price ≡ some target
    pub distance_set : a.stop_distance_points ≡ some distance
    pub worth :
        RewardExceedsRisk p.side p.entry_price stop target
        ⊎ RewardIsTriple p.entry_price distance target
    pub positive : 0 < a.quantity
    pub bounded : a.quantity ≤ p.limits.max_position_size

  reward_below_risk_lem :
      (entry stop target : D) (side : Side)
      → reward_below_risk_violation entry stop target side ≡ false
      → RewardExceedsRisk side entry stop target
  unfolding reward_below_risk_violation
  reward_below_risk_lem entry stop target long e = ground arith
  reward_below_risk_lem entry stop target short e = ground arith

  reward_risk_floor_lem :
      (distance target entry : D)
      → reward_risk_floor_violation distance target entry ≡ false
      → RewardIsTriple entry distance target
  unfolding reward_risk_floor_violation
  reward_risk_floor_lem distance target entry e = ground arith

  assess_assistant-IsProtected :
      (p : AssessParams D) (cap : D) (nearest : Option (SrLevel D))
      → (assess_assistant p cap nearest).approved ≡ true
      → IsProtected p (assess_assistant p cap nearest)
  unfolding assess_assistant rejected
  assess_assistant-IsProtected p cap nearest e =
      let prices = assistant_prices p.side p.entry_price p.tick_size cap in
      elim (Bool-cases
        (reward_below_risk_violation p.entry_price prices.stop prices.target p.side)) [
          | inl bad ↦ absurd (ground arith)
          | inr good ↦ record {
            stop = prices.stop;
            target = prices.target;
            distance = prices.distance;
            stop_set = ground arith;
            target_set = ground arith;
            distance_set = ground arith;
            worth = inl (reward_below_risk_lem p.entry_price prices.stop prices.target p.side good);
            positive = ground arith;
            bounded = ground (
              arith,
              compute_confidence_tier_quantity_le p.average_probability p.limits.max_position_size
                  p.confidence_tiers,
            );
          }
        ]

  assess_generic-IsProtected :
      (p : AssessParams D) (mode : RangeMode D) (nearest : Option (SrLevel D))
      → (assess_generic p mode nearest).approved ≡ true
      → IsProtected p (assess_generic p mode nearest)
  unfolding assess_generic
  assess_generic-IsProtected p mode nearest e =
      let params = trade_plan_params p mode in
      let plan = compute_trade_plan params in
      let level = target_level p params.explicit_take_profit_price in
      let prices = settled_prices p plan level in
      let small = room_too_small_test p.entry_price p.tick_size (min_target_distance p) prices in
      let violated = reward_risk_floor_violation prices.distance prices.target p.entry_price in
      elim (Bool-cases small) [
        | inl bad ↦ absurd (ground arith)
        | inr roomy ↦ elim (Bool-cases violated) [
          | inl bad ↦ absurd (ground arith)
          | inr good ↦ record {
            stop = prices.stop;
            target = prices.target;
            distance = prices.distance;
            stop_set = ground arith;
            target_set = ground arith;
            distance_set = ground arith;
            worth = inr (reward_risk_floor_lem prices.distance prices.target p.entry_price good);
            positive = ground arith;
            bounded = ground (arith, (compute_trade_plan_quantity params).0);
          }
        ]
      ]

  assess_prices-IsProtected :
      (p : AssessParams D) (dollars cap : Option D) (mode : RangeMode D)
      (nearest : Option (SrLevel D))
      → (assess_prices p dollars cap mode nearest).approved ≡ true
      → IsProtected p (assess_prices p dollars cap mode nearest)
  unfolding assess_prices
  assess_prices-IsProtected p (some dollars) (some cap) mode nearest e =
      assess_assistant-IsProtected p cap nearest e
  assess_prices-IsProtected p (some dollars) none mode nearest e =
      assess_generic-IsProtected p mode nearest e
  assess_prices-IsProtected p none cap mode nearest e = assess_generic-IsProtected p mode nearest e

  -- The gates that a trade has passed when `assessNewTrade` reaches its prices.
  abbrev pub IsCleared : AssessParams D → Type 0
  IsCleared p =
      (p.has_conflicting_cross_symbol_position ≡ false)
      × ((p.sr_gate_bypass ≡ true)
          ⊎ (sr_gate p.signal_kind p.sr_proximity_gate_suspended (nearest_level p) ≡ none))
      × (daily_plan_gate p.requires_daily_plan (daily_plan_range p) ≡ none)

  unless_lem :
      (gate : Option AssessReason) (nearest : Option (SrLevel D)) (rest : RiskAssessment D)
      → (unless gate nearest rest).approved ≡ true
      → (gate ≡ none) × (unless gate nearest rest ≡ rest) × (rest.approved ≡ true)
  unfolding unless
  unless_lem none nearest rest e = (refl, refl, e)
  unless_lem (some reason) nearest rest e = absurd (ground arith)

  pub assess_new_trade_lem :
      (p : AssessParams D)
      → (assess_new_trade p).approved ≡ true
      → IsCleared p
        × (assess_new_trade p ≡ final_assessment p)
        × ((final_assessment p).approved ≡ true)
  unfolding assess_new_trade
  assess_new_trade_lem p e =
      let level_gate =
        if p.sr_gate_bypass
        then none
        else sr_gate p.signal_kind p.sr_proximity_gate_suspended (nearest_level p) in
      let plan_gate = daily_plan_gate p.requires_daily_plan (daily_plan_range p) in
      let level = level_of (nearest_level p) in
      let rest = final_assessment p in
      ground (
        arith,
        unless_lem level_gate level (unless plan_gate level rest),
        unless_lem plan_gate level rest,
      )

  final_assessment-IsProtected :
      (p : AssessParams D)
      → (final_assessment p).approved ≡ true
      → IsProtected p (final_assessment p)
  unfolding final_assessment
  final_assessment-IsProtected p e =
      assess_prices-IsProtected p p.hard_take_profit_dollars p.assistant_take_profit_cap_points
        (daily_plan_range p).mode (level_of (nearest_level p)) e

  -- An approved trade has a stop, a target and a positive quantity within the account's limit, and it
  -- stands to win more than it risks: either the target is strictly ahead of the entry, the stop
  -- strictly behind it and the reward larger than the risk, or the target is at least three times the
  -- stop distance away.
  pub assess_new_trade-IsProtected :
      (p : AssessParams D)
      → (assess_new_trade p).approved ≡ true
      → IsProtected p (assess_new_trade p)
  assess_new_trade-IsProtected p e =
      let (cleared, same, approved) = assess_new_trade_lem p e in
      rw same (final_assessment-IsProtected p approved)
