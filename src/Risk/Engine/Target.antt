-- ===== src/Risk/Engine/Target.antt =====
-- How far the target of a trade that backend/src/risk/engine.ts approves may stand from the entry.
use mathlib.Core.Option.{some-injective}
use tera_trade.Prelude.{◌≡◌, ◌⊎◌, true, false, Option, some, none, arith, refl, subst}
use tera_trade.Number.{Number, minus, abs, ◌≼◌, IsPositive}
use tera_trade.Analytics.SupportResistance.{SrLevel}
use tera_trade.Risk.Stops.{ahead}
use tera_trade.Risk.Brackets.{round_away_from_entry}
use tera_trade.Risk.DailyPlan.{RangeMode}
use tera_trade.Risk.Engine.Approval.{assess_new_trade_lem}
use tera_trade.Risk.TradePlan.{TradePlan, compute_trade_plan}
use tera_trade.Risk.Engine.{
  final_assessment, assess_prices, assess_new_trade, daily_plan_range, level_of, nearest_level,
  AssessParams, SettledPrices, assess_generic, settled_prices, capped_prices, room_too_small_test,
  prices_at_distance, min_target_distance, trade_plan_params, target_level, rejected,
  assess_assistant, assistant_prices,
}

module _ {D : Type 0} ⦃n : Number D⦄ where
  -- No farther than the cap, or at the cap rounded to the next tick.
  abbrev pub IsCapped : AssessParams D → D → D → Type 0
  IsCapped p cap target =
      (abs (minus target p.entry_price) ≼ cap)
      ⊎ (target ≡ round_away_from_entry (ahead p.side p.entry_price cap) p.entry_price p.tick_size)

  settled_prices-IsCapped :
      (p : AssessParams D) (plan : TradePlan D) (level : Option (SrLevel D)) {cap : D}
      → p.assistant_take_profit_cap_points ≡ some cap
      → IsPositive cap
      → IsCapped p cap (settled_prices p plan level).target
  unfolding settled_prices capped_prices prices_at_distance
  settled_prices-IsCapped p plan level {cap} c positive = ground arith

  room_lem :
      (entry tick least : D) (o : Option D) (p : SettledPrices D)
      → o ≡ some least
      → room_too_small_test entry tick o p ≡ false
      → minus least tick ≼ abs (minus p.target entry)
  unfolding room_too_small_test
  room_lem entry tick least none p m e = cc
  room_lem entry tick least (some k) p m e = ground arith

  -- What the last two returns of the method give.
  assess_generic_lem :
      (p : AssessParams D) (mode : RangeMode D) (nearest : Option (SrLevel D)) {target : D}
      → (assess_generic p mode nearest).take_profit_price ≡ some target
      → let params = trade_plan_params p mode in
        let level = target_level p params.explicit_take_profit_price in
        let prices = settled_prices p (compute_trade_plan params) level in
        (target ≡ prices.target)
        × (room_too_small_test p.entry_price p.tick_size (min_target_distance p) prices ≡ false)
  unfolding assess_generic rejected
  assess_generic_lem p mode nearest e = ground arith

  assess_prices_generic :
      (p : AssessParams D) (dollars cap : Option D) (mode : RangeMode D)
      (nearest : Option (SrLevel D))
      → dollars ≡ none
      → assess_prices p dollars cap mode nearest ≡ assess_generic p mode nearest
  unfolding assess_prices
  assess_prices_generic p none cap mode nearest e = refl
  assess_prices_generic p (some d) cap mode nearest e = cc

  generic_target :
      (p : AssessParams D) {target : D}
      → p.hard_take_profit_dollars ≡ none
      → (assess_new_trade p).approved ≡ true
      → (assess_new_trade p).take_profit_price ≡ some target
      → (assess_generic p (daily_plan_range p).mode (level_of (nearest_level p))).take_profit_price
        ≡ some target
  unfolding final_assessment
  generic_target p h e t =
      let same = (assess_new_trade_lem p e).1 in
      let generic =
        assess_prices_generic p p.hard_take_profit_dollars p.assistant_take_profit_cap_points
          (daily_plan_range p).mode (level_of (nearest_level p)) h in
      rw (same, generic) at t

  -- An approved trade of a symbol with no hard take-profit has a target with room: where the 5-minute
  -- ATR can be read, the target is at least three of them away, less one tick.
  pub assess_new_trade_room :
      (p : AssessParams D) {least target : D}
      → p.hard_take_profit_dollars ≡ none
      → min_target_distance p ≡ some least
      → (assess_new_trade p).approved ≡ true
      → (assess_new_trade p).take_profit_price ≡ some target
      → minus least p.tick_size ≼ abs (minus target p.entry_price)
  assess_new_trade_room p {least} {target} h m e t =
      let mode = (daily_plan_range p).mode in
      let params = trade_plan_params p mode in
      let level = target_level p params.explicit_take_profit_price in
      let prices = settled_prices p (compute_trade_plan params) level in
      let (same, roomy) =
        assess_generic_lem p mode (level_of (nearest_level p)) (generic_target p h e t) in
      rw same (room_lem p.entry_price p.tick_size least (min_target_distance p) prices m roomy)

  assess_assistant-IsCapped :
      (p : AssessParams D) (cap : D) (nearest : Option (SrLevel D)) {target : D}
      → (assess_assistant p cap nearest).take_profit_price ≡ some target
      → IsCapped p cap target
  unfolding assess_assistant assistant_prices rejected
  assess_assistant-IsCapped p cap nearest t = ground arith

  assess_generic-IsCapped :
      (p : AssessParams D) (mode : RangeMode D) (nearest : Option (SrLevel D)) {cap target : D}
      → p.assistant_take_profit_cap_points ≡ some cap
      → IsPositive cap
      → (assess_generic p mode nearest).take_profit_price ≡ some target
      → IsCapped p cap target
  assess_generic-IsCapped p mode nearest c positive t =
      let params = trade_plan_params p mode in
      let level = target_level p params.explicit_take_profit_price in
      let (same, roomy) = assess_generic_lem p mode nearest t in
      rw same (settled_prices-IsCapped p (compute_trade_plan params) level c positive)

  assess_prices-IsCapped :
      (p : AssessParams D) (dollars cap_points : Option D) (mode : RangeMode D)
      (nearest : Option (SrLevel D)) {cap target : D}
      → cap_points ≡ some cap
      → p.assistant_take_profit_cap_points ≡ some cap
      → IsPositive cap
      → (assess_prices p dollars cap_points mode nearest).take_profit_price ≡ some target
      → IsCapped p cap target
  unfolding assess_prices
  assess_prices-IsCapped p none cap_points mode nearest k c positive t =
      assess_generic-IsCapped p mode nearest c positive t
  assess_prices-IsCapped p (some d) none mode nearest k c positive t = cc
  assess_prices-IsCapped p (some d) (some given) mode nearest {target = target} k c positive t =
      subst (λ x. IsCapped p x target) (some-injective _ _ k)
        (assess_assistant-IsCapped p given nearest t)

  -- Under a positive likely-move cap of the assistant, the target of an approved trade, of a symbol with
  -- a hard take-profit or without, is no farther from the entry than the cap, or stands at the cap,
  -- rounded to the next tick.
  pub assess_new_trade-IsCapped :
      (p : AssessParams D) {cap target : D}
      → p.assistant_take_profit_cap_points ≡ some cap
      → IsPositive cap
      → (assess_new_trade p).approved ≡ true
      → (assess_new_trade p).take_profit_price ≡ some target
      → IsCapped p cap target
  unfolding final_assessment
  assess_new_trade-IsCapped p {target = target} c positive e t =
      assess_prices-IsCapped p p.hard_take_profit_dollars p.assistant_take_profit_cap_points
        (daily_plan_range p).mode (level_of (nearest_level p)) c c positive
        (subst (λ r. r.take_profit_price ≡ some target) (assess_new_trade_lem p e).1 t)
