-- ===== src/Execution/Controls.antt =====
-- backend/src/execution/mode.ts: the kill switch, the strategy version, and the two sizing settings.
pub mod Kept
pub mod Ladder
use tera_trade.Prelude.{
  Bool, true, false, not, ◌&&◌, ◌||◌, if◌then◌else◌, Option, none, some, String, List, [], ◌∷◌,
}
use tera_trade.Number.{Number, lte, gte, lt, gt, of_nat, whole}
use tera_trade.Execution.Mode.{
  StrategyVersion, Settings, SystemState, Gate, Outcome, done, refused, ModeChangeError,
  ConfidenceTierInput, multiple_not_positive, threshold_out_of_range, quantity_not_positive,
  not_ascending, get_system_state, with_row,
}

-- A throw, or what comes after it.
first_of : Option ModeChangeError → Option ModeChangeError → Option ModeChangeError
first_of (some e) rest = some e
first_of none rest = rest

verdict : {A : Type 0} → Option ModeChangeError → A → Outcome A
verdict (some e) a = refused e
verdict none a = done a

module _ {D : Type 0} ⦃n : Number D⦄ where
  pub clear_kill_switch : Settings → Gate D → Gate D
  clear_kill_switch settings g =
      let r = get_system_state settings g in
      with_row g (record r { kill_switch = false; kill_switch_reason = none })

  pub trip_kill_switch : Settings → String → Gate D → Gate D
  trip_kill_switch settings reason g =
      let r = get_system_state settings g in
      with_row g (record r { kill_switch = true; kill_switch_reason = some reason })

  pub set_active_strategy_version : Settings → StrategyVersion → Gate D → Gate D
  set_active_strategy_version settings version g =
      let r = get_system_state settings g in
      with_row g (record r { active_strategy_version = version })

  pub set_take_profit_r_multiple : Settings → D → Gate D → Outcome (Gate D)
  set_take_profit_r_multiple settings multiple g =
      let r = get_system_state settings g in
      if not (gt multiple (of_nat 0))
      then refused multiple_not_positive
      else done (with_row g (record r { take_profit_r_multiple = multiple }))

  -- `[...tiers].sort((a, b) => a.threshold - b.threshold)`, which keeps the order of equal thresholds.
  insert_input : ConfidenceTierInput D → List (ConfidenceTierInput D) → List (ConfidenceTierInput D)
  insert_input t [] = t ∷ []
  insert_input t (u ∷ us) =
      if lte t.threshold u.threshold then t ∷ u ∷ us else u ∷ insert_input t us

  sort_inputs : List (ConfidenceTierInput D) → List (ConfidenceTierInput D)
  unfolding insert_input
  sort_inputs [] = []
  sort_inputs (t ∷ ts) = insert_input t (sort_inputs ts)

  -- `Number.isInteger(q)`, for a number that is not negative.
  abbrev pub is_integer : D → Bool
  is_integer q = lte q (of_nat (whole q)) && gte q (of_nat (whole q))

  input_error : ConfidenceTierInput D → Option ModeChangeError
  input_error t =
      if not (gt t.threshold (of_nat 0) && lt t.threshold (of_nat 1))
      then some threshold_out_of_range
      else if lt t.quantity (of_nat 1) || not (is_integer t.quantity)
      then some quantity_not_positive
      else none

  -- The first loop: the error of the first tier that has one.
  inputs_error : List (ConfidenceTierInput D) → Option ModeChangeError
  unfolding input_error first_of
  inputs_error [] = none
  inputs_error (t ∷ ts) = first_of (input_error t) (inputs_error ts)

  -- The second loop, from a tier to the next.
  order_error : List (ConfidenceTierInput D) → Option ModeChangeError
  order_error [] = none
  order_error (t ∷ []) = none
  order_error (t ∷ u ∷ us) =
      let rest = order_error (u ∷ us) in
      if lte u.threshold t.threshold then some not_ascending else rest

  unfoldable pub validate_confidence_tier_inputs :
      List (ConfidenceTierInput D) → Outcome (List (ConfidenceTierInput D))
  unfolding sort_inputs inputs_error order_error first_of verdict
  validate_confidence_tier_inputs tiers =
      let sorted = sort_inputs tiers in
      verdict (first_of (inputs_error sorted) (order_error sorted)) sorted

  set_tiers : Settings → Gate D → Outcome (List (ConfidenceTierInput D)) → Outcome (Gate D)
  set_tiers settings g (refused e) = refused e
  set_tiers settings g (done sorted) =
      let r = get_system_state settings g in
      done (with_row g (record r { confidence_tiers = sorted }))

  pub set_confidence_tiers : Settings → List (ConfidenceTierInput D) → Gate D → Outcome (Gate D)
  unfolding set_tiers
  set_confidence_tiers settings tiers g =
      set_tiers settings g (validate_confidence_tier_inputs tiers)
