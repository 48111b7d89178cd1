-- ===== src/Execution/Controls/Kept.antt =====
-- The controls of backend/src/execution/mode.ts leave the three live switches alone.
use tera_trade.Prelude.{◌≡◌, String, List, arith}
use tera_trade.Number.{Number}
use tera_trade.Execution.Mode.{
  Settings, SystemState, Gate, Outcome, StrategyVersion, ConfidenceTierInput, done, refused,
  get_system_state, with_row,
}
use tera_trade.Execution.Mode.Gated.{IsGated, IsGatedRow, get_system_state-with_row}
use tera_trade.Execution.Controls.{
  clear_kill_switch, trip_kill_switch, set_active_strategy_version, set_take_profit_r_multiple,
  set_confidence_tiers, set_tiers, validate_confidence_tier_inputs,
}

module _ {D : Type 0} ⦃n : Number D⦄ where
  with_row-IsGated :
      (settings : Settings) (g : Gate D) (r : SystemState D)
      → IsGatedRow settings r
      → IsGated settings (with_row g r)
  with_row-IsGated settings g r h = rw get_system_state-with_row h

  pub clear_kill_switch-IsGated :
      (settings : Settings) (g : Gate D)
      → IsGated settings g
      → IsGated settings (clear_kill_switch settings g)
  unfolding clear_kill_switch
  clear_kill_switch-IsGated settings g h = with_row-IsGated settings g _ h

  pub trip_kill_switch-IsGated :
      (settings : Settings) (reason : String) (g : Gate D)
      → IsGated settings g
      → IsGated settings (trip_kill_switch settings reason g)
  unfolding trip_kill_switch
  trip_kill_switch-IsGated settings reason g h = with_row-IsGated settings g _ h

  pub set_active_strategy_version-IsGated :
      (settings : Settings) (v : StrategyVersion) (g : Gate D)
      → IsGated settings g
      → IsGated settings (set_active_strategy_version settings v g)
  unfolding set_active_strategy_version
  set_active_strategy_version-IsGated settings v g h = with_row-IsGated settings g _ h

  pub set_take_profit_r_multiple-IsGated :
      (settings : Settings) (x : D) (g g' : Gate D)
      → IsGated settings g
      → set_take_profit_r_multiple settings x g ≡ done g'
      → IsGated settings g'
  unfolding set_take_profit_r_multiple
  set_take_profit_r_multiple-IsGated settings x g g' h e =
      let r = get_system_state settings g in
      ground (arith, with_row-IsGated settings g (record r { take_profit_r_multiple = x }) h)

  set_tiers-IsGated :
      (settings : Settings) (g g' : Gate D) (o : Outcome (List (ConfidenceTierInput D)))
      → IsGated settings g
      → set_tiers settings g o ≡ done g'
      → IsGated settings g'
  unfolding set_tiers
  set_tiers-IsGated settings g g' (refused e) h p = ground arith
  set_tiers-IsGated settings g g' (done ts) h p =
      let r = get_system_state settings g in
      ground (arith, with_row-IsGated settings g (record r { confidence_tiers = ts }) h)

  pub set_confidence_tiers-IsGated :
      (settings : Settings) (ts : List (ConfidenceTierInput D)) (g g' : Gate D)
      → IsGated settings g
      → set_confidence_tiers settings ts g ≡ done g'
      → IsGated settings g'
  unfolding set_confidence_tiers
  set_confidence_tiers-IsGated settings ts g g' h e =
      set_tiers-IsGated settings g g' (validate_confidence_tier_inputs ts) h e
