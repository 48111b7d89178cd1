-- ===== src/Execution/Mode/Gated.antt =====
-- What the three switches of backend/src/execution/mode.ts guarantee of the settings.
use tera_trade.Prelude.{◌↔◌, ◌≡◌, ◌≢◌, ◌⊎◌, refl, true, false, Bool, some, none, Option, arith}
use tera_trade.Number.{Number}
use tera_trade.Execution.Mode.{
  TradingMode, live, paper, analysis_only, Settings, SystemState, Gate, done, ModeChangeError,
  get_system_state, created_row, with_row, set_mode, mode_guard, guarded, write_mode,
  set_tradesea_live_enabled, tradesea_guard, write_tradesea, set_assistant_actions_enabled,
  assistant_guard, write_assistant, set_live_broker_connected, set_tradesea_live_broker_connected,
}

module _ {D : Type 0} ⦃n : Number D⦄ where
  -- LIVE only with the confirmation, or where the settings name it as the mode to start in; the two
  -- other switches only with each of their settings.
  abbrev pub IsGatedRow : Settings → SystemState D → Type 0
  IsGatedRow settings r =
      ((r.mode ≢ live) ⊎ (settings.live_trading_confirmed ≡ true) ⊎ (settings.trading_mode ≡ live))
      × ((r.tradesea_live_enabled ≡ false)
          ⊎ ((settings.tradesea_enabled ≡ true)
              × (settings.tradesea_live_trading_confirmed ≡ true)))
      × ((r.assistant_actions_enabled ≡ false)
          ⊎ ((settings.assistant_enabled ≡ true)
              × (settings.has_gemini_api_key ≡ true)
              × (settings.assistant_actions_confirmed ≡ true)))

  abbrev pub IsGated : Settings → Gate D → Type 0
  IsGated settings g = IsGatedRow settings (get_system_state settings g)

  pub no_row-IsGated : (settings : Settings) (g : Gate D) → g.row ≡ none → IsGated settings g
  unfolding get_system_state created_row
  no_row-IsGated settings g e = ground arith

  -- Writing a row makes it the row.
  pub get_system_state-with_row :
      (settings : Settings) (g : Gate D) (r : SystemState D)
      → get_system_state settings (with_row g r) ≡ r
  unfolding get_system_state with_row
  get_system_state-with_row settings g r = refl

  guarded_lem :
      (e : Option ModeChangeError) (g g' : Gate D) (r : SystemState D)
      → guarded e g r ≡ done g'
      → (e ≡ none) × (with_row g r ≡ g')
  unfolding guarded
  guarded_lem none g g' r h = (refl, ground arith)
  guarded_lem (some e) g g' r h = ground arith

  pub set_mode-IsGated :
      (settings : Settings) (mode : TradingMode) (g g' : Gate D)
      → IsGated settings g
      → set_mode settings mode g ≡ done g'
      → IsGated settings g'
  unfolding set_mode get_system_state guarded mode_guard write_mode with_row
  set_mode-IsGated settings analysis_only g g' h e = ground arith
  set_mode-IsGated settings paper g g' h e = ground arith
  set_mode-IsGated settings live g g' h e = ground arith

  pub set_tradesea_live_enabled-IsGated :
      (settings : Settings) (enabled : Bool) (g g' : Gate D)
      → IsGated settings g
      → set_tradesea_live_enabled settings enabled g ≡ done g'
      → IsGated settings g'
  unfolding set_tradesea_live_enabled get_system_state guarded tradesea_guard write_tradesea
      with_row
  set_tradesea_live_enabled-IsGated settings true g g' h e = ground arith
  set_tradesea_live_enabled-IsGated settings false g g' h e = ground arith

  pub set_assistant_actions_enabled-IsGated :
      (settings : Settings) (enabled : Bool) (g g' : Gate D)
      → IsGated settings g
      → set_assistant_actions_enabled settings enabled g ≡ done g'
      → IsGated settings g'
  unfolding set_assistant_actions_enabled get_system_state guarded assistant_guard write_assistant
      with_row
  set_assistant_actions_enabled-IsGated settings true g g' h e = ground arith
  set_assistant_actions_enabled-IsGated settings false g g' h e = ground arith

  -- A broker's flag leaves the row as it is.
  pub set_live_broker_connected-IsGated :
      (settings : Settings) (connected : Bool) (g : Gate D)
      → IsGated settings g
      → IsGated settings (set_live_broker_connected connected g)
  unfolding get_system_state set_live_broker_connected
  set_live_broker_connected-IsGated settings connected g h = h

  pub set_tradesea_live_broker_connected-IsGated :
      (settings : Settings) (connected : Bool) (g : Gate D)
      → IsGated settings g
      → IsGated settings (set_tradesea_live_broker_connected connected g)
  unfolding get_system_state set_tradesea_live_broker_connected
  set_tradesea_live_broker_connected-IsGated settings connected g h = h

  -- Switching the mode to LIVE succeeds exactly when a live broker is connected and the settings confirm
  -- live trading.
  pub set_mode_live_iff :
      (settings : Settings) (g : Gate D)
      → ((g' : Gate D) × (set_mode settings live g ≡ done g'))
        ↔ ((g.live_broker_connected ≡ true) × (settings.live_trading_confirmed ≡ true))
  unfolding set_mode mode_guard guarded
  set_mode_live_iff settings g = (
    λ (g', e). ground arith,
    λ (c, d). (with_row g (write_mode live (get_system_state settings g)), ground arith),
  )

  abbrev pub SameRisk : SystemState D → SystemState D → Type 0
  SameRisk r r' =
      (r.kill_switch ≡ r'.kill_switch)
      × (r.confidence_tiers ≡ r'.confidence_tiers)
      × (r.take_profit_r_multiple ≡ r'.take_profit_r_multiple)

  -- Each of the three switches leaves the two others, the kill switch and the sizing settings alone.
  pub switches_independent :
      (settings : Settings) (mode : TradingMode) (enabled : Bool) (g a b c : Gate D)
      → set_mode settings mode g ≡ done a
      → set_tradesea_live_enabled settings enabled g ≡ done b
      → set_assistant_actions_enabled settings enabled g ≡ done c
      → let row : Gate D → SystemState D = get_system_state settings in
        ((row a).tradesea_live_enabled ≡ (row g).tradesea_live_enabled)
        × ((row a).assistant_actions_enabled ≡ (row g).assistant_actions_enabled)
        × SameRisk (row g) (row a)
        × ((row b).mode ≡ (row g).mode)
        × ((row b).assistant_actions_enabled ≡ (row g).assistant_actions_enabled)
        × SameRisk (row g) (row b)
        × ((row c).mode ≡ (row g).mode)
        × ((row c).tradesea_live_enabled ≡ (row g).tradesea_live_enabled)
        × SameRisk (row g) (row c)
  unfolding get_system_state set_mode set_tradesea_live_enabled set_assistant_actions_enabled
      guarded with_row write_mode write_tradesea write_assistant
  switches_independent settings mode enabled g a b c e f h = ground arith
