-- ===== src/Analytics/Outcome/First.antt =====
-- The label of backend/src/analytics/outcomeSimulation.ts says which price was hit first.
use tera_trade.Prelude.{◌≡◌, ◌↔◌, ◌⊎◌, refl, true, false, List, [], ◌∷◌, arith}
use tera_trade.Number.{Number}
use tera_trade.Market.{Side, OhlcBar}
use tera_trade.Analytics.Outcome.{
  win, loss, no_resolution, HypotheticalOutcome, hits_stop, hits_target, walk_bars,
  evaluate_hypothetical_outcome,
}

module _ {D : Type 0} ⦃n : Number D⦄ where
  -- Some bar hits the target, and neither it nor a bar before hits the stop; and the other way round.
  abbrev pub IsWon : Side → D → D → List (OhlcBar D) → Type 0
  IsWon side stop target [] = ⊥
  IsWon side stop target (bar ∷ bars) =
      (hits_stop side stop bar ≡ false)
      × ((hits_target side target bar ≡ true) ⊎ IsWon side stop target bars)

  abbrev pub IsLost : Side → D → D → List (OhlcBar D) → Type 0
  IsLost side stop target [] = ⊥
  IsLost side stop target (bar ∷ bars) =
      (hits_stop side stop bar ≡ true)
      ⊎ ((hits_target side target bar ≡ false) × IsLost side stop target bars)

  walk_bars_iff :
      (unresolved : HypotheticalOutcome D) (side : Side) (entry stop target : D)
      (bars : List (OhlcBar D))
      → unresolved.label ≡ no_resolution
      → let label = (walk_bars unresolved side entry stop target bars).label in
        ((label ≡ win) ↔ IsWon side stop target bars)
        × ((label ≡ loss) ↔ IsLost side stop target bars)
  unfolding walk_bars
  walk_bars_iff unresolved side entry stop target [] e = ground arith
  walk_bars_iff unresolved side entry stop target (bar ∷ bars) e =
      ground (arith, walk_bars_iff unresolved side entry stop target bars e)

  -- A setup is a win exactly when some bar hits the target and neither it nor a bar before hits the stop,
  -- and a loss exactly when some bar hits the stop and no bar before hits the target: a bar that hits
  -- both counts as the stop.
  pub evaluate_hypothetical_outcome_iff :
      (side : Side) (entry stop target : D) (bars : List (OhlcBar D))
      → let label = (evaluate_hypothetical_outcome side entry stop target bars).label in
        ((label ≡ win) ↔ IsWon side stop target bars)
        × ((label ≡ loss) ↔ IsLost side stop target bars)
  unfolding evaluate_hypothetical_outcome
  evaluate_hypothetical_outcome_iff side entry stop target bars =
      walk_bars_iff _ side entry stop target bars refl
