-- ===== src/Strategy/Broken.antt =====
-- What the breakout strategy of backend/src/strategy/breakout.ts proposes.
use mathlib.Core.Option.{none-ne-some, some-injective}
use tera_trade.Number.{Number, IsOrdered, larger, largest, lte, smaller, smallest, ◌≺◌, ◌≼◌}
use tera_trade.Prelude.{
  All, Bool-cases, List, String, [], arith, get_last?, inl, inr, map, some, ◌∷◌, ◌≡◌, ◌⊎◌, false,
  length, ltb, none, refl, subst, sym, true, ◌∙◌, Any, Any-extend,
}
use tera_trade.Market.{OhlcBar, long, short, Side}
use tera_trade.Strategy.{
  StrategySignal, bars_before_last, break_after, break_of, generate_breakout_signal, break_signal,
}
use tera_trade.Number.Order.{larger_lem, smaller_lem}

module _ {D : Type 0} ⦃n : Number D⦄ where
  -- The greatest of the bars' values, and the smallest.
  abbrev pub IsGreatestOf : (OhlcBar D → D) → List (OhlcBar D) → D → Type 0
  IsGreatestOf value bars x = All (λ b. value b ≼ x) bars × Any (λ b. value b ≡ x) bars

  abbrev pub IsSmallestOf : (OhlcBar D → D) → List (OhlcBar D) → D → Type 0
  IsSmallestOf value bars x = All (λ b. x ≼ value b) bars × Any (λ b. value b ≡ x) bars

  -- For a long, the highest high and the lowest low of the window; for a short, the other way round.
  abbrev pub IsExtremes : Side → List (OhlcBar D) → D → D → Type 0
  IsExtremes long window level swing_price =
      IsGreatestOf (λ b. b.high) window level × IsSmallestOf (λ b. b.low) window swing_price
  IsExtremes short window level swing_price =
      IsSmallestOf (λ b. b.low) window level × IsGreatestOf (λ b. b.high) window swing_price

  abbrev pub IsBeyond : Side → D → D → Type 0
  IsBeyond long level close = level ≺ close
  IsBeyond short level close = close ≺ level

  -- The last close is strictly beyond the broken level; that and the structure price are the two extremes
  -- of the window.
  abbrev pub IsBreak : List (OhlcBar D) → OhlcBar D → StrategySignal D → Type 0
  IsBreak window last s =
      (level : D) × (s.breakout_level_price ≡ some level)
      × IsBeyond s.side level last.close
      × IsExtremes s.side window level s.structure_swing_price

  break_high :
      (symbol : String) (high low : D) (last : OhlcBar D)
      → lte last.close high ≡ false
      → break_of symbol high low last ≡ some (break_signal symbol long low high)
  unfolding break_of
  break_high symbol high low last e = ground (arith, e)

  break_low :
      (symbol : String) (high low : D) (last : OhlcBar D)
      → lte last.close high ≡ true
      → lte low last.close ≡ false
      → break_of symbol high low last ≡ some (break_signal symbol short high low)
  unfolding break_of
  break_low symbol high low last e k = ground (arith, e, k)

  break_none :
      (symbol : String) (high low : D) (last : OhlcBar D)
      → lte last.close high ≡ true
      → lte low last.close ≡ true
      → break_of symbol high low last ≡ none
  unfolding break_of
  break_none symbol high low last e k = ground (arith, e, k)

  module _ (laws : IsOrdered D) where
    open laws use {lte_total, lte_trans}

    largest_lem :
        (a : D) (bars : List (OhlcBar D))
        → let m = largest a (map (λ b. b.high) bars) in
          (a ≼ m) × All (λ b. b.high ≼ m) bars × ((a ≡ m) ⊎ Any (λ b. b.high ≡ m) bars)
    largest_lem a [] = (ground (arith, lte_total a a), tt, inl refl)
    largest_lem a (b ∷ bars) =
        let (up, inside, met) = largest_lem (larger a b.high) bars in
        let (of_a, of_b, which) = larger_lem laws a b.high in
        (
          lte_trans _ _ _ of_a up,
          (lte_trans _ _ _ of_b up, inside),
          Any-extend (λ b. b.high) b bars a (larger a b.high) _ which met,
        )

    smallest_lem :
        (a : D) (bars : List (OhlcBar D))
        → let m = smallest a (map (λ b. b.low) bars) in
          (m ≼ a) × All (λ b. m ≼ b.low) bars × ((a ≡ m) ⊎ Any (λ b. b.low ≡ m) bars)
    smallest_lem a [] = (ground (arith, lte_total a a), tt, inl refl)
    smallest_lem a (b ∷ bars) =
        let (down, inside, met) = smallest_lem (smaller a b.low) bars in
        let (of_a, of_b, which) = smaller_lem laws a b.low in
        (
          lte_trans _ _ _ down of_a,
          (lte_trans _ _ _ down of_b, inside),
          Any-extend (λ b. b.low) b bars a (smaller a b.low) _ which met,
        )

    break_after-IsBreak :
        (symbol : String) (window : List (OhlcBar D)) (last : OhlcBar D) (s : StrategySignal D)
        → break_after symbol window (some last) ≡ some s
        → IsBreak window last s
    unfolding break_after break_signal
    break_after-IsBreak symbol [] last s e = absurd (ground (arith, e))
    break_after-IsBreak symbol (w ∷ window) last s e =
        let high = largest w.high (map (λ b. b.high) window) in
        let low = smallest w.low (map (λ b. b.low) window) in
        let highest : IsGreatestOf (λ b. b.high) (w ∷ window) high =
          let (up, inside, met) = largest_lem w.high window in ((up, inside), met) in
        let lowest : IsSmallestOf (λ b. b.low) (w ∷ window) low =
          let (down, inside, met) = smallest_lem w.low window in ((down, inside), met) in
        elim (Bool-cases (lte last.close high)) [
          | inl e1 ↦ elim (Bool-cases (lte low last.close)) [
            | inl e2 ↦ absurd (none-ne-some s (sym (break_none symbol high low last e1 e2) ∙ e))
            | inr e2 ↦
                subst (IsBreak (w ∷ window) last)
                  (some-injective _ _ (sym (break_low symbol high low last e1 e2) ∙ e))
                  (low, refl, e2, (lowest, highest))
          ]
          | inr e1 ↦
              subst (IsBreak (w ∷ window) last)
                (some-injective _ _ (sym (break_high symbol high low last e1) ∙ e))
                (high, refl, e1, (highest, lowest))
        ]

    -- A signal of the breakout strategy follows a last close strictly beyond the highest high, or the
    -- lowest low, of the twenty bars before it: that extreme is its broken level, and the opposite extreme
    -- of these bars its structure price.
    pub generate_breakout_signal-IsBreak :
        (symbol : String) (bars : List (OhlcBar D)) (last : OhlcBar D) (s : StrategySignal D)
        → get_last? bars ≡ some last
        → generate_breakout_signal symbol bars ≡ some s
        → IsBreak (bars_before_last 20 bars) last s
    unfolding generate_breakout_signal
    generate_breakout_signal-IsBreak symbol bars last s l e =
        elim (Bool-cases (ltb (length bars) 21)) [
          | inl k ↦ absurd (ground (arith, k, e))
          | inr k ↦
              break_after-IsBreak symbol (bars_before_last 20 bars) last s (ground (arith, k, l, e))
        ]
