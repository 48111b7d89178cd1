-- ===== src/Trades/Excursion/Grown.antt =====
-- What `trackExcursion` of backend/src/engine/loop.ts keeps of the excursions before.
use tera_trade.Prelude.{
  Bool-cases, List, [], arith, get_or, inl, inr, some, ℕ, ◌==◌, ◌∷◌, ◌≡◌, ◌≢◌, ◌∙◌, ◌⊎◌,
  if◌then◌else◌,
}
use tera_trade.Trades.Rows.{Excursion, TradeRow, excursion_of, set_excursion}
use tera_trade.Number.{IsNonneg, IsOrdered, Number, larger, of_nat, ◌≼◌, IsMonotone, minus, times}
use tera_trade.Trades.Excursion.{
  adverse_move, favorable_move, no_excursion, track_excursion, direction_of,
}
use tera_trade.Market.{Side, long, short, is_long}
use tera_trade.Number.Order.{larger_lem}

module _ {D : Type 0} where
  excursion_of-set :
      (i : ℕ) (e : Excursion D) (m : List (ℕ × Excursion D))
      → excursion_of i (set_excursion i e m) ≡ some e
  unfolding excursion_of set_excursion
  excursion_of-set i e [] = ground arith
  excursion_of-set i e ((j, f) ∷ m) = ground (arith, excursion_of-set i e m)

  excursion_of-set_other :
      (i k : ℕ) (e : Excursion D) (m : List (ℕ × Excursion D))
      → i ≢ k
      → excursion_of k (set_excursion i e m) ≡ excursion_of k m
  unfolding excursion_of set_excursion
  excursion_of-set_other i k e [] ne = ground arith
  excursion_of-set_other i k e ((j, f) ∷ m) ne = elim (Bool-cases (j == i)) [
    | inl h ↦ ground arith
    | inr h ↦ ground (arith, excursion_of-set_other i k e m ne)
  ]

module _ {D : Type 0} ⦃n : Number D⦄ where
  -- What the trade gains at a price, and what it loses, per contract.
  abbrev pub gain_at : TradeRow D → D → D
  gain_at trade price = times (minus price trade.entry_price) (direction_of trade.side)

  abbrev pub loss_at : TradeRow D → D → D
  loss_at trade price = times (minus trade.entry_price price) (direction_of trade.side)

  -- The greatest of the value before, zero, and the values at the prices of a bar.
  abbrev pub IsGreatestIn : (D → D) → D → D → D → D → Type 0
  IsGreatestIn value high low before after =
      (before ≼ after)
      × IsNonneg after
      × ((price : D) → low ≼ price → price ≼ high → value price ≼ after)
      × ((before ≡ after)
          ⊎ (of_nat 0 ≡ after)
          ⊎ ((price : D) × (low ≼ price) × (price ≼ high) × (value price ≡ after)))

  greatest_met :
      (value : D → D) (high low before extreme after : D)
      → low ≼ extreme
      → extreme ≼ high
      → let move = larger (of_nat 0) (value extreme) in
        ((before ≡ after) ⊎ (move ≡ after))
        → ((of_nat 0 ≡ move) ⊎ (value extreme ≡ move))
        → (before ≡ after)
          ⊎ (of_nat 0 ≡ after)
          ⊎ ((price : D) × (low ≼ price) × (price ≼ high) × (value price ≡ after))
  greatest_met value high low before extreme after above below (inl e) what = inl e
  greatest_met value high low before extreme after above below (inr e) (inl k) = inr (inl (k ∙ e))
  greatest_met value high low before extreme after above below (inr e) (inr k) =
      inr (inr (extreme, above, below, k ∙ e))

  module _ (laws : IsOrdered D) where
    open laws use {lte_total, lte_trans, minus-le, decimal_nonneg}

    self_le : (a : D) → a ≼ a
    self_le a = ground (arith, lte_total a a)

    minus_one_le : minus {D = D} (of_nat 0) (of_nat 1) ≼ of_nat 0
    minus_one_le = minus-le (of_nat 0) (of_nat 1) (decimal_nonneg 1 0)

    greatest_lem :
        (value : D → D) (high low before extreme : D)
        → low ≼ extreme
        → extreme ≼ high
        → ((price : D) → low ≼ price → price ≼ high → value price ≼ value extreme)
        → IsGreatestIn value high low before (larger before (larger (of_nat 0) (value extreme)))
    greatest_lem value high low before extreme above below top =
        let move = larger (of_nat 0) (value extreme) in
        let (of_before, of_move, which) = larger_lem laws before move in
        let (of_zero, of_extreme, what) = larger_lem laws (of_nat 0) (value extreme) in
        (
          of_before,
          lte_trans _ _ _ of_zero of_move,
          λ price a b. lte_trans _ _ _ (top price a b) (lte_trans _ _ _ of_extreme of_move),
          greatest_met value high low before extreme _ above below which what,
        )

    module _ (mono : IsMonotone D) where
      open mono use {minus_mono, minus_anti, times_mono, times_anti}

      -- By the side, for the price that is best, and for the one that is worst.
      favorable_side :
          (side : Side) (entry high low before : D)
          → low ≼ high
          → let extreme = if is_long side then high else low in
            IsGreatestIn
              (λ price. times (minus price entry) (direction_of side))
              high
              low
              before
              (larger before (larger (of_nat 0) (times (minus extreme entry) (direction_of side))))
      favorable_side long entry high low before order =
          greatest_lem (λ price. times (minus price entry) (of_nat 1)) high low before high order
            (self_le high)
            (λ price a b. times_mono _ _ _ (minus_mono price high entry b) (decimal_nonneg 1 0))
      favorable_side short entry high low before order =
          greatest_lem (λ price. times (minus price entry) (direction_of short)) high low before low
            (self_le low) order
            (λ price a b. times_anti _ _ _ (minus_mono low price entry a) minus_one_le)

      adverse_side :
          (side : Side) (entry high low before : D)
          → low ≼ high
          → let extreme = if is_long side then low else high in
            IsGreatestIn
              (λ price. times (minus entry price) (direction_of side))
              high
              low
              before
              (larger before (larger (of_nat 0) (times (minus entry extreme) (direction_of side))))
      adverse_side long entry high low before order =
          greatest_lem (λ price. times (minus entry price) (of_nat 1)) high low before low
            (self_le low) order
            (λ price a b. times_mono _ _ _ (minus_anti low price entry a) (decimal_nonneg 1 0))
      adverse_side short entry high low before order =
          greatest_lem (λ price. times (minus entry price) (direction_of short)) high low before
            high order (self_le high)
            (λ price a b. times_anti _ _ _ (minus_anti price high entry b) minus_one_le)

      -- Of a bar whose low is at most its high: the largest gain of its trade becomes the greatest of what it
      -- was, zero and the gains at the prices of the bar, and the largest loss likewise; the excursions of
      -- other trades stay.
      pub track_excursion-IsGrown :
          (trade : TradeRow D) (high low : D) (m : List (ℕ × Excursion D)) (k : ℕ)
          → low ≼ high
          → let before = get_or (excursion_of trade.id m) no_excursion in
            let after = track_excursion trade high low m in
            ((e : Excursion D) × (excursion_of trade.id after ≡ some e)
              × IsGreatestIn (gain_at trade) high low before.mfe e.mfe
              × IsGreatestIn (loss_at trade) high low before.mae e.mae)
            × (trade.id ≢ k → excursion_of k after ≡ excursion_of k m)
      unfolding track_excursion favorable_move adverse_move
      track_excursion-IsGrown trade high low m k order =
          let before = get_or (excursion_of trade.id m) no_excursion in
          let grown : Excursion D = record {
            mfe = larger before.mfe (favorable_move trade high low);
            mae = larger before.mae (adverse_move trade high low);
          } in
          (
            (
              grown,
              excursion_of-set trade.id grown m,
              favorable_side trade.side trade.entry_price high low before.mfe order,
              adverse_side trade.side trade.entry_price high low before.mae order,
            ),
            λ ne. excursion_of-set_other trade.id k grown m ne,
          )
