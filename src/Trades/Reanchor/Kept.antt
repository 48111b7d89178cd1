-- ===== src/Trades/Reanchor/Kept.antt =====
-- What `maybeReanchorToRealEntry` of backend/src/engine/loop.ts keeps of a trade.
use tera_trade.Prelude.{
  Bool-cases, Option, arith, inl, inr, none, refl, some, true, ◌∷◌, ◌≡◌, ◌⊎◌, subst, false,
  All-IsIn, IsIn, List, any-All, any-IsIn, ℕ, ◌==◌,
}
use tera_trade.Trades.Rows.{InstrumentSpec, LiveOps, TradeRow, TradeWorld}
use tera_trade.Number.{IsExact, Number, minus, plus, IsOrdered, abs, of_nat, times, ◌≼◌}
use tera_trade.Risk.Brackets.{bracket_is_valid_against_entry, reanchor_bracket_to_real_entry}
use tera_trade.Trades.Reanchor.{
  keeps_entry, maybe_reanchor_to_real_entry, reanchor_bracket, reanchor_read, update_both,
  with_bracket, with_entry, is_checked, fill_plausibility_fraction,
}

checked_IsIn : (i : ℕ) (seen : List ℕ) → is_checked i seen ≡ true → IsIn i seen
unfolding is_checked
checked_IsIn i seen e =
    let (j, here, same) = any-IsIn (λ j. j == i) seen e in
    subst (λ k. IsIn k seen) (ground (arith, same)) here

unchecked_IsIn : (i : ℕ) (seen : List ℕ) → is_checked i seen ≡ false → ¬ IsIn i seen
unfolding is_checked
unchecked_IsIn i seen e here =
    let differs = All-IsIn (λ j. (j == i) ≡ false) i seen (any-All (λ j. j == i) seen e) here in
    ground (arith, differs)

module _ {D : Type 0} ⦃n : Number D⦄ where
  -- A reported entry is used when it is neither farther from the recorded one than the instrument's
  -- deviation and one percent of the recorded entry, nor nearer than two ticks.
  abbrev pub IsUsable : InstrumentSpec D → D → D → Type 0
  IsUsable instrument recorded real =
      let deviation = abs (minus real recorded) in
      ((deviation ≼ instrument.max_fill_deviation_points)
        ⊎ (deviation ≼ times (abs recorded) fill_plausibility_fraction))
      × (times instrument.tick_size (of_nat 2) ≼ deviation)

  abbrev pub IsTargetMoved : D → D → Option D → Option D → Type 0
  IsTargetMoved recorded real none after = after ≡ none
  IsTargetMoved recorded real (some target) none = ⊥
  IsTargetMoved recorded real (some target) (some moved) = minus moved real ≡ minus target recorded

  -- The bracket stays and is valid against the real entry, or it is not, and the stop and the target keep
  -- their distances to the entry.
  abbrev pub IsBracketFor : TradeRow D → D → TradeRow D → Type 0
  IsBracketFor before real after =
      ((bracket_is_valid_against_entry real before.stop_price before.take_profit_price before.side
          ≡ true)
        × (after.stop_price ≡ before.stop_price)
        × (after.take_profit_price ≡ before.take_profit_price))
      ⊎ ((bracket_is_valid_against_entry real before.stop_price before.take_profit_price before.side
            ≡ false)
          × (minus after.stop_price real ≡ minus before.stop_price before.entry_price)
          × IsTargetMoved before.entry_price real before.take_profit_price after.take_profit_price)

  -- With the entry that the broker reports, if it does: the trade as it was where that cannot be used,
  -- and else a trade at exactly that entry.
  abbrev pub IsAnchored : InstrumentSpec D → TradeRow D → Option D → TradeRow D → Type 0
  IsAnchored instrument before none after = after ≡ before
  IsAnchored instrument before (some real) after =
      ((¬ IsUsable instrument before.entry_price real) × (after ≡ before))
      ⊎ (IsUsable instrument before.entry_price real
          × (after.entry_price ≡ real)
          × IsBracketFor before real after)

module _ {D : Type 0} ⦃n : Number D⦄ where
  distance_kept :
      IsExact D
      → (stop_price entry real : D)
      → minus (plus stop_price (minus real entry)) real ≡ minus stop_price entry
  distance_kept exact stop_price entry real =
      let shift = minus real entry in
      subst (λ p. minus (plus stop_price shift) p ≡ minus stop_price entry)
        (exact.plus-minus_cancel entry real) (exact.minus-plus-plus stop_price entry shift)

module _ {D : Type 0} ⦃n : Number D⦄ where
  usable_lem :
      IsOrdered D
      → (instrument : InstrumentSpec D) (recorded real : D)
      → keeps_entry instrument recorded real ≡ false
      → IsUsable instrument recorded real
  unfolding keeps_entry
  usable_lem laws instrument recorded real e =
      let deviation = abs (minus real recorded) in
      let points = instrument.max_fill_deviation_points in
      let fraction = times (abs recorded) fill_plausibility_fraction in
      ground (
        arith,
        e,
        laws.lte_total points fraction,
        laws.lte_trans deviation points fraction,
        laws.lte_trans deviation fraction points,
      )

  unusable_lem :
      IsOrdered D
      → (instrument : InstrumentSpec D) (recorded real : D)
      → keeps_entry instrument recorded real ≡ true
      → ¬ IsUsable instrument recorded real
  unfolding keeps_entry
  unusable_lem laws instrument recorded real e u =
      let deviation = abs (minus real recorded) in
      let points = instrument.max_fill_deviation_points in
      let fraction = times (abs recorded) fill_plausibility_fraction in
      ground (
        arith,
        e,
        u,
        laws.lte_total points fraction,
        laws.lte_trans deviation points fraction,
        laws.lte_trans deviation fraction points,
      )

  target_lem :
      IsExact D
      → (recorded real stop : D) (target : Option D)
      → IsTargetMoved recorded real target
          (reanchor_bracket_to_real_entry recorded real stop target).new_take_profit_price
  unfolding reanchor_bracket_to_real_entry
  target_lem exact recorded real stop none = refl
  target_lem exact recorded real stop (some t) = distance_kept exact t recorded real

module _ {D B : Type 0} ⦃n : Number D⦄ where
  reanchor_read-id :
      (ops : LiveOps D B) (instrument : InstrumentSpec D) (trade : TradeRow D) (real : Option D)
      (w : TradeWorld D B)
      → (reanchor_read ops instrument trade real w).0.id ≡ trade.id
  unfolding reanchor_read update_both with_entry reanchor_bracket with_bracket
  reanchor_read-id ops instrument trade none w = refl
  reanchor_read-id ops instrument trade (some p) w = ground arith

  pub maybe_reanchor_to_real_entry-id :
      (ops : LiveOps D B) (instrument : InstrumentSpec D) (trade : TradeRow D) (w : TradeWorld D B)
      → (maybe_reanchor_to_real_entry ops instrument trade w).0.id ≡ trade.id
  unfolding maybe_reanchor_to_real_entry
  maybe_reanchor_to_real_entry-id ops instrument trade w =
      let (real, polled) = ops.read_open_position_entry_price trade.symbol w.broker_state in
      ground (
        arith,
        reanchor_read-id ops instrument trade real
            (record w { broker_state = polled; entry_checked = trade.id ∷ w.entry_checked }),
      )

  reanchor_read-IsAnchored :
      (laws : IsOrdered D) (exact : IsExact D) (ops : LiveOps D B) (instrument : InstrumentSpec D)
      (trade : TradeRow D) (real : Option D) (w : TradeWorld D B)
      → IsAnchored instrument trade real (reanchor_read ops instrument trade real w).0
  unfolding reanchor_read update_both with_entry reanchor_bracket with_bracket
      reanchor_bracket_to_real_entry
  reanchor_read-IsAnchored laws exact ops instrument trade none w = refl
  reanchor_read-IsAnchored laws exact ops instrument trade (some p) w =
      elim (Bool-cases (keeps_entry instrument trade.entry_price p)) [
        | inl e ↦ rw e (inl (unusable_lem laws instrument trade.entry_price p e, refl))
        | inr e ↦
            let usable = usable_lem laws instrument trade.entry_price p e in
            elim (Bool-cases (
              bracket_is_valid_against_entry p trade.stop_price trade.take_profit_price
                trade.side)) [
                  | inl v ↦ rw (e, v) (inr (usable, refl, inl (refl, refl, refl)))
                  | inr v ↦
                      rw (e, v)
                        (inr (
                          usable,
                          refl,
                          inr (
                            refl,
                            distance_kept exact trade.stop_price trade.entry_price p,
                            target_lem exact trade.entry_price p trade.stop_price
                                trade.take_profit_price,
                          ),
                        ))
                ]
      ]

  -- With exact arithmetic. A trade that was checked before stays as it is. Else, where the broker reports
  -- no entry, or one that cannot be used, the trade stays as it is, and where it reports one that can, the
  -- trade takes exactly that entry: with the bracket that it has if that is valid against it, and
  -- with stop and target at their old distances if not.
  pub maybe_reanchor_to_real_entry-IsAnchored :
      IsOrdered D
      → IsExact D
      → (ops : LiveOps D B) (instrument : InstrumentSpec D) (trade : TradeRow D)
        (w : TradeWorld D B)
      → let after = (maybe_reanchor_to_real_entry ops instrument trade w).0 in
        (IsIn trade.id w.entry_checked → after ≡ trade)
        × ((¬ IsIn trade.id w.entry_checked)
            → IsAnchored instrument trade
                (ops.read_open_position_entry_price trade.symbol w.broker_state).0
                after)
  unfolding maybe_reanchor_to_real_entry
  maybe_reanchor_to_real_entry-IsAnchored laws exact ops instrument trade w =
      elim (Bool-cases (is_checked trade.id w.entry_checked)) [
        | inl e ↦ (λ k. rw e refl, λ k. absurd (k (checked_IsIn trade.id w.entry_checked e)))
        | inr e ↦ (
          λ k. absurd (unchecked_IsIn trade.id w.entry_checked e k),
          λ k. rw e (reanchor_read-IsAnchored laws exact ops instrument trade _ _),
        )
      ]
