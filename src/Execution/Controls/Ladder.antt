-- ===== src/Execution/Controls/Ladder.antt =====
-- The confidence tiers that backend/src/execution/mode.ts accepts.
use mathlib.Core.List.{Perm}
use mathlib.Core.List.Perm
use tera_trade.Prelude.{
  subst, ◌≡◌, inl, inr, true, Bool-cases, Option, some, none, List, [], ◌∷◌, arith, All,
}
use tera_trade.Number.{Number, lte, of_nat, ◌≼◌, ◌≺◌}
use tera_trade.Execution.Mode.{ConfidenceTierInput, done, ModeChangeError}
use tera_trade.Execution.Controls.{
  first_of, verdict, insert_input, sort_inputs, is_integer, input_error, inputs_error, order_error,
  validate_confidence_tier_inputs,
}

verdict_lem :
    {A : Type 0} (e f : Option ModeChangeError) {a b : A}
    → verdict (first_of e f) a ≡ done b
    → (e ≡ none) × (f ≡ none) × (a ≡ b)
unfolding verdict first_of
verdict_lem none none h = ground arith
verdict_lem none (some x) h = ground arith
verdict_lem (some x) f h = ground arith

module _ {D : Type 0} ⦃n : Number D⦄ where
  -- A threshold strictly between 0 and 1, and a whole quantity of at least 1.
  abbrev pub IsSound : ConfidenceTierInput D → Type 0
  IsSound t =
      (of_nat 0 ≺ t.threshold)
      × (t.threshold ≺ of_nat 1)
      × (of_nat 1 ≼ t.quantity)
      × (is_integer t.quantity ≡ true)

  -- Each threshold strictly above the one before.
  abbrev pub IsAscending : List (ConfidenceTierInput D) → Type 0
  IsAscending [] = Unit
  IsAscending (t ∷ []) = Unit
  IsAscending (t ∷ u ∷ us) = (t.threshold ≺ u.threshold) × IsAscending (u ∷ us)

  insert_input-Perm :
      (t : ConfidenceTierInput D) (us : List (ConfidenceTierInput D))
      → Perm (t ∷ us) (insert_input t us)
  unfolding insert_input
  insert_input-Perm t [] = Perm.refl (t ∷ [])
  insert_input-Perm t (u ∷ us) = elim (Bool-cases (lte t.threshold u.threshold)) [
    | inl le ↦ rw le (Perm.refl (t ∷ u ∷ us))
    | inr gt ↦ rw gt (Perm.trans (Perm.swap u t us) (Perm.cons u (insert_input-Perm t us)))
  ]

  sort_inputs-Perm : (ts : List (ConfidenceTierInput D)) → Perm ts (sort_inputs ts)
  unfolding sort_inputs
  sort_inputs-Perm [] = Perm.refl []
  sort_inputs-Perm (t ∷ ts) =
      Perm.trans (Perm.cons t (sort_inputs-Perm ts)) (insert_input-Perm t (sort_inputs ts))

  inputs_error_lem : (ts : List (ConfidenceTierInput D)) → inputs_error ts ≡ none → All IsSound ts
  unfolding inputs_error input_error first_of
  inputs_error_lem [] e = tt
  inputs_error_lem (t ∷ ts) e = ground (arith, inputs_error_lem ts)

  order_error_lem : (ts : List (ConfidenceTierInput D)) → order_error ts ≡ none → IsAscending ts
  unfolding order_error
  order_error_lem [] e = tt
  order_error_lem (t ∷ []) e = tt
  order_error_lem (t ∷ u ∷ us) e = ground (arith, order_error_lem (u ∷ us))

  -- Accepted tiers are the given ones, sorted: each threshold strictly between 0 and 1 and strictly
  -- above the one before, and each quantity a whole number of at least 1.
  pub validate_confidence_tier_inputs-IsSound :
      (tiers sorted : List (ConfidenceTierInput D))
      → validate_confidence_tier_inputs tiers ≡ done sorted
      → Perm tiers sorted × All IsSound sorted × IsAscending sorted
  unfolding validate_confidence_tier_inputs
  validate_confidence_tier_inputs-IsSound tiers sorted e =
      let result = sort_inputs tiers in
      let (sound, ordered, same) = verdict_lem (inputs_error result) (order_error result) e in
      subst (λ l. Perm tiers l × All IsSound l × IsAscending l) same
        (sort_inputs-Perm tiers, inputs_error_lem result sound, order_error_lem result ordered)
