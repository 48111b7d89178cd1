-- ===== src/Risk/Sizing/Tiers.antt =====
-- The confidence tiers of backend/src/risk/sizing.ts: a higher probability never sizes smaller.
use mathlib.Core.Option
use tera_trade.Prelude.{
  ℕ, ◌≤◌, inl, inr, Bool-cases, List, [], ◌∷◌, find, get_or, get_last?, All, arith,
}
use tera_trade.Number.{Number, IsOrdered, lte, gte, ◌≼◌}
use tera_trade.Risk.Sizing.{Tier, insert_tier, sort_tiers, compute_confidence_tier_quantity}

module _ {D : Type 0} ⦃n : Number D⦄ where
  -- Of two tiers the one with the higher threshold has the larger quantity.
  abbrev pub Agrees : Tier D → Tier D → Type 0
  Agrees t u = (t.0 ≼ u.0 → t.1 ≤ u.1) × (u.0 ≼ t.0 → u.1 ≤ t.1)

  -- The tiers form a ladder, in whatever order they stand.
  abbrev pub IsLadder : List (Tier D) → Type 0
  IsLadder [] = Unit
  IsLadder (t ∷ ts) = All (Agrees t) ts × IsLadder ts

  abbrev Under : Tier D → Tier D → Type 0
  Under t u = (u.0 ≼ t.0) × (u.1 ≤ t.1)

  abbrev IsDescending : List (Tier D) → Type 0
  IsDescending [] = Unit
  IsDescending (t ∷ ts) = All (Under t) ts × IsDescending ts

  abbrev tier_quantity : D → ℕ → List (Tier D) → ℕ
  tier_quantity p lowest ts = get_or (Option.map (λ t. t.1) (find (λ t. gte p t.0) ts)) lowest

  All-insert_tier :
      (P : Tier D → Type 0) (t : Tier D) (us : List (Tier D))
      → P t
      → All P us
      → All P (insert_tier t us)
  unfolding insert_tier
  All-insert_tier P t [] p ps = (p, tt)
  All-insert_tier P t (u ∷ us) p ps = ground (arith, All-insert_tier P t us p ps.1)

  All-sort_tiers : (P : Tier D → Type 0) (ts : List (Tier D)) → All P ts → All P (sort_tiers ts)
  unfolding sort_tiers
  All-sort_tiers P [] ps = tt
  All-sort_tiers P (t ∷ ts) ps = All-insert_tier P t (sort_tiers ts) ps.0 (All-sort_tiers P ts ps.1)

  Under-bound : (t : Tier D) (us : List (Tier D)) → All (Under t) us → All (λ u. u.1 ≤ t.1) us
  Under-bound t [] h = tt
  Under-bound t (u ∷ us) h = (h.0.1, Under-bound t us h.1)

  abbrev last_quantity : List (Tier D) → ℕ
  last_quantity ts = get_or (Option.map (λ t. t.1) (get_last? ts)) 1

  last_quantity_le : (ts : List (Tier D)) → IsDescending ts → All (λ t. last_quantity ts ≤ t.1) ts
  last_quantity_le [] h = tt
  last_quantity_le (t ∷ []) h = (omega arith, tt)
  last_quantity_le (t ∷ u ∷ us) h = let rest = last_quantity_le (u ∷ us) h.1 in (omega arith, rest)

  pub compute_confidence_tier_quantity_le :
      (p : D) (max_position_size : ℕ) (tiers : List (Tier D))
      → compute_confidence_tier_quantity p max_position_size tiers ≤ max_position_size
  unfolding compute_confidence_tier_quantity
  compute_confidence_tier_quantity_le p max_position_size tiers = omega arith

  module _ (laws : IsOrdered D) where
    open laws use {lte_total, lte_trans}

    Under-trans :
        (t u : Tier D) (us : List (Tier D)) → Under t u → All (Under u) us → All (Under t) us
    Under-trans t u [] h k = tt
    Under-trans t u (v ∷ us) h k = ground (arith, lte_trans v.0 u.0 t.0, Under-trans t u us h k.1)

    insert_tier-IsDescending :
        (t : Tier D) (us : List (Tier D))
        → All (Agrees t) us
        → IsDescending us
        → IsDescending (insert_tier t us)
    unfolding insert_tier
    insert_tier-IsDescending t [] a d = (tt, tt)
    insert_tier-IsDescending t (u ∷ us) a d = elim (Bool-cases (lte u.0 t.0)) [
      | inl h ↦ ground (arith, Under-trans t u us)
      | inr h ↦ ground (
        arith,
        lte_total u.0 t.0,
        All-insert_tier (Under u) t us,
        insert_tier-IsDescending t us a.1 d.1,
      )
    ]

    sort_tiers-IsDescending : (ts : List (Tier D)) → IsLadder ts → IsDescending (sort_tiers ts)
    unfolding sort_tiers
    sort_tiers-IsDescending [] h = tt
    sort_tiers-IsDescending (t ∷ ts) h =
        insert_tier-IsDescending t (sort_tiers ts) (All-sort_tiers (Agrees t) ts h.0)
          (sort_tiers-IsDescending ts h.1)

    tier_quantity_le :
        (p : D) (lowest bound : ℕ) (ts : List (Tier D))
        → lowest ≤ bound
        → All (λ t. t.1 ≤ bound) ts
        → tier_quantity p lowest ts ≤ bound
    tier_quantity_le p lowest bound [] h k = h
    tier_quantity_le p lowest bound (t ∷ ts) h k =
        ground (arith, tier_quantity_le p lowest bound ts h k.1)

    tier_quantity_mono :
        (p q : D) (lowest : ℕ) (ts : List (Tier D))
        → p ≼ q
        → IsDescending ts
        → All (λ t. lowest ≤ t.1) ts
        → tier_quantity p lowest ts ≤ tier_quantity q lowest ts
    tier_quantity_mono p q lowest [] h d k = omega arith
    tier_quantity_mono p q lowest (t ∷ ts) h d k = ground (
      arith,
      lte_trans t.0 p q,
      tier_quantity_mono p q lowest ts h d.1 k.1,
      tier_quantity_le p lowest t.1 ts k.0 (Under-bound t ts d.0),
    )

    -- If of any two tiers the one with the higher threshold has the larger quantity, in whatever
    -- order they are given, a setup of higher average probability is never sized smaller.
    pub compute_confidence_tier_quantity_mono :
        (p q : D) (max_position_size : ℕ) (tiers : List (Tier D))
        → IsLadder tiers
        → p ≼ q
        → compute_confidence_tier_quantity p max_position_size tiers
          ≤ compute_confidence_tier_quantity q max_position_size tiers
    unfolding compute_confidence_tier_quantity
    compute_confidence_tier_quantity_mono p q max_position_size tiers ladder h =
        let d = sort_tiers-IsDescending tiers ladder in
        let sorted = sort_tiers tiers in
        omega (
          arith,
          tier_quantity_mono p q (last_quantity sorted) sorted h d (last_quantity_le sorted d),
        )
