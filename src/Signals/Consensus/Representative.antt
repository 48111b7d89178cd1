-- ===== src/Signals/Consensus/Representative.antt =====
-- Which version's score `determineConsensus` of backend/src/engine/loop.ts shows with a trade.
use tera_trade.Prelude.{
  ◌≡◌, ◌⊎◌, inl, inr, refl, subst, true, false, Bool, List, ◌∷◌, arith, Bool-cases, filter, any,
  find-cases, filter-IsIn, filter-All, any-IsIn, any-All, All-IsIn, IsIn, All, if◌then◌else◌, none,
  not, some, IsIn-All, sym, ◌∙◌,
}
use tera_trade.Number.{Number}
use tera_trade.Execution.Mode.{StrategyVersion, v6}
use tera_trade.Scoring.Versions.{version_eq, version_eq_lem, version_eq_refl, is_taken}
use tera_trade.Signals.Consensus.{
  GatedByVersion, representative_of, determine_consensus, representative_order, session_gate_passed,
  v6_mandatory_representative_order,
}
use tera_trade.Scoring.SessionPerformance.{SessionPerformanceSelection}
use tera_trade.Analytics.Session.{TradingSession}

module _ {D : Type 0} ⦃n : Number D⦄ where
  abbrev pub Takes : GatedByVersion D → StrategyVersion → Type 0
  Takes g v = is_taken (g v).decision ≡ true

  abbrev pub Skips : GatedByVersion D → StrategyVersion → Type 0
  Skips g v = is_taken (g v).decision ≡ false

  taken_version :
      (g : GatedByVersion D) (v : StrategyVersion) (order : List StrategyVersion)
      → any (λ u. version_eq u v) (filter (λ u. is_taken (g u).decision) order) ≡ true
      → Takes g v
  taken_version g v order e =
      let takes : StrategyVersion → Bool = λ u. is_taken (g u).decision in
      let (u, here, same) = any-IsIn (λ u. version_eq u v) (filter takes order) e in
      subst (Takes g) (version_eq_lem u v same)
        (All-IsIn (Takes g) u (filter takes order) (filter-All takes order) here)

  skipped_version :
      (g : GatedByVersion D) (v : StrategyVersion) (order : List StrategyVersion)
      → IsIn v order
      → any (λ u. version_eq u v) (filter (λ u. is_taken (g u).decision) order) ≡ false
      → Skips g v
  skipped_version g v order here e =
      let takes : StrategyVersion → Bool = λ u. is_taken (g u).decision in
      elim (Bool-cases (is_taken (g v).decision)) [
        | inl t ↦ absurd (
            ground (
              arith,
              version_eq_refl v,
              All-IsIn (λ u. version_eq u v ≡ false) v (filter takes order)
                  (any-All (λ u. version_eq u v) (filter takes order) e)
                  (filter-IsIn takes v order t here),
            ))
        | inr t ↦ t
      ]

  -- The version is one of the order that takes the signal; or it is the first, and none takes it.
  abbrev IsRepresentative :
      GatedByVersion D → StrategyVersion → List StrategyVersion → StrategyVersion → Type 0
  IsRepresentative g first rest r =
      (Takes g r × IsIn r (first ∷ rest))
      ⊎ ((r ≡ first) × ((v : StrategyVersion) → IsIn v (first ∷ rest) → Skips g v))

  first_preferred :
      (g : GatedByVersion D) (first : StrategyVersion) (rest : List StrategyVersion)
      → Takes g first
      → representative_of g (first, rest) ≡ first
  unfolding representative_of
  first_preferred g first rest t = ground (arith, version_eq_refl first)

  representative_of_lem :
      (g : GatedByVersion D) (first : StrategyVersion) (rest : List StrategyVersion)
      → IsRepresentative g first rest (representative_of g (first, rest))
  unfolding representative_of
  representative_of_lem g first rest =
      let order = first ∷ rest in
      let among : StrategyVersion → Bool =
        λ v. any (λ u. version_eq u v) (filter (λ u. is_taken (g u).decision) order) in
      elim (find-cases among order) [
        | inl (e, none_of) ↦ inr (
          rw e refl,
          λ v here.
              skipped_version g v order here (All-IsIn (λ u. among u ≡ false) v order none_of here),
        )
        | inr (v, e, holds, here) ↦
            subst (IsRepresentative g first rest) (rw e refl)
              (inl (taken_version g v order holds, here))
      ]

  abbrev pub representative_lead : SessionPerformanceSelection D → StrategyVersion
  representative_lead s = if s.cold_start then v6 else s.selected_version

  abbrev pub IsChosen : GatedByVersion D → SessionPerformanceSelection D → StrategyVersion → Type 0
  IsChosen g s r =
      Takes g r ⊎ ((r ≡ representative_lead s) × All (Skips g) v6_mandatory_representative_order)

  representative_order_lem :
      (s : SessionPerformanceSelection D) (v : StrategyVersion)
      → IsIn v v6_mandatory_representative_order
      → IsIn v ((representative_order true s).0 ∷ (representative_order true s).1)
  unfolding representative_order
  representative_order_lem s v h = elim (Bool-cases s.cold_start) [
    | inl cold ↦ rw cold h
    | inr warm ↦ elim (Bool-cases (version_eq v s.selected_version)) [
      | inl e ↦ ground (arith, version_eq_lem v s.selected_version e)
      | inr e ↦
          let listed =
            filter-IsIn (λ u. not (version_eq u s.selected_version)) v
              v6_mandatory_representative_order (rw e refl) h in
          rw warm (inr listed)
    ]
  ]

  lead_lem :
      (s : SessionPerformanceSelection D) → (representative_order true s).0 ≡ representative_lead s
  unfolding representative_order
  lead_lem s = ground arith

  -- A signal that is not taken has no representative. One that is taken has one: the selected version,
  -- or v6 in a cold start, if that version's own decision is to take the signal; else one whose decision
  -- is, if any of the listed versions' decisions is; and else the selected version, or v6, all the same.
  pub determine_consensus-representative :
      (g : GatedByVersion D) (s : SessionPerformanceSelection D) (session : TradingSession)
      → let c = determine_consensus g s session in
        ((c.taken ≡ false) × (c.representative_version ≡ none))
        ⊎ ((c.taken ≡ true)
            × ((r : StrategyVersion) × (c.representative_version ≡ some r)
                × (Takes g r
                    ⊎ ((r ≡ representative_lead s)
                        × All (Skips g) v6_mandatory_representative_order))
                × (Takes g (representative_lead s) → r ≡ representative_lead s)))
  unfolding determine_consensus
  determine_consensus-representative g s session =
      elim (Bool-cases (session_gate_passed g s session)) [
        | inr e ↦ inl (e, rw e refl)
        | inl e ↦
            let order = representative_order true s in
            let chosen =
              elim (representative_of_lem g order.0 order.1)
                as (λ _. IsChosen g s (representative_of g order)) [
                  | inl h ↦ inl h.0
                  | inr h ↦ inr (
                    h.0 ∙ lead_lem s,
                    IsIn-All (Skips g) v6_mandatory_representative_order
                        (λ v k. h.1 v (representative_order_lem s v k)),
                  )
                ] in
            let preferred = λ (t : Takes g (representative_lead s)).
              first_preferred g order.0 order.1 (subst (Takes g) (sym (lead_lem s)) t)
              ∙ lead_lem s in
            inr (e, (representative_of g order, rw e refl, chosen, preferred))
      ]
