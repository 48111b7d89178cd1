-- ===== src/Trades/History/Closest.antt =====
-- Which row of the broker's history `findMatchingClosedTrade` of
-- backend/src/browserControl/tradeHistoryPanel.ts matches.
use tera_trade.Prelude.{
  All, Bool-cases, IsIn, List, Option, String, [], arith, false, inl, inr, ltb, none, refl, some,
  true, ◌&&◌, ◌∷◌, ◌≡◌, ◌≤◌, ◌⊎◌,
}
use tera_trade.Trades.Rows.{ClosedTradeHistoryEntry, TradeRow}
use tera_trade.Trades.History.{
  closer_in_time, delta_ms, find_matching_closed_trade, is_candidate, match_from, match_step,
}

module _ {D : Type 0} where
  abbrev pub IsCandidate : TradeRow D → List String → ClosedTradeHistoryEntry D → Type 0
  IsCandidate trade excluded entry = is_candidate trade excluded entry ≡ true

  -- No row that has not been claimed is of the side and the quantity and within the tolerance; or the
  -- match is such a row, and none is closer in time.
  abbrev pub IsClosestMatch :
      TradeRow D
      → List String
      → List (ClosedTradeHistoryEntry D)
      → Option (ClosedTradeHistoryEntry D)
      → Type 0
  IsClosestMatch trade excluded entries found =
      ((found ≡ none) × All (λ x. is_candidate trade excluded x ≡ false) entries)
      ⊎ ((best : ClosedTradeHistoryEntry D) × (found ≡ some best)
          × IsCandidate trade excluded best
          × IsIn best entries
          × All (λ x. IsCandidate trade excluded x → delta_ms trade best ≤ delta_ms trade x)
              entries)

  -- Where a best row is known already, the loop answers it or a row of the rest, the closest of all.
  match_from-some :
      (trade : TradeRow D) (excluded : List String) (best : ClosedTradeHistoryEntry D)
      (entries : List (ClosedTradeHistoryEntry D))
      → IsCandidate trade excluded best
      → (found : ClosedTradeHistoryEntry D) × (match_from trade excluded (some best) entries
          ≡ some found)
        × IsCandidate trade excluded found
        × IsIn found (best ∷ entries)
        × (delta_ms trade found ≤ delta_ms trade best)
        × All (λ x. IsCandidate trade excluded x → delta_ms trade found ≤ delta_ms trade x) entries
  unfolding match_from match_step closer_in_time
  match_from-some trade excluded best [] h = (best, refl, h, inl refl, omega arith, tt)
  match_from-some trade excluded best (x ∷ entries) h =
      elim (Bool-cases
        (is_candidate trade excluded x && ltb (delta_ms trade x) (delta_ms trade best))) [
          | inl e ↦
              let (found, eq, candidate, here, near, all) =
                match_from-some trade excluded x entries (ground arith) in
              rw e (found, eq, candidate, inr here, ground arith, (λ _. near, all))
          | inr e ↦
              let (found, eq, candidate, here, near, all) =
                match_from-some trade excluded best entries h in
              rw e (found, eq, candidate, ground arith, near, (λ c. ground arith, all))
        ]

  -- The match is the candidate closest in time, a row of the side and the quantity of the trade within
  -- three minutes of its entry that no other trade has claimed; there is none only if no row is one.
  pub find_matching_closed_trade-IsClosestMatch :
      (trade : TradeRow D) (entries : List (ClosedTradeHistoryEntry D)) (excluded : List String)
      → IsClosestMatch trade excluded entries (find_matching_closed_trade trade entries excluded)
  unfolding find_matching_closed_trade match_from match_step closer_in_time
  find_matching_closed_trade-IsClosestMatch trade [] excluded = inl (refl, tt)
  find_matching_closed_trade-IsClosestMatch trade (x ∷ entries) excluded =
      elim (Bool-cases (is_candidate trade excluded x)) [
        | inl c ↦
            let (found, eq, candidate, here, near, all) =
              match_from-some trade excluded x entries c in
            rw c (inr (found, eq, candidate, here, (λ _. near, all)))
        | inr c ↦ elim (find_matching_closed_trade-IsClosestMatch trade entries excluded) [
          | inl (e, all) ↦ rw c (inl (e, (refl, all)))
          | inr (best, e, candidate, here, all) ↦
              rw c (inr (best, e, candidate, inr here, (λ d. cc, all)))
        ]
      ]
