-- ===== src/Trades/Equity/Peak.antt =====
-- The state that `computeAccountRiskState` of backend/src/engine/accounting.ts hands to the breakers.
use tera_trade.Prelude.{
  All, List, [], arith, get_or, none, refl, some, suc, take, zero, ℕ, ◌∷◌, ◌≡◌, ◌≤◌, All-filter,
  Bool, filter, subst, sym, true, ◌&&◌, ◌==◌, All-map, Any, Any-extend, Bool-cases, Option, drop,
  false, filter-All, inl, inr, length, not, ◌⊎◌, Any-filter, Any-map, ◌∙◌,
}
use tera_trade.Trades.Rows.{BrokerKind, TradeRow, kind_eq}
use tera_trade.Trades.Equity.{
  EquityPoint, compute_account_risk_state, highest, losing_run, exited_since, is_losing,
}
use tera_trade.Number.{IsOrdered, Number, larger, ◌≼◌, of_nat, ◌≺◌}
use tera_trade.Number.Order.{larger_lem}

kind_eq_refl : (kind : BrokerKind) → kind_eq kind kind ≡ true
kind_eq_refl kind = ground arith

abbrev pub IsExitSince : ℕ → Option ℕ → Type 0
IsExitSince start none = ⊥
IsExitSince start (some time) = start ≤ time

kind_eq_sound : (a b : BrokerKind) → kind_eq a b ≡ true → a ≡ b
kind_eq_sound a b e = ground (arith, e)

exited_since-IsExitSince :
    (start : ℕ) (o : Option ℕ) → exited_since start o ≡ true → IsExitSince start o
unfolding exited_since
exited_since-IsExitSince start none e = cc
exited_since-IsExitSince start (some time) e = ground (arith, e)

module _ {D : Type 0} ⦃n : Number D⦄ where
  -- The value is the greatest of the points' equities, or the other one where there is no point.
  abbrev IsHighest : D → List (EquityPoint D) → D → Type 0
  IsHighest other points m =
      All (λ p. p.equity ≼ m) points × ((m ≡ other) ⊎ Any (λ p. p.equity ≡ m) points)

  -- A point of the account under the broker.
  abbrev pub IsPointOf : ℕ → BrokerKind → EquityPoint D → Type 0
  IsPointOf account kind p = (p.account_id ≡ account) × (p.broker_kind ≡ kind)

  -- The peak is at least the current equity and at least every recorded point of the account under the
  -- same broker, and it is one of these.
  abbrev pub IsPeakOf : ℕ → BrokerKind → D → List (EquityPoint D) → D → Type 0
  IsPeakOf account kind current points m =
      (current ≼ m)
      × All (λ p. IsPointOf account kind p → p.equity ≼ m) points
      × ((m ≡ current) ⊎ Any (λ p. IsPointOf account kind p × (p.equity ≡ m)) points)

  abbrev pub IsLossOf : Option D → Type 0
  IsLossOf none = ⊥
  IsLossOf (some pnl) = pnl ≺ of_nat 0

  -- A trade of the account under the broker that was closed since the start of the day.
  abbrev pub IsClosedToday : ℕ → BrokerKind → ℕ → TradeRow D → Type 0
  IsClosedToday account kind start t =
      (t.account_id ≡ account)
      × (t.is_open ≡ false)
      × (t.broker_kind ≡ kind)
      × IsExitSince start t.exit_time

  -- The trades of the list that are of today, in its order.
  abbrev pub closed_today_of : ℕ → BrokerKind → ℕ → List (TradeRow D) → List (TradeRow D)
  closed_today_of account kind start = filter (λ t.
      t.account_id == account
      && (not t.is_open && (kind_eq t.broker_kind kind && exited_since start t.exit_time)))

  -- The first `count` trades are losses, and it ends there at a trade that is none, at the end of the list
  -- or after fifty.
  abbrev pub IsStreak : List (TradeRow D) → ℕ → Type 0
  IsStreak trades count =
      All (λ t. IsLossOf t.pnl) (take count trades)
      × (count ≤ length trades)
      × (count ≤ 50)
      × ((count ≡ 50) ⊎ All (λ t. ¬ IsLossOf t.pnl) (take 1 (drop count trades)))

  is_losing-IsLossOf : (o : Option D) → is_losing o ≡ true → IsLossOf o
  unfolding is_losing
  is_losing-IsLossOf none e = cc
  is_losing-IsLossOf (some v) e = ground (arith, e)

  not_losing_lem : (o : Option D) → is_losing o ≡ false → ¬ IsLossOf o
  unfolding is_losing
  not_losing_lem none e h = h
  not_losing_lem (some v) e h = ground (arith, e, h)

  losing_run_lem :
      (trades : List (TradeRow D)) (k : ℕ)
      → let count = losing_run (take k trades) in
        All (λ t. IsLossOf t.pnl) (take count trades)
        × (count ≤ length trades)
        × (count ≤ k)
        × ((count ≡ k) ⊎ All (λ t. ¬ IsLossOf t.pnl) (take 1 (drop count trades)))
  unfolding losing_run
  losing_run_lem trades zero = (tt, omega arith, omega arith, inl refl)
  losing_run_lem [] (suc k) = (tt, omega arith, omega arith, inr tt)
  losing_run_lem (t ∷ trades) (suc k) = elim (Bool-cases (is_losing t.pnl)) [
    | inl e ↦ rw e (ground (arith, is_losing-IsLossOf t.pnl e, losing_run_lem trades k))
    | inr e ↦ rw e (tt, omega arith, omega arith, inr (not_losing_lem t.pnl e, tt))
  ]

  closed_today_lem :
      (account : ℕ) (kind : BrokerKind) (start : ℕ) (t : TradeRow D)
      → (t.account_id == account
          && (not t.is_open && (kind_eq t.broker_kind kind && exited_since start t.exit_time)))
        ≡ true
      → IsClosedToday account kind start t
  closed_today_lem account kind start t e =
      ground
        (arith, e, kind_eq_sound t.broker_kind kind, exited_since-IsExitSince start t.exit_time)

  point_lem :
      (p : EquityPoint D) (account : ℕ) (kind : BrokerKind)
      → (p.account_id == account && kind_eq p.broker_kind kind) ≡ true
      → IsPointOf account kind p
  point_lem p account kind e = ground (arith, e, kind_eq_sound p.broker_kind kind)

  mine_lem :
      (p : EquityPoint D) (account : ℕ) (kind : BrokerKind)
      → IsPointOf account kind p
      → (p.account_id == account && kind_eq p.broker_kind kind) ≡ true
  mine_lem p account kind (a, k) = rw k (ground (arith, a, kind_eq_refl kind))

  module _ (laws : IsOrdered D) where
    open laws use {lte_total, lte_trans}

    highest_ge :
        (best : D) (points : List (EquityPoint D))
        → (m : D) × (highest (some best) points ≡ some m)
          × (best ≼ m)
          × All (λ p. p.equity ≼ m) points
          × ((best ≡ m) ⊎ Any (λ p. p.equity ≡ m) points)
    unfolding highest
    highest_ge best [] = (best, refl, ground (arith, lte_total best best), tt, inl refl)
    highest_ge best (p ∷ points) =
        let (m, e, up, below, met) = highest_ge (larger best p.equity) points in
        let (of_best, of_p, which) = larger_lem laws best p.equity in
        (
          m,
          e,
          lte_trans best (larger best p.equity) m of_best up,
          (lte_trans p.equity (larger best p.equity) m of_p up, below),
          Any-extend (λ q. q.equity) p points best (larger best p.equity) m which met,
        )

    highest-none_ge :
        (other : D) (points : List (EquityPoint D))
        → IsHighest other points (get_or (highest none points) other)
    unfolding highest
    highest-none_ge other [] = (tt, inl refl)
    highest-none_ge other (p ∷ points) =
        let (m, e, up, below, met) = highest_ge p.equity points in
        subst (λ o. IsHighest other (p ∷ points) (get_or o other)) (sym e) ((up, below), inr met)

    peak_met :
        (account : ℕ) (kind : BrokerKind) (current peak m : D) (points : List (EquityPoint D))
        → ((peak ≡ m) ⊎ (current ≡ m))
        → ((peak ≡ current)
            ⊎ Any
                (λ p. p.equity ≡ peak)
                (filter (λ p. p.account_id == account && kind_eq p.broker_kind kind) points))
        → (m ≡ current) ⊎ Any (λ p. IsPointOf account kind p × (p.equity ≡ m)) points
    peak_met account kind current peak m points (inr e) met = inl (sym e)
    peak_met account kind current peak m points (inl e) (inl k) = inl (sym e ∙ k)
    peak_met account kind current peak m points (inl e) (inr found) =
        let mine : EquityPoint D → Bool =
          λ p. p.account_id == account && kind_eq p.broker_kind kind in
        inr (
          Any-map _ _ points (λ p (of_mine, k). (point_lem p account kind of_mine, k ∙ e))
            (Any-filter mine (λ p. p.equity ≡ peak) points found))

    peak_lem :
        (account : ℕ) (kind : BrokerKind) (current : D) (points : List (EquityPoint D))
        → let mine = filter (λ p. p.account_id == account && kind_eq p.broker_kind kind) points in
          IsPeakOf account kind current points (larger (get_or (highest none mine) current) current)
    peak_lem account kind current points =
        let mine : EquityPoint D → Bool =
          λ p. p.account_id == account && kind_eq p.broker_kind kind in
        let peak = get_or (highest none (filter mine points)) current in
        let (of_peak, of_current, which) = larger_lem laws peak current in
        let (below, met) = highest-none_ge current (filter mine points) in
        let listed = All-filter mine (λ p. p.equity ≼ peak) points below in
        (
          of_current,
          All-map _ _ points
              (λ p inside mine_p.
                lte_trans p.equity peak (larger peak current)
                  (inside (mine_lem p account kind mine_p)) of_peak)
              listed,
          peak_met account kind current peak (larger peak current) points which met,
        )

    -- The peak that the breakers see is the greatest of the current equity and the recorded points of the
    -- account under the same broker. The losing streak counts trades of the account under that broker
    -- that were closed since the start of the day: the latest ones that are losses, up to the first that
    -- is none, and at most fifty.
    pub compute_account_risk_state-IsPeakOf :
        (account : ℕ) (kind : BrokerKind) (current : D) (today_start : ℕ)
        (points : List (EquityPoint D)) (recent_closed trades : List (TradeRow D))
        → let s =
            compute_account_risk_state account kind current today_start points recent_closed
              trades in
          IsPeakOf account kind current points s.peak_equity
          × IsStreak (closed_today_of account kind today_start recent_closed) s.consecutive_losses
          × All
              (IsClosedToday account kind today_start)
              (closed_today_of account kind today_start recent_closed)
    unfolding compute_account_risk_state
    compute_account_risk_state-IsPeakOf account kind current today_start points recent_closed
          trades =
        (
          peak_lem account kind current points,
          losing_run_lem (closed_today_of account kind today_start recent_closed) 50,
          All-map _ (IsClosedToday account kind today_start) _
              (closed_today_lem account kind today_start) (filter-All _ recent_closed),
        )
