-- ===== src/Trades/Conflict/Compatible.antt =====
-- The rule of backend/src/engine/crossSymbolConflictCheck.ts keeps ES and NQ on one side.
use mathlib.Core.Option.{some-injective}
use tera_trade.Prelude.{
  String, eq_iff, some, str_eq, true, ◌≡◌, Bool-cases, arith, inl, inr, refl, subst, sym, All-IsIn,
  IsIn, List, any, any-All, false, ℕ, ◌==◌, ◌∙◌, ◌∷◌,
}
use tera_trade.Trades.Conflict.{
  get_conflicting_partner_symbol, conflicts, has_conflicting_cross_symbol_position,
}
use tera_trade.Market.{Side, long, opposite, short, side_eq}
use tera_trade.Trades.Rows.{TradeRow}

str_eq_to : (a b : String) → str_eq a b ≡ true → a ≡ b
str_eq_to a b e = (eq_iff a b).0 e

partner_pair :
    (x y a b : String)
    → a ≡ x
    → y ≡ b
    → get_conflicting_partner_symbol y ≡ some x
    → get_conflicting_partner_symbol b ≡ some a
partner_pair x y a b p q h =
    subst (λ b. get_conflicting_partner_symbol b ≡ some a) q
      (subst (λ c. get_conflicting_partner_symbol y ≡ some c) (sym p) h)

-- A symbol's partner has the symbol as its partner.
partner_of_partner :
    (a b : String)
    → get_conflicting_partner_symbol a ≡ some b
    → get_conflicting_partner_symbol b ≡ some a
unfolding get_conflicting_partner_symbol
partner_of_partner a b e = elim (Bool-cases (str_eq a "ES")) [
  | inl h ↦
      let same : "NQ" ≡ b = some-injective _ _ (rw h at e) in
      partner_pair "ES" "NQ" a b (str_eq_to a "ES" h) same refl
  | inr h ↦ elim (Bool-cases (str_eq a "NQ")) [
    | inl g ↦
        let same : "ES" ≡ b = some-injective _ _ (rw (h, g) at e) in
        partner_pair "NQ" "ES" a b (str_eq_to a "NQ" g) same refl
    | inr g ↦ absurd (ground arith)
  ]
]

opposite_sym : (a b : Side) → a ≡ opposite b → b ≡ opposite a
opposite_sym long b e = ground arith
opposite_sym short b e = ground arith

str_eq_refl : (a b : String) → a ≡ b → str_eq a b ≡ true
str_eq_refl a b e = (eq_iff a b).1 e

side_eq_refl : (a b : Side) → a ≡ b → side_eq a b ≡ true
side_eq_refl a b e = ground arith

module _ {D : Type 0} (accounts : List ℕ) where
  -- An open trade of one of the accounts.
  abbrev pub IsHeld : TradeRow D → Type 0
  IsHeld t = (t.is_open ≡ true) × (any (λ a. a == t.account_id) accounts ≡ true)

  -- Trades on the two partners, on opposite sides.
  abbrev pub IsOpposed : TradeRow D → TradeRow D → Type 0
  IsOpposed t u =
      (get_conflicting_partner_symbol t.symbol ≡ some u.symbol) × (u.side ≡ opposite t.side)

  -- No two open trades of the accounts are opposed.
  abbrev pub IsCompatible : List (TradeRow D) → Type 0
  IsCompatible trades =
      (t u : TradeRow D) → IsIn t trades → IsIn u trades → IsHeld t → IsHeld u → ¬ IsOpposed t u

  opposed-conflicts :
      (t u : TradeRow D) (partner : String)
      → get_conflicting_partner_symbol t.symbol ≡ some partner
      → IsHeld u
      → IsOpposed t u
      → conflicts accounts partner t.side u ≡ true
  unfolding conflicts
  opposed-conflicts t u partner e (open_trade, mine) (p, s) =
      let same = str_eq_refl u.symbol partner (some-injective _ _ (sym p ∙ e)) in
      rw (mine, same, side_eq_refl u.side (opposite t.side) s, open_trade) refl

  has_conflicting-IsOpposed :
      (t : TradeRow D) (trades : List (TradeRow D))
      → has_conflicting_cross_symbol_position accounts t.symbol t.side trades ≡ false
      → (u : TradeRow D) → IsIn u trades
      → IsHeld u
      → ¬ IsOpposed t u
  unfolding has_conflicting_cross_symbol_position
  has_conflicting-IsOpposed t trades e u here held opposed =
      let none_of =
        any-All (conflicts accounts u.symbol t.side) trades
          (rw (opposed.0, has_conflicting_cross_symbol_position) at e) in
      let no = All-IsIn (λ x. conflicts accounts u.symbol t.side x ≡ false) u trades none_of here in
      absurd (ground (arith, no, opposed-conflicts t u u.symbol opposed.0 held opposed))

  IsOpposed-sym : (t u : TradeRow D) → IsOpposed t u → IsOpposed u t
  IsOpposed-sym t u (p, q) = (partner_of_partner t.symbol u.symbol p, opposite_sym u.side t.side q)

  not_own_opposite : (t : TradeRow D) → ¬ (t.side ≡ opposite t.side)
  not_own_opposite t e = absurd (ground arith)

  -- A trade that passes the check joins open trades of which no two are on opposite sides of ES and NQ,
  -- and keeps it so, in both directions.
  pub has_conflicting_cross_symbol_position-IsCompatible :
      (trades : List (TradeRow D)) (t : TradeRow D)
      → IsCompatible trades
      → has_conflicting_cross_symbol_position accounts t.symbol t.side trades ≡ false
      → IsCompatible (t ∷ trades)
  has_conflicting_cross_symbol_position-IsCompatible trades t h e x y (inl a) (inl b) held_x held_y
        o =
      absurd (
        not_own_opposite t (
          subst (λ z. z.side ≡ opposite t.side) (sym b)
            (subst (λ z. y.side ≡ opposite z.side) (sym a) o.1)))
  has_conflicting_cross_symbol_position-IsCompatible trades t h e x y (inl a) (inr here) held_x
        held_y o =
      has_conflicting-IsOpposed t trades e y here held_y (subst (λ z. IsOpposed z y) (sym a) o)
  has_conflicting_cross_symbol_position-IsCompatible trades t h e x y (inr here) (inl b) held_x
        held_y o =
      has_conflicting-IsOpposed t trades e x here held_x
        (subst (λ z. IsOpposed z x) (sym b) (IsOpposed-sym x y o))
  has_conflicting_cross_symbol_position-IsCompatible trades t h e x y (inr in_x) (inr in_y) held_x
        held_y o =
      h x y in_x in_y held_x held_y o
