-- ===== src/Prelude/Search.antt =====
-- `find`, `filter` and membership, of the lists that the program searches.
use mathlib.Core.Path.{◌≡◌, refl, subst, ◌∙◌}
use mathlib.Core.Logic.{◌⊎◌, inl, inr}
use mathlib.Core.Bool.{Bool, true, false}
use mathlib.Core.List.{List, [], ◌∷◌}
use mathlib.Core.Option.{none, some}
use native.Mathlib.Omega.{arith}
use tera_trade.Prelude.Tests.{Bool-cases}
use tera_trade.Prelude.Lists.{find, filter, any, All, Any}

module _ {A : Type 0} where
  abbrev pub IsIn : A → List A → Type 0
  IsIn x = Any (λ y. y ≡ x)

  pub find-cases :
      (p : A → Bool) (xs : List A)
      → ((find p xs ≡ none) × All (λ x. p x ≡ false) xs)
        ⊎ ((x : A) × (find p xs ≡ some x) × (p x ≡ true) × IsIn x xs)
  find-cases p [] = inl (refl, tt)
  find-cases p (x ∷ xs) = elim (Bool-cases (p x)) [
    | inl e ↦ ground arith
    | inr e ↦ ground (arith, find-cases p xs)
  ]

  pub All-IsIn : (P : A → Type 0) (x : A) (xs : List A) → All P xs → IsIn x xs → P x
  All-IsIn P x [] h k = absurd k
  All-IsIn P x (y ∷ ys) h (inl e) = subst P e h.0
  All-IsIn P x (y ∷ ys) h (inr k) = All-IsIn P x ys h.1 k

  pub filter-IsIn :
      (p : A → Bool) (x : A) (xs : List A) → p x ≡ true → IsIn x xs → IsIn x (filter p xs)
  filter-IsIn p x [] e k = absurd k
  filter-IsIn p x (y ∷ ys) e (inl h) = elim (Bool-cases (p y)) [
    | inl k ↦ ground arith
    | inr k ↦ ground arith
  ]
  filter-IsIn p x (y ∷ ys) e (inr h) = elim (Bool-cases (p y)) [
    | inl k ↦ ground (arith, filter-IsIn p x ys e h)
    | inr k ↦ ground (arith, filter-IsIn p x ys e h)
  ]

  pub filter-All : (p : A → Bool) (xs : List A) → All (λ x. p x ≡ true) (filter p xs)
  filter-All p [] = tt
  filter-All p (x ∷ xs) = elim (Bool-cases (p x)) [
    | inl e ↦ ground (arith, filter-All p xs)
    | inr e ↦ ground (arith, filter-All p xs)
  ]

  pub any-IsIn : (p : A → Bool) (xs : List A) → any p xs ≡ true → (x : A) × IsIn x xs × (p x ≡ true)
  any-IsIn p [] e = absurd (ground arith)
  any-IsIn p (x ∷ xs) e = elim (Bool-cases (p x)) [
    | inl k ↦ (x, inl refl, k)
    | inr k ↦ let (y, here, holds) = any-IsIn p xs (ground arith) in (y, inr here, holds)
  ]

  pub any-All : (p : A → Bool) (xs : List A) → any p xs ≡ false → All (λ x. p x ≡ false) xs
  any-All p [] e = tt
  any-All p (x ∷ xs) e = ground (arith, any-All p xs)

  pub IsIn-All : (P : A → Type 0) (xs : List A) → ((x : A) → IsIn x xs → P x) → All P xs
  IsIn-All P [] h = tt
  IsIn-All P (x ∷ xs) h = (h x (inl refl), IsIn-All P xs (λ y k. h y (inr k)))

  pub All-filter :
      (p : A → Bool) (P : A → Type 0) (xs : List A)
      → All P (filter p xs)
      → All (λ x. p x ≡ true → P x) xs
  All-filter p P [] h = tt
  All-filter p P (x ∷ xs) h = elim (Bool-cases (p x)) [
    | inl e ↦ ground (arith, All-filter p P xs)
    | inr e ↦ ground (arith, All-filter p P xs)
  ]

  pub Any-filter :
      (p : A → Bool) (P : A → Type 0) (xs : List A)
      → Any P (filter p xs)
      → Any (λ x. (p x ≡ true) × P x) xs
  Any-filter p P [] h = absurd h
  Any-filter p P (x ∷ xs) h = elim (Bool-cases (p x)) [
    | inl e ↦ ground (arith, h, Any-filter p P xs)
    | inr e ↦ ground (arith, h, Any-filter p P xs)
  ]

  pub Any-map : (P Q : A → Type 0) (xs : List A) → ((x : A) → P x → Q x) → Any P xs → Any Q xs
  Any-map P Q [] f h = absurd h
  Any-map P Q (x ∷ xs) f (inl h) = inl (f x h)
  Any-map P Q (x ∷ xs) f (inr h) = inr (Any-map P Q xs f h)

  pub All-map : (P Q : A → Type 0) (xs : List A) → ((x : A) → P x → Q x) → All P xs → All Q xs
  All-map P Q [] f h = tt
  All-map P Q (x ∷ xs) f h = (f x h.0, All-map P Q xs f h.1)

  -- A value that is met at the head or in the rest, after one step of a search for an extreme.
  pub Any-extend :
      {B : Type 0} (f : A → B) (x : A) (xs : List A) (a t m : B)
      → ((a ≡ t) ⊎ (f x ≡ t))
      → ((t ≡ m) ⊎ Any (λ y. f y ≡ m) xs)
      → (a ≡ m) ⊎ Any (λ y. f y ≡ m) (x ∷ xs)
  Any-extend f x xs a t m h (inr k) = inr (inr k)
  Any-extend f x xs a t m (inl h) (inl k) = inl (h ∙ k)
  Any-extend f x xs a t m (inr h) (inl k) = inr (inl (h ∙ k))
