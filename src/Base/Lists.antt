-- ===== src/Base/Lists.antt =====
-- Lists measured by native numbers, tests over lists, and updates in place.
use Prim.Native.Nat.{ℕ, zero, suc, ◌+◌}
use mathlib.Core.Path.{◌≡◌, refl, ap}
use mathlib.Core.Bool.{Bool, true, false, ◌&&◌, ◌||◌}
use mathlib.Core.Logic.{inl, inr}
use mathlib.Core.List.{List, [], ◌∷◌, ◌++◌}
use mathlib.Core.Option.{Option, none, some}
use native.Mathlib.Omega.{arith}
use irg_gdp.Base.Tests.{if◌then◌else◌, Bool-cases}

module _ {ℓ} {A : Type ℓ} where
  abbrev pub length : List A → ℕ
  length [] = 0
  length (x ∷ xs) = suc (length xs)

  -- `xs[:n]`
  abbrev pub take : ℕ → List A → List A
  take zero xs = []
  take (suc n) [] = []
  take (suc n) (x ∷ xs) = x ∷ take n xs

  abbrev pub any : (A → Bool) → List A → Bool
  any p [] = false
  any p (x ∷ xs) = p x || any p xs

  abbrev pub all : (A → Bool) → List A → Bool
  all p [] = true
  all p (x ∷ xs) = p x && all p xs

  -- `[x for x in xs if p(x)]`, or a queryset's `filter`
  abbrev pub filter : (A → Bool) → List A → List A
  filter p [] = []
  filter p (x ∷ xs) = let rest = filter p xs in if p x then x ∷ rest else rest

  -- a queryset's `filter(...).first()`
  abbrev pub find? : (A → Bool) → List A → Option A
  find? p [] = none
  find? p (x ∷ xs) = let rest = find? p xs in if p x then some x else rest

  -- a queryset's `filter(...).update(...)`
  abbrev pub update_where : (A → Bool) → (A → A) → List A → List A
  update_where p f [] = []
  update_where p f (x ∷ xs) = (if p x then f x else x) ∷ update_where p f xs

  abbrev pub is_nonempty : List A → Bool
  is_nonempty [] = false
  is_nonempty (x ∷ xs) = true

module _ {ℓ} {A : Type ℓ} where
  pub length-append : (xs ys : List A) → length (xs ++ ys) ≡ length xs + length ys
  length-append [] ys = omega arith
  length-append (x ∷ xs) ys = omega (arith, length-append xs ys)

  pub filter-append :
      (p : A → Bool) (xs ys : List A) → filter p (xs ++ ys) ≡ filter p xs ++ filter p ys
  filter-append p [] ys = refl
  filter-append p (x ∷ xs) ys = elim (Bool-cases (p x)) [
    | inl e ↦ rw (e, filter-append p xs ys)
    | inr e ↦ rw (e, filter-append p xs ys)
  ]

  pub any-append : (p : A → Bool) (xs ys : List A) → any p (xs ++ ys) ≡ (any p xs || any p ys)
  any-append p [] ys = refl
  any-append p (x ∷ xs) ys = ground (arith, any-append p xs ys)

  pub length-update_where :
      (p : A → Bool) (f : A → A) (xs : List A) → length (update_where p f xs) ≡ length xs
  length-update_where p f [] = refl
  length-update_where p f (x ∷ xs) = ap suc (length-update_where p f xs)

  -- An update that takes a row out of the selection leaves nothing selected.
  pub filter-update_where_none :
      (p : A → Bool) (f : A → A)
      → ((x : A) → p (f x) ≡ false)
      → (xs : List A) → filter p (update_where p f xs) ≡ []
  filter-update_where_none p f out [] = refl
  filter-update_where_none p f out (x ∷ xs) = elim (Bool-cases (p x)) [
    | inl e ↦ rw (e, out x) (filter-update_where_none p f out xs)
    | inr e ↦ rw (e, e) (filter-update_where_none p f out xs)
  ]

  pub filter-all : (p : A → Bool) (xs : List A) → all p xs ≡ true → filter p xs ≡ xs
  filter-all p [] h = refl
  filter-all p (x ∷ xs) h = ground (arith, filter-all p xs)

  pub any-filter : (p : A → Bool) (xs : List A) → any p xs ≡ is_nonempty (filter p xs)
  any-filter p [] = refl
  any-filter p (x ∷ xs) = ground (arith, any-filter p xs)

  -- What holds of every row still holds when the selected rows are replaced by a row it holds of.
  pub all-update_where :
      (p q : A → Bool) (y : A) (xs : List A)
      → all p xs ≡ true
      → p y ≡ true
      → all p (update_where q (λ _. y) xs) ≡ true
  all-update_where p q y [] h e = refl
  all-update_where p q y (x ∷ xs) h e = ground (arith, all-update_where p q y xs)

  -- A row that is found has what every row has, and what was searched for.
  pub all-find? :
      (p q : A → Bool) (x : A) (xs : List A)
      → all p xs ≡ true
      → find? q xs ≡ some x
      → (p x ≡ true) × (q x ≡ true)
  all-find? p q x [] h e = ground arith
  all-find? p q x (y ∷ ys) h e = ground (arith, all-find? p q x ys)

  -- After the rows that are searched for are replaced by one of their kind, that one is found.
  pub find?-update_where :
      (p : A → Bool) (u t : A) (xs : List A)
      → p u ≡ true
      → find? p xs ≡ some t
      → find? p (update_where p (λ _. u) xs) ≡ some u
  find?-update_where p u t [] e h = ground arith
  find?-update_where p u t (x ∷ xs) e h = ground (arith, find?-update_where p u t xs)
