-- ===== src/Base/Tables.antt =====
-- Tables with a primary key, sums over their rows, and ordered queries.
use Prim.Native.Nat.{ℕ, ◌+◌}
use mathlib.Core.Path.{◌≡◌, refl}
use mathlib.Core.Bool.{Bool, true, false, ◌&&◌, ◌||◌}
use mathlib.Core.Logic.{inl, inr}
use mathlib.Core.List.{List, [], ◌∷◌}
use mathlib.Core.Option.{Option, none, some}
use native.Mathlib.Omega.{arith}
use irg_gdp.Base.Tests.{if◌then◌else◌, Bool-cases, Option-cases, not}
use irg_gdp.Base.Lists.{find?, filter, all, any}

module _ {ℓ} {A : Type ℓ} where
  -- `aggregate(Sum(...))`, with 0 for no rows
  abbrev pub sum : (A → ℕ) → List A → ℕ
  sum f [] = 0
  sum f (x ∷ xs) = f x + sum f xs

  -- `row.save()`: the row that has the key is replaced.
  abbrev pub save_row : (A → Bool) → A → List A → List A
  save_row p y [] = []
  save_row p y (x ∷ xs) = let rest = save_row p y xs in if p x then y ∷ xs else x ∷ rest

  -- `get(id=..., **conditions)`: the row that has the key, if it meets the conditions.
  abbrev pub only : (A → Bool) → Option A → Option A
  only p none = none
  only p (some x) = if p x then some x else none

  abbrev pub insert_by : (A → A → Bool) → A → List A → List A
  insert_by le x [] = x ∷ []
  insert_by le x (y ∷ ys) = let rest = insert_by le x ys in if le x y then x ∷ y ∷ ys else y ∷ rest

  -- a queryset's `order_by`
  abbrev pub order_by : (A → A → Bool) → List A → List A
  order_by le [] = []
  order_by le (x ∷ xs) = insert_by le x (order_by le xs)

  -- The one of two candidates that comes first.
  abbrev pub earlier : (A → A → Bool) → A → Option A → Option A
  earlier le x none = some x
  earlier le x (some y) = if le x y then some x else some y

  -- The least row that passes a test, found without sorting.
  abbrev pub least : (A → A → Bool) → (A → Bool) → List A → Option A
  least le p [] = none
  least le p (x ∷ xs) = let rest = least le p xs in if p x then earlier le x rest else rest

  -- No row that passes comes strictly before `x`.
  abbrev pub is_first : (A → A → Bool) → (A → Bool) → A → List A → Bool
  is_first le p x xs = all (λ y. not (p y) || le x y) xs

module _ {ℓ} {A : Type ℓ} where
  pub only-some :
      (p : A → Bool) (o : Option A) (x : A) → only p o ≡ some x → (o ≡ some x) × (p x ≡ true)
  only-some p none x h = ground arith
  only-some p (some y) x h = ground arith

  pub find?-true : (p : A → Bool) (xs : List A) (x : A) → find? p xs ≡ some x → p x ≡ true
  find?-true p [] x h = ground arith
  find?-true p (y ∷ ys) x h = ground (arith, find?-true p ys x)

  pub any-find? : (p : A → Bool) (x : A) (xs : List A) → find? p xs ≡ some x → any p xs ≡ true
  any-find? p x [] h = ground arith
  any-find? p x (y ∷ ys) h = ground (arith, any-find? p x ys)

  -- The row that was saved is found.
  pub find?-save_row :
      (p : A → Bool) (u t : A) (xs : List A)
      → p u ≡ true
      → find? p xs ≡ some t
      → find? p (save_row p u xs) ≡ some u
  find?-save_row p u t [] e h = ground arith
  find?-save_row p u t (x ∷ xs) e h = ground (arith, find?-save_row p u t xs)

  -- Of two saves of one row the second counts.
  pub save_row-twice :
      (p : A → Bool) (x y : A) (xs : List A)
      → p x ≡ true
      → save_row p y (save_row p x xs) ≡ save_row p y xs
  save_row-twice p x y [] e = refl
  save_row-twice p x y (z ∷ zs) e = elim (Bool-cases (p z)) [
    | inl f ↦ rw (f, e) refl
    | inr f ↦ rw (f, f, save_row-twice p x y zs e) refl
  ]

  pub sum-filter :
      (f : A → ℕ) (p : A → Bool) (xs : List A)
      → sum f (filter p xs) ≡ sum (λ x. if p x then f x else 0) xs
  sum-filter f p [] = refl
  sum-filter f p (x ∷ xs) = ground (arith, sum-filter f p xs)

  pub sum-save_row :
      (f : A → ℕ) (p : A → Bool) (u t : A) (xs : List A)
      → find? p xs ≡ some t
      → sum f (save_row p u xs) + f t ≡ sum f xs + f u
  sum-save_row f p u t [] h = ground arith
  sum-save_row f p u t (x ∷ xs) h = ground (arith, sum-save_row f p u t xs)

  pub all-save_row :
      (p q : A → Bool) (y : A) (xs : List A)
      → all p xs ≡ true
      → p y ≡ true
      → all p (save_row q y xs) ≡ true
  all-save_row p q y [] h e = refl
  all-save_row p q y (x ∷ xs) h e = ground (arith, all-save_row p q y xs)

-- An order of rows: total and transitive.
pub record IsOrder {ℓ} {A : Type ℓ} (le : A → A → Bool) : Type ℓ where
  pub total : (x y : A) → le x y ≡ false → le y x ≡ true
  pub trans : (x y z : A) → le x y ≡ true → le y z ≡ true → le x z ≡ true

module _ {ℓ} {A : Type ℓ} (le : A → A → Bool) (o : IsOrder le) where
  -- Every row comes after those before it.
  abbrev is_sorted : List A → Bool
  is_sorted [] = true
  is_sorted (x ∷ xs) = all (le x) xs && is_sorted xs

  all-weaken : (x y : A) (xs : List A) → le x y ≡ true → all (le y) xs ≡ true → all (le x) xs ≡ true
  all-weaken x y [] e h = refl
  all-weaken x y (z ∷ zs) e h = ground (arith, all-weaken x y zs, o.trans x y z)

  all-insert_by :
      (p : A → Bool) (x : A) (xs : List A)
      → p x ≡ true
      → all p xs ≡ true
      → all p (insert_by le x xs) ≡ true
  all-insert_by p x [] e h = ground arith
  all-insert_by p x (y ∷ ys) e h = ground (arith, all-insert_by p x ys)

  is_sorted-insert_by :
      (x : A) (xs : List A) → is_sorted xs ≡ true → is_sorted (insert_by le x xs) ≡ true
  is_sorted-insert_by x [] h = refl
  is_sorted-insert_by x (y ∷ ys) h =
      ground
        (arith, is_sorted-insert_by x ys, all-weaken x y ys, all-insert_by (le y) x ys, o.total x y)

  is_sorted-order_by : (xs : List A) → is_sorted (order_by le xs) ≡ true
  is_sorted-order_by [] = refl
  is_sorted-order_by (x ∷ xs) = is_sorted-insert_by x (order_by le xs) (is_sorted-order_by xs)

  all-found :
      (p q : A → Bool) (x : A) (xs : List A) → all p xs ≡ true → find? q xs ≡ some x → p x ≡ true
  all-found p q x [] h e = ground arith
  all-found p q x (y ∷ ys) h e = ground (arith, all-found p q x ys)

  find?-insert_by_out :
      (p : A → Bool) (x : A) (xs : List A) → p x ≡ false → find? p (insert_by le x xs) ≡ find? p xs
  find?-insert_by_out p x [] e = ground arith
  find?-insert_by_out p x (y ∷ ys) e = ground (arith, find?-insert_by_out p x ys e)

  find?-insert_by :
      (p : A → Bool) (x : A) (xs : List A)
      → p x ≡ true
      → is_sorted xs ≡ true
      → find? p (insert_by le x xs) ≡ earlier le x (find? p xs)
  find?-insert_by p x [] e h = ground arith
  find?-insert_by p x (y ∷ ys) e h = elim (Option-cases (find? p ys)) [
    | inl f ↦ ground (arith, find?-insert_by p x ys e)
    | inr (z, f) ↦ ground (arith, find?-insert_by p x ys e, all-found (le y) p z ys, o.trans x y z)
  ]

  -- The first row of the ordered query that passes is the least of those that pass.
  pub find?-order_by : (p : A → Bool) (xs : List A) → find? p (order_by le xs) ≡ least le p xs
  find?-order_by p [] = refl
  find?-order_by p (x ∷ xs) = elim (Bool-cases (p x)) [
    | inl e ↦
        rw (e, find?-insert_by p x (order_by le xs) e (is_sorted-order_by xs), find?-order_by p xs)
    | inr e ↦ rw (e, find?-insert_by_out p x (order_by le xs) e, find?-order_by p xs)
  ]

  is_first-weaken :
      (p : A → Bool) (x y : A) (xs : List A)
      → le x y ≡ true
      → is_first le p y xs ≡ true
      → is_first le p x xs ≡ true
  is_first-weaken p x y [] e h = refl
  is_first-weaken p x y (z ∷ zs) e h = ground (arith, is_first-weaken p x y zs, o.trans x y z)

  least-none :
      (p : A → Bool) (x : A) (xs : List A) → least le p xs ≡ none → is_first le p x xs ≡ true
  least-none p x [] h = refl
  least-none p x (y ∷ ys) h = elim (Option-cases (least le p ys)) [
    | inl f ↦ ground (arith, least-none p x ys)
    | inr (z, f) ↦ ground arith
  ]

  pub least_first :
      (p : A → Bool) (x : A) (xs : List A)
      → least le p xs ≡ some x
      → (p x ≡ true) × (is_first le p x xs ≡ true)
  least_first p x [] h = ground arith
  least_first p x (y ∷ ys) h = elim (Option-cases (least le p ys)) [
    | inl f ↦ ground (arith, least-none p x ys f, o.total x x)
    | inr (z, f) ↦ ground (
      arith,
      least_first p z ys f,
      is_first-weaken p y z ys,
      o.total y z,
      o.total y y,
      o.total z z,
    )
  ]

module _ {ℓ} {A : Type ℓ} where
  pub any-least-none :
      (le : A → A → Bool) (p : A → Bool) (xs : List A) → least le p xs ≡ none → any p xs ≡ false
  any-least-none le p [] h = refl
  any-least-none le p (x ∷ xs) h = elim (Option-cases (least le p xs)) [
    | inl f ↦ ground (arith, any-least-none le p xs)
    | inr (z, f) ↦ ground arith
  ]

  pub least-filter :
      (le : A → A → Bool) (p q : A → Bool) (xs : List A)
      → least le p (filter q xs) ≡ least le (λ x. q x && p x) xs
  least-filter le p q [] = refl
  least-filter le p q (x ∷ xs) = elim (Bool-cases (q x)) [
    | inl e ↦ rw (e, least-filter le p q xs) refl
    | inr e ↦ rw (e, least-filter le p q xs) refl
  ]
