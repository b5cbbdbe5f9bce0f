-- ===== src/Base/Cover.antt =====
-- Updates that reach every row of a selection.
use Prim.Native.Nat.{ℕ, zero, suc, ◌≤◌}
use mathlib.Core.Path.{◌≡◌, refl, ap}
use mathlib.Core.Bool.{Bool, true, false, ◌||◌}
use mathlib.Core.Logic.{inl, inr}
use mathlib.Core.List.{List, [], ◌∷◌, map}
use native.Mathlib.Omega.{arith}
use irg_gdp.Base.Tests.{not, Bool-cases}
use irg_gdp.Base.Lists.{length, take, any, all, filter, update_where}
use irg_gdp.Base.Tables.{insert_by, order_by}

module _ {ℓ} {A : Type ℓ} where
  pub take-all : (n : ℕ) (xs : List A) → length xs ≤ n → take n xs ≡ xs
  take-all zero [] h = refl
  take-all zero (x ∷ xs) h = absurd (omega arith)
  take-all (suc n) [] h = refl
  take-all (suc n) (x ∷ xs) h = ap (λ ys. x ∷ ys) (take-all n xs (omega arith))

  length-insert_by :
      (le : A → A → Bool) (x : A) (xs : List A) → length (insert_by le x xs) ≡ suc (length xs)
  length-insert_by le x [] = refl
  length-insert_by le x (y ∷ ys) = ground (arith, length-insert_by le x ys)

  pub length-order_by : (le : A → A → Bool) (xs : List A) → length (order_by le xs) ≡ length xs
  length-order_by le [] = refl
  length-order_by le (x ∷ xs) =
      ground (arith, length-order_by le xs, length-insert_by le x (order_by le xs))

  any-insert_by :
      (le : A → A → Bool) (p : A → Bool) (x : A) (xs : List A)
      → any p (insert_by le x xs) ≡ (p x || any p xs)
  any-insert_by le p x [] = refl
  any-insert_by le p x (y ∷ ys) = ground (arith, any-insert_by le p x ys)

  pub any-order_by :
      (le : A → A → Bool) (p : A → Bool) (xs : List A) → any p (order_by le xs) ≡ any p xs
  any-order_by le p [] = refl
  any-order_by le p (x ∷ xs) =
      ground (arith, any-order_by le p xs, any-insert_by le p x (order_by le xs))

  -- The test `p` implies `q` on the rows.
  abbrev pub is_covered : (A → Bool) → (A → Bool) → List A → Bool
  is_covered p q xs = all (λ x. not (p x) || q x) xs

  is_covered-weaken :
      (p q r : A → Bool) (xs : List A)
      → ((x : A) → q x ≡ true → r x ≡ true)
      → is_covered p q xs ≡ true
      → is_covered p r xs ≡ true
  is_covered-weaken p q r [] f h = refl
  is_covered-weaken p q r (x ∷ xs) f h = ground (arith, is_covered-weaken p q r xs f, f x)

  -- Every row that is selected is related to one of the selection.
  pub covered_by_filter :
      (p : A → Bool) (r : A → A → Bool) (xs : List A)
      → ((x : A) → r x x ≡ true)
      → is_covered p (λ x. any (r x) (filter p xs)) xs ≡ true
  covered_by_filter p r [] f = refl
  covered_by_filter p r (x ∷ xs) f =
      let h =
        is_covered-weaken p (λ y. any (r y) (filter p xs)) (λ y. any (r y) (filter p (x ∷ xs))) xs
          (λ y h. ground arith) (covered_by_filter p r xs f) in
      elim (Bool-cases (p x)) [ inl e ↦ (ground (arith, f x, h)) | inr e ↦ (ground (arith, h)) ]

  -- An update of rows that cover the selection, and that takes them out of it, leaves none selected.
  pub filter-update_covered :
      (p q : A → Bool) (f : A → A) (xs : List A)
      → ((x : A) → p (f x) ≡ false)
      → is_covered p q xs ≡ true
      → filter p (update_where q f xs) ≡ []
  filter-update_covered p q f [] out h = refl
  filter-update_covered p q f (x ∷ xs) out h =
      ground (arith, filter-update_covered p q f xs out, out x)

  pub is_covered-eq :
      (p q r : A → Bool) (xs : List A)
      → ((x : A) → q x ≡ r x)
      → is_covered p q xs ≡ true
      → is_covered p r xs ≡ true
  is_covered-eq p q r xs e = is_covered-weaken p q r xs (λ x h. ground (arith, e x))

pub any-map {ℓ κ} :
    {A : Type ℓ} {B : Type κ} (f : A → B) (p : B → Bool) (xs : List A)
    → any p (map f xs) ≡ any (λ x. p (f x)) xs
any-map f p [] = refl
any-map f p (x ∷ xs) = ground (arith, any-map f p xs)
