-- ===== src/Base/Keys.antt =====
-- Tables in which no two rows have one key.
use Prim.Native.Nat.{ℕ}
use mathlib.Core.Path.{◌≡◌, refl}
use mathlib.Core.Bool.{Bool, true, false, ◌&&◌}
use mathlib.Core.Logic.{◌≢◌, ◌⊎◌, inl, inr}
use mathlib.Core.List.{List, [], ◌∷◌}
use mathlib.Core.Option.{some}
use native.Mathlib.Omega.{arith}
use irg_gdp.Base.Tests.{◌==◌, not, Bool-cases, Option-cases, ==_refl, &&-true}
use irg_gdp.Base.Lists.{find?, any, all}
use irg_gdp.Base.Tables.{find?-true, save_row, least}

module _ {ℓ} {A : Type ℓ} (key : A → ℕ) where
  -- `filter(pk=k)`
  abbrev pub has_key_of : ℕ → A → Bool
  has_key_of k x = key x == k

  abbrev pub is_unique : List A → Bool
  is_unique [] = true
  is_unique (x ∷ xs) = not (any (has_key_of (key x)) xs) && is_unique xs

  any-save_row :
      (k j : ℕ) (u : A) (xs : List A)
      → key u ≡ j
      → any (has_key_of k) (save_row (has_key_of j) u xs) ≡ any (has_key_of k) xs
  any-save_row k j u [] e = refl
  any-save_row k j u (x ∷ xs) e = ground (arith, any-save_row k j u xs e)

  pub is_unique-save_row :
      (j : ℕ) (u : A) (xs : List A)
      → key u ≡ j
      → is_unique xs ≡ true
      → is_unique (save_row (has_key_of j) u xs) ≡ true
  is_unique-save_row j u [] e h = refl
  is_unique-save_row j u (x ∷ xs) e h =
      ground (arith, is_unique-save_row j u xs e, any-save_row (key x) j u xs e)

  -- A row that a query yields has its key for itself.
  any-least :
      (le : A → A → Bool) (p q : A → Bool) (m : A) (xs : List A)
      → least le p xs ≡ some m
      → any q xs ≡ false
      → q m ≡ false
  any-least le p q m [] h e = ground arith
  any-least le p q m (x ∷ xs) h e = elim (Option-cases (least le p xs)) [
    | inl f ↦ ground arith
    | inr (z, f) ↦ ground (arith, any-least le p q z xs f)
  ]

  find?-head : (x m : A) (xs : List A) → x ≡ m → find? (has_key_of (key m)) (x ∷ xs) ≡ some m
  find?-head x m xs e = rw (← e, ==_refl (key x)) refl

  least-cases :
      (le : A → A → Bool) (p : A → Bool) (x m : A) (xs : List A)
      → least le p (x ∷ xs) ≡ some m
      → (x ≡ m) ⊎ (least le p xs ≡ some m)
  least-cases le p x m xs h = elim (Option-cases (least le p xs)) [
    | inl f ↦ ground arith
    | inr (z, f) ↦ ground arith
  ]

  differ : (a b : ℕ) → (b == a) ≡ false → (a == b) ≡ false
  differ a b h = ground arith

  pub find?-least :
      (le : A → A → Bool) (p : A → Bool) (m : A) (xs : List A)
      → is_unique xs ≡ true
      → least le p xs ≡ some m
      → find? (has_key_of (key m)) xs ≡ some m
  find?-least le p m [] u h = ground arith
  find?-least le p m (x ∷ xs) u h = elim (least-cases le p x m xs h) [
    | inl e ↦ find?-head x m xs e
    | inr f ↦
        let (a, b) = &&-true (not (any (has_key_of (key x)) xs)) (is_unique xs) u in
        let d = any-least le p (has_key_of (key x)) m xs f (ground arith) in
        rw (differ (key x) (key m) d) (find?-least le p m xs b f)
  ]

  -- A save leaves the rows of the other keys.
  pub find?-save_other :
      (k j : ℕ) (u : A) (xs : List A)
      → key u ≡ j
      → j ≢ k
      → find? (has_key_of k) (save_row (has_key_of j) u xs) ≡ find? (has_key_of k) xs
  find?-save_other k j u [] e n = refl
  find?-save_other k j u (x ∷ xs) e n = ground (arith, find?-save_other k j u xs e n)

  all-others :
      (p q : A → Bool) (j : ℕ) (xs : List A)
      → ((x : A) → (key x == j) ≡ false → p x ≡ true → q x ≡ true)
      → any (has_key_of j) xs ≡ false
      → all p xs ≡ true
      → all q xs ≡ true
  all-others p q j [] f a b = refl
  all-others p q j (x ∷ xs) f a b = ground (arith, all-others p q j xs f, f x)

  key_clash :
      (x : A) (j : ℕ) (xs : List A)
      → (key x == j) ≡ true
      → any (has_key_of (key x)) xs ≡ false
      → any (has_key_of j) xs ≡ false
  key_clash x j xs e h = let k : key x ≡ j = ground (arith, e) in rw (← k) h

  -- A save changes what holds of one row, and of the others what does not depend on it.
  pub all-save_unique :
      (p q : A → Bool) (j : ℕ) (u : A) (xs : List A)
      → is_unique xs ≡ true
      → ((x : A) → (key x == j) ≡ false → p x ≡ true → q x ≡ true)
      → q u ≡ true
      → any (has_key_of j) xs ≡ true
      → all p xs ≡ true
      → all q (save_row (has_key_of j) u xs) ≡ true
  all-save_unique p q j u [] h f e a b = ground arith
  all-save_unique p q j u (x ∷ xs) h f e a b = elim (Bool-cases (key x == j)) [
    | inl k ↦ ground (arith, k, e, key_clash x j xs k, all-others p q j xs f)
    | inr k ↦ ground (arith, k, f x, all-save_unique p q j u xs, f)
  ]

  key_at :
      (j k : ℕ) (x : A) (xs : List A)
      → j ≡ k
      → find? (has_key_of k) xs ≡ some x
      → find? (has_key_of j) xs ≡ some x
  key_at j k x xs e h = rw e h

  pub find?-own :
      (k : ℕ) (x : A) (xs : List A)
      → find? (has_key_of k) xs ≡ some x
      → (find? (has_key_of (key x)) xs ≡ some x) × (key x ≡ k)
  find?-own k x xs h =
      let t = find?-true (has_key_of k) xs x h in
      let e : key x ≡ k = ground arith in (key_at (key x) k x xs e h, e)
