-- ===== src/Chain/Licence/Padding.antt =====
-- The padding of `_b64url_decode`.
use Prim.Native.Nat.{◌%◌}
use irg_gdp.Base.{ℕ, ◌+◌, ◌-◌, ◌<◌, ◌≡◌, refl, [], ◌∷◌, ◌++◌, arith, length, zero, suc}
use irg_gdp.Base.Text.{Text}
use irg_gdp.Chain.Licence.{padded, equal_signs}

length-equal_signs : (n : ℕ) → length (equal_signs n) ≡ n
length-equal_signs zero = refl
length-equal_signs (suc n) = ground (arith, length-equal_signs n)

length-padding : (s : Text) (n : ℕ) → length (s ++ equal_signs n) ≡ length s + n
length-padding [] n = ground (arith, length-equal_signs n)
length-padding (x ∷ s) n = ground (arith, length-padding s n)

-- The padded text is the text with at most three more characters, and its length is a multiple of 4.
pub length-padded : (s : Text) → (length (padded s) % 4 ≡ 0) × (length (padded s) < length s + 4)
unfolding padded
length-padded s =
    let e = length-padding s ((4 - length s % 4) % 4) in rw e (omega arith, omega arith)
