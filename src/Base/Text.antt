-- ===== src/Base/Text.antt =====
-- Python's `str` as its list of code points, with the methods that the program calls.
use Prim.Native.Nat.{ℕ}
use Prim.Native.Char.{code}
use Prim.Native.String.{String}
use mathlib.Core.Path.{◌≡◌, refl}
use mathlib.Core.Bool.{Bool, true, false, ◌&&◌, ◌||◌}
use mathlib.Core.List.{List, [], ◌∷◌, ◌++◌, reverse}
use native.Mathlib.Omega.{arith}
use irg_gdp.Base.Tests.{leb, ◌==◌, if◌then◌else◌, ==_refl}

abbrev pub Text : Type 0
Text = List ℕ

abbrev pub text_eq : Text → Text → Bool
text_eq [] [] = true
text_eq [] (d ∷ t) = false
text_eq (c ∷ s) [] = false
text_eq (c ∷ s) (d ∷ t) = c == d && text_eq s t

-- A text of the source, as its code points.
abbrev pub codes : String → Text
codes String.[] = []
codes (String.◌∷◌ c s) = code c ∷ codes s

-- `[A-Za-z]`
abbrev pub is_alpha : ℕ → Bool
is_alpha c = (leb b'A' c && leb c b'Z') || (leb b'a' c && leb c b'z')

module _ (is_space : ℕ → Bool) where
  abbrev pub drop_spaces : Text → Text
  drop_spaces [] = []
  drop_spaces (c ∷ s) = let rest = drop_spaces s in if is_space c then rest else c ∷ s

  -- `s.strip()`
  abbrev pub strip : Text → Text
  strip s = reverse (drop_spaces (reverse (drop_spaces s)))

  abbrev pub push_word : Text → List Text → List Text
  push_word [] ws = ws
  push_word (c ∷ w) ws = reverse (c ∷ w) ∷ ws

  -- `s.split()`; `w` is the word being read, its last letter first
  abbrev pub split_from : Text → Text → List Text
  split_from w [] = push_word w []
  split_from w (c ∷ s) =
      let ended = push_word w (split_from [] s) in
      let longer = split_from (c ∷ w) s in if is_space c then ended else longer

  abbrev pub split : Text → List Text
  split = split_from []

-- `' '.join(ws)`
abbrev pub join_spaces : List Text → Text
join_spaces [] = []
join_spaces (w ∷ []) = w
join_spaces (w ∷ v ∷ ws) = w ++ (b' ' ∷ join_spaces (v ∷ ws))

pub text_eq_refl : (s : Text) → text_eq s s ≡ true
text_eq_refl [] = refl
text_eq_refl (c ∷ s) = ground (arith, text_eq_refl s, ==_refl c)

pub text_eq_sound : (s t : Text) → text_eq s t ≡ true → s ≡ t
text_eq_sound [] [] h = refl
text_eq_sound [] (d ∷ t) h = ground arith
text_eq_sound (c ∷ s) [] h = ground arith
text_eq_sound (c ∷ s) (d ∷ t) h = ground (arith, text_eq_sound s t)
