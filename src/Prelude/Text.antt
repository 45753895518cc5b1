-- ===== src/Prelude/Text.antt =====
-- Texts as lists of code points: what the program compares, trims, splits and builds.
use Prim.Native.Char.{code}
use mathlib.Core.List.{reverse}
use ajocloud_backend.Prelude.{
  ℕ, ◌+◌, ◌-◌, ◌≡◌, refl, ◌↔◌, Bool, true, false, ◌&&◌, ◌||◌, List, [], ◌∷◌, ◌++◌, String, arith,
  leb, ◌==◌, if◌then◌else◌, some_of, keep, not, Option, none, some,
}

abbrev pub Text : Type 0
Text = List ℕ

-- A literal. (`String` has its own `[]` and `∷`.)
abbrev pub codes : String → Text
codes String.[] = []
codes (String.◌∷◌ c s) = code c ∷ codes s

-- `===` on strings.
unfoldable pub text_eq : Text → Text → Bool
text_eq [] [] = true
text_eq [] (c ∷ t) = false
text_eq (b ∷ s) [] = false
text_eq (b ∷ s) (c ∷ t) = b == c && text_eq s t

pub text_eq_iff : (s t : Text) → (text_eq s t ≡ true) ↔ (s ≡ t)
unfolding text_eq
text_eq_iff [] [] = ground arith
text_eq_iff [] (c ∷ t) = ground arith
text_eq_iff (b ∷ s) [] = ground arith
text_eq_iff (b ∷ s) (c ∷ t) = ground (arith, text_eq_iff s t)

pub text_eq_refl : (s : Text) → text_eq s s ≡ true
text_eq_refl s = (text_eq_iff s s).1 refl

pub ++_cancel_left : (p s t : Text) → p ++ s ≡ p ++ t → s ≡ t
++_cancel_left [] s t h = h
++_cancel_left (c ∷ p) s t h = ++_cancel_left p s t (ground arith)

-- `\s`, which is also what `trim()` takes off: white space and line ends, the byte-order mark with
-- them.
abbrev pub is_space : ℕ → Bool
is_space c =
    (leb 9 c && leb c 13)
    || c == 32
    || c == 160
    || c == 5760
    || (leb 8192 c && leb c 8202)
    || c == 8232
    || c == 8233
    || c == 8239
    || c == 8287
    || c == 12288
    || c == 65279

abbrev pub is_digit : ℕ → Bool
is_digit c = leb 48 c && leb c 57

abbrev pub is_upper : ℕ → Bool
is_upper c = leb 65 c && leb c 90

abbrev pub is_lower : ℕ → Bool
is_lower c = leb 97 c && leb c 122

-- `toUpperCase` and `toLowerCase` of an ASCII character.
abbrev pub to_upper : ℕ → ℕ
to_upper c = if is_lower c then c - 32 else c

abbrev pub to_lower : ℕ → ℕ
to_lower c = if is_upper c then c + 32 else c

-- `string.includes(character)`.
abbrev pub has_char : Text → ℕ → Bool
has_char s c = some_of (λ d. d == c) s

abbrev drop_spaces : Text → Text
drop_spaces [] = []
drop_spaces (c ∷ s) = if is_space c then drop_spaces s else c ∷ s

-- `trim()`.
unfoldable pub trim : Text → Text
trim s = reverse (drop_spaces (reverse (drop_spaces s)))

-- `replace(/[\s-]/g, '')`.
abbrev pub is_separator : ℕ → Bool
is_separator c = is_space c || c == 45

unfoldable pub strip_separators : Text → Text
strip_separators = keep (λ c. not (is_separator c))

-- What stands before the first `c`, and after it: the first two parts of a split, where the second
-- is missing if there is no `c`.
abbrev pub before : ℕ → Text → Text
before c [] = []
before c (d ∷ s) = if d == c then [] else d ∷ before c s

abbrev pub after : ℕ → Text → Option Text
after c [] = none
after c (d ∷ s) = if d == c then some (before c s) else after c s
