-- ===== src/Prelude/Table.antt =====
-- A database table with a unique text key, as a function from the key.
use ajocloud_backend.Prelude.{
  ℕ, ◌≤◌, ◌≡◌, ◌≢◌, refl, ap, ◌∙◌, arith, Bool, true, Option, some, false, [], ◌∷◌, ◌++◌, ◌+◌, ◌&&◌,
  ◌==◌, not, leb, length, every, All, if◌then◌else◌, Bool-cases, inl, inr,
}
use ajocloud_backend.Prelude.Text.{Text, text_eq, text_eq_iff, text_eq_refl}

abbrev pub Table : Type 0 → Type 0
Table Row = Text → Option Row

-- An insert, an update and an upsert all put a row under its key.
unfoldable pub put : {Row : Type 0} → Text → Row → Table Row → Table Row
put key row table k = if text_eq k key then some row else table k

pub put_self :
    {Row : Type 0} (key : Text) (row : Row) (table : Table Row) → put key row table key ≡ some row
unfolding put
put_self key row table = rw (text_eq_refl key)

-- Writing what is stored changes nothing.
pub put_same :
    {Row : Type 0} (key : Text) (row : Row) (table : Table Row)
    → table key ≡ some row
    → (k : Text) → table k ≡ put key row table k
unfolding put
put_same key row table found k = elim (Bool-cases (text_eq k key)) [
  | inl same ↦ rw same (ap table ((text_eq_iff k key).0 same) ∙ found)
  | inr other ↦ rw other
]

pub text_eq_ne : (s t : Text) → s ≢ t → text_eq s t ≡ false
text_eq_ne s t h = elim (Bool-cases (text_eq s t)) [
  | inl same ↦ absurd (h ((text_eq_iff s t).0 same))
  | inr other ↦ other
]

pub put_other :
    {Row : Type 0} (key k : Text) (row : Row) (table : Table Row)
    → k ≢ key
    → put key row table k ≡ table k
unfolding put
put_other key k row table h = rw (text_eq_ne k key h)

pub ne_of_text_eq : (s t : Text) → text_eq s t ≡ false → s ≢ t
ne_of_text_eq s t h same = let both = (text_eq_iff s t).1 same in cc

-- `@db.VarChar(width)`: at most so many characters, and none of them null.
abbrev pub is_character : ℕ → Bool
is_character c = not (c == 0)

abbrev pub is_varchar : ℕ → Text → Bool
is_varchar width t = leb (length t) width && every is_character t

-- The same as a statement.
pub record IsVarchar (width : ℕ) (t : Text) : Type 0 where
  pub within : length t ≤ width
  pub characters : All (λ c. c ≢ 0) t

pub &&-true : (b c : Bool) → b && c ≡ true → (b ≡ true) × (c ≡ true)
&&-true true c h = (refl, h)
&&-true false c h = cc

characters_sound : (t : Text) → every is_character t ≡ true → All (λ c. c ≢ 0) t
characters_sound [] h = tt
characters_sound (c ∷ t) h =
    let (first, rest) = &&-true (is_character c) (every is_character t) h in
    ((λ null. ground arith), characters_sound t rest)

characters_complete : (t : Text) → All (λ c. c ≢ 0) t → every is_character t ≡ true
characters_complete [] h = refl
characters_complete (c ∷ t) h =
    let first : is_character c ≡ true = ground (arith, h.0) in rw first (characters_complete t h.1)

pub is_varchar_sound : (width : ℕ) (t : Text) → is_varchar width t ≡ true → IsVarchar width t
is_varchar_sound width t h =
    let (short, plain) = &&-true (leb (length t) width) (every is_character t) h in
    record { within = ground arith; characters = characters_sound t plain }

pub is_varchar_complete : (width : ℕ) (t : Text) → IsVarchar width t → is_varchar width t ≡ true
is_varchar_complete width t v =
    let short : leb (length t) width ≡ true = ground (arith, v.within) in
    rw short (characters_complete t v.characters)

characters-append :
    (s t : Text) → every is_character s ≡ true → All (λ c. c ≢ 0) t → All (λ c. c ≢ 0) (s ++ t)
characters-append [] t h k = k
characters-append (c ∷ s) t h k =
    let (first, rest) = &&-true (is_character c) (every is_character s) h in
    ((λ null. ground arith), characters-append s t rest k)

length-append : (s t : Text) → length (s ++ t) ≡ length s + length t
length-append [] t = omega arith
length-append (c ∷ s) t = omega (arith, length-append s t)

-- A fixed prefix takes its length from the width.
pub IsVarchar-prefix :
    (width : ℕ) (prefix t : Text)
    → every is_character prefix ≡ true
    → IsVarchar width t
    → IsVarchar (length prefix + width) (prefix ++ t)
IsVarchar-prefix width prefix t plain v = record {
  within = omega (arith, v.within, length-append prefix t);
  characters = characters-append prefix t plain v.characters;
}
