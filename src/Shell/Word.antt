-- ===== src/Shell/Word.antt =====
-- How a POSIX shell reads one word, and that it reads a quoted value as that value.
use talos_box.Base.{
  ℕ, Bool, true, false, ◌||◌, Option, none, some, [], ◌∷◌, ◌++◌, Bytes, ◌==◌, if◌then◌else◌, ◌≡◌,
  ◌≢◌, leb, refl, sym, ◌∙◌, ap, arith, Bool-cases, inl, inr, ==_iff,
}
use mathlib.Core.Bool.{false≢true}
use talos_box.Shell.{is_safe, all_safe, escape, quote, contains_byte}

pub data Mode : Type 0 where
  plain single double : Mode

abbrev prepend : ℕ → Option Bytes → Option Bytes
prepend c none = none
prepend c (some s) = some (c ∷ s)

-- A dollar sign, a backquote or a backslash.
abbrev is_special : ℕ → Bool
is_special c = c == 36 || (c == 96 || c == 92)

-- The characters that POSIX (Shell Command Language, 2.2) says an argument must quote, or must quote
-- where they would be a pattern, a comment or a tilde, besides the quotes themselves: blanks and
-- controls, | & ; < > ( ) $ ` \ * ? [ ] # ~ and the ! { } ^ of common shells.
unfoldable pub is_meta : ℕ → Bool
unfolding contains_byte
is_meta c =
    leb c 32
    || contains_byte
        (124 ∷ 38 ∷ 59 ∷ 60 ∷ 62 ∷ 40 ∷ 41 ∷ 36 ∷ 96 ∷ 92 ∷ 42 ∷ 63 ∷ 91 ∷ 93 ∷ 35 ∷ 126 ∷ 33 ∷ 123
          ∷ 125 ∷ 94 ∷ [])
        c

-- The value of a word: none where a quote is open at its end, or a character has a meaning to the
-- shell. Outside quotes the characters stand for themselves that are not in the list of POSIX,
-- between single quotes all characters, between double quotes all but the special ones.
unfoldable pub read_word : Mode → Bytes → Option Bytes
read_word plain [] = some []
read_word single [] = none
read_word double [] = none
read_word plain (c ∷ s) =
    let single_quoted = read_word single s in
    let double_quoted = read_word double s in
    let next = prepend c (read_word plain s) in
    if c == 39
    then single_quoted
    else if c == 34
    then double_quoted
    else if is_meta c
    then none
    else next
read_word single (c ∷ s) =
    let closed = read_word plain s in
    let next = prepend c (read_word single s) in if c == 39 then closed else next
read_word double (c ∷ s) =
    let closed = read_word plain s in
    let next = prepend c (read_word double s) in
    if c == 34 then closed else if is_special c then none else next

safe-plain : (c : ℕ) → is_safe c ≡ true → ((c == 39) ≡ false) × ((c == 34) ≡ false)
unfolding is_safe contains_byte
safe-plain c h = ground arith

safe-meta : (c : ℕ) → is_safe c ≡ true → is_meta c ≡ false
unfolding is_safe is_meta contains_byte
safe-meta c h = ground arith

read_word-safe : (s : Bytes) → all_safe s ≡ true → read_word plain s ≡ some s
unfolding read_word all_safe
read_word-safe [] h = refl
read_word-safe (c ∷ s) h = elim (Bool-cases (is_safe c)) [
  | inr e ↦ absurd (false≢true (rw (e) at h))
  | inl e ↦
      let (not_single, not_double) = safe-plain c e in
      rw (not_single, not_double, safe-meta c e, read_word-safe s (rw (e) at h)) refl
]

read_word-escape : (s : Bytes) → read_word single (escape s ++ (39 ∷ [])) ≡ some s
unfolding read_word escape
read_word-escape [] = refl
read_word-escape (c ∷ s) = elim (Bool-cases (c == 39)) [
  | inl e ↦
      rw (e)
        (ap (prepend 39) (read_word-escape s) ∙ ap (λ d. some (d ∷ s)) (sym ((==_iff c 39).0 e)))
  | inr e ↦ rw (e) (rw (e) (ap (prepend c) (read_word-escape s)))
]

empty : read_word plain (39 ∷ 39 ∷ []) ≡ some []
unfolding read_word
empty = refl

opened : (s : Bytes) → read_word plain (39 ∷ s) ≡ read_word single s
unfolding read_word
opened s = refl

-- A POSIX shell reads what `Quote` returns as one word whose value is the argument: what is
-- returned is not empty, and no character of it that is not quoted has a meaning to the shell.
pub read_word-quote : (s : Bytes) → (read_word plain (quote s) ≡ some s) × (quote s ≢ [])
unfolding quote
read_word-quote [] = (empty, λ e. cc)
read_word-quote (c ∷ s) = elim (Bool-cases (all_safe (c ∷ s))) [
  | inl e ↦ rw (e) (read_word-safe (c ∷ s) e, λ f. cc)
  | inr e ↦ rw (e) (opened (escape (c ∷ s) ++ (39 ∷ [])) ∙ read_word-escape (c ∷ s), λ f. cc)
]
