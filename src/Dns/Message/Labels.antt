-- ===== src/Dns/Message/Labels.antt =====
-- A query that is encoded is parsed back.
use talos_box.Base.{
  none≢some, ℕ, zero, suc, ◌+◌, ◌≤◌, true, false, ◌||◌, some, List, [], ◌∷◌, ◌++◌, Bytes, ltb, ◌==◌,
  length, length-append, take-append, drop-append, ◌≡◌, ◌≢◌, refl, sym, ◌∙◌, ap, subst, arith,
  Bool-cases, or-false, ==_iff, Option-cases, inl, inr,
}
use mathlib.Core.List.{append_assoc}
use talos_box.Dns.Message.{split, onto_first, join, encode_labels, parse_labels, with_label}

some-inj {ℓ} : {A : Type ℓ} {x y : A} → some x ≡ some y → x ≡ y
some-inj e = cc

cons≢nil {ℓ} : {A : Type ℓ} {x : A} {xs : List A} → (x ∷ xs) ≢ []
cons≢nil e = cc

onto_first-ne-nil : (c : ℕ) (ls : List Bytes) → onto_first c ls ≢ []
onto_first-ne-nil c [] e = cc
onto_first-ne-nil c (l ∷ ls) e = cc

split-ne-nil : (s : Bytes) → split s ≢ []
unfolding split
split-ne-nil [] e = cc
split-ne-nil (c ∷ s) e = elim (Bool-cases (c == b'.')) [
  | inl f ↦ cons≢nil (rw (f) at e)
  | inr f ↦ onto_first-ne-nil c (split s) (rw (f) at e)
]

join-onto_first : (c : ℕ) (ls : List Bytes) → ls ≢ [] → join (onto_first c ls) ≡ c ∷ join ls
unfolding join
join-onto_first c [] h = absurd (h refl)
join-onto_first c (l ∷ []) h = refl
join-onto_first c (l ∷ m ∷ ls) h = refl

join-nil : (ls : List Bytes) → ls ≢ [] → join ([] ∷ ls) ≡ b'.' ∷ join ls
unfolding join
join-nil [] h = absurd (h refl)
join-nil (l ∷ ls) h = refl

cons-dot : (c : ℕ) {s t : Bytes} → (c == b'.') ≡ true → s ≡ t → b'.' ∷ s ≡ c ∷ t
cons-dot c {s} e h = ap (λ d. d ∷ s) (sym ((==_iff c b'.').0 e)) ∙ ap (λ u. c ∷ u) h

-- Splitting at dots and joining with dots gives the text back.
pub join-split : (s : Bytes) → join (split s) ≡ s
unfolding split join
join-split [] = refl
join-split (c ∷ s) = elim (Bool-cases (c == b'.')) [
  | inl e ↦ rw (e) (join-nil (split s) (split-ne-nil s) ∙ cons-dot c e (join-split s))
  | inr e ↦ rw (e) (join-onto_first c (split s) (split-ne-nil s) ∙ ap (λ t. c ∷ t) (join-split s))
]

enough : (l rest : Bytes) → ltb (length (l ++ rest)) (length l) ≡ false
enough l rest = ground (arith, length-append l rest)

-- One round of the loop, on a label and what follows it.
parse-label :
    (l rest : Bytes) (fuel offset : ℕ)
    → (length l == 0 || ltb 63 (length l)) ≡ false
    → parse_labels (suc fuel) (length l ∷ (l ++ rest)) offset
      ≡ with_label l (parse_labels fuel rest (offset + 1 + length l))
unfolding parse_labels
parse-label l rest fuel offset h =
    let (nonzero, short) = or-false {a = length l == 0} {b = ltb 63 (length l)} h in
    let whole = enough l rest in
    rw
      (
        nonzero,
        short,
        whole,
        take-append l rest {n = length l} refl,
        drop-append l rest {n = length l} refl,
      )
      refl

parse-first :
    (l : Bytes) (ls : List Bytes) (rest tail : Bytes) (fuel offset : ℕ)
    → length (length l ∷ (l ++ rest)) ≤ fuel
    → (length l == 0 || ltb 63 (length l)) ≡ false
    → ((k : ℕ)
        → length rest ≤ k
        → parse_labels k (rest ++ tail) (offset + 1 + length l)
          ≡ some (ls, offset + 1 + length l + length rest))
    → parse_labels fuel ((length l ∷ (l ++ rest)) ++ tail) offset
      ≡ some (l ∷ ls, offset + length (length l ∷ (l ++ rest)))
parse-first l ls rest tail zero offset h f next = absurd (omega (arith, h))
parse-first l ls rest tail (suc k) offset h f next =
    ap (λ s. parse_labels (suc k) (length l ∷ s) offset) (append_assoc l rest tail)
    ∙ parse-label l (rest ++ tail) k offset f
    ∙ ap (with_label l) (next k (omega (arith, h, length-append l rest)))
    ∙ ap (λ n. some (l ∷ ls, n)) (omega (arith, length-append l rest))

-- Encoded labels, with anything behind them, are read back, and the offset is behind them.
pub parse-encode :
    (ls : List Bytes) (encoded tail : Bytes) (fuel offset : ℕ)
    → encode_labels ls ≡ some encoded
    → length encoded ≤ fuel
    → parse_labels fuel (encoded ++ tail) offset ≡ some (ls, offset + length encoded)
unfolding encode_labels parse_labels
parse-encode [] encoded tail zero offset e h =
    absurd (omega (arith, subst (λ x. length x ≤ 0) (sym (some-inj e)) h))
parse-encode [] encoded tail (suc fuel) offset e h =
    subst (λ x. parse_labels (suc fuel) (x ++ tail) offset ≡ some ([], offset + length x))
      (some-inj e) refl
parse-encode (l ∷ ls) encoded tail fuel offset e h =
    elim (Bool-cases (length l == 0 || ltb 63 (length l))) [
      | inl f ↦ absurd (none≢some (rw (f) at e))
      | inr f ↦ elim (Option-cases (encode_labels ls)) [
        | inl g ↦ absurd (none≢some (rw (f, g) at e))
        | inr (rest, g) ↦
            let shape = some-inj (rw (f, g) at e) in
            subst (λ x. parse_labels fuel (x ++ tail) offset ≡ some (l ∷ ls, offset + length x))
              shape
              (parse-first l ls rest tail fuel offset (subst (λ x. length x ≤ fuel) (sym shape) h) f
                (λ k small. parse-encode ls rest tail k (offset + 1 + length l) g small))
      ]
    ]
