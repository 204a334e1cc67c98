-- ===== src/Domain/Canonical.antt =====
-- What `Validate` returns is canonical.
use mathlib.Core.Option.{some_inj}
use talos_box.Base.{
  and-both, ℕ, Bool, true, false, some, List, [], ◌∷◌, Bytes, ◌==◌, guard-some, ◌≡◌, ◌≢◌, refl, sym,
  ◌∙◌, ap, arith, Bool-cases, inl, inr,
}
use talos_box.Text.{to_lower, lower_byte}
use talos_box.Dns.Message.{trim_dot, split}
use talos_box.Domain.{valid_label, valid_labels, last_label, acceptable, validate_domain}

lower_byte_twice : (c : ℕ) → lower_byte (lower_byte c) ≡ lower_byte c
lower_byte_twice c = ground arith

to_lower_twice : (s : Bytes) → to_lower (to_lower s) ≡ to_lower s
unfolding to_lower
to_lower_twice [] = refl
to_lower_twice (c ∷ s) = rw (lower_byte_twice c, to_lower_twice s) refl

abbrev ends_in_dot : Bytes → Bool
ends_in_dot [] = false
ends_in_dot (c ∷ []) = c == b'.'
ends_in_dot (c ∷ d ∷ s) = ends_in_dot (d ∷ s)

trim_dot_none : (s : Bytes) → ends_in_dot s ≡ false → trim_dot s ≡ s
unfolding trim_dot
trim_dot_none [] e = refl
trim_dot_none (c ∷ []) e = rw (e) refl
trim_dot_none (c ∷ d ∷ s) e = ap (λ t. c ∷ t) (trim_dot_none (d ∷ s) e)

-- A name that ends in a dot has an empty last label.
split-ends_in_dot :
    (s : Bytes)
    → ends_in_dot s ≡ true
    → (l : Bytes) × (m : Bytes) × (ls : List Bytes) × (split s ≡ l ∷ m ∷ ls)
      × (last_label (m ∷ ls) ≡ [])
unfolding split
split-ends_in_dot [] e = absurd cc
split-ends_in_dot (c ∷ []) e = ([], [], [], rw (e) refl, refl)
split-ends_in_dot (c ∷ d ∷ s) e =
    let (l, m, ls, f, last) = split-ends_in_dot (d ∷ s) e in
    elim (Bool-cases (c == b'.')) [
      | inl g ↦ ([], l, m ∷ ls, rw (g) (ap (λ k. [] ∷ k) f), last)
      | inr g ↦ (c ∷ l, m, ls, rw (g) (rw (f) refl), last)
    ]

valid-last : (m : Bytes) (ls : List Bytes) → valid_labels (m ∷ ls) ≡ true → last_label (m ∷ ls) ≢ []
unfolding valid_labels valid_label
valid-last [] [] e h = ground (arith, e)
valid-last (c ∷ m) [] e h = absurd cc
valid-last m (k ∷ ls) e h = valid-last k ls (and-both _ _ e).1 h

acceptable-valid_labels :
    (name : Bytes) (allow : Bool) → acceptable name allow ≡ true → valid_labels (split name) ≡ true
unfolding acceptable
acceptable-valid_labels name allow e = (and-both _ _ (and-both _ _ (and-both _ _ e).1).1).0

acceptable-no_dot :
    (name : Bytes) (allow : Bool) → acceptable name allow ≡ true → ends_in_dot name ≡ false
unfolding valid_labels
acceptable-no_dot name allow e = elim (Bool-cases (ends_in_dot name)) [
  | inr f ↦ f
  | inl f ↦
      let (l, m, ls, g, last) = split-ends_in_dot name f in
      let valid : valid_labels (l ∷ m ∷ ls) ≡ true =
        ap valid_labels (sym g) ∙ acceptable-valid_labels name allow e in
      absurd (valid-last m ls (and-both _ _ valid).1 last)
]

-- A domain that Validate returns is one that it accepts and returns as it is.
pub validate_domain_twice :
    (input name : Bytes) (allow : Bool)
    → validate_domain input allow ≡ some name
    → validate_domain name allow ≡ some name
unfolding validate_domain
validate_domain_twice input name allow e =
    let lowered = to_lower (trim_dot input) in
    let (ok, h) = guard-some (acceptable lowered allow) (some lowered) name e in
    let same : lowered ≡ name = some_inj.0 h in
    let fine : acceptable name allow ≡ true = ap (λ n. acceptable n allow) (sym same) ∙ ok in
    let again : to_lower (trim_dot name) ≡ name =
      ap to_lower (trim_dot_none name (acceptable-no_dot name allow fine))
      ∙ ap to_lower (sym same)
      ∙ to_lower_twice (trim_dot input)
      ∙ same in
    rw (again, fine) refl
