-- ===== src/Text/Sets.antt =====
-- Sets of strings kept as lists: membership, and lists without a repetition.
use talos_box.Base.{
  true, false, List, [], ◌∷◌, ◌++◌, ◌≡◌, ◌≢◌, ◌↔◌, sym, ◌∙◌, refl, Bytes, All, All-append,
  Bool-cases, inl, inr,
}
use talos_box.Text.{same, same_iff, contains}
use mathlib.Core.Bool.{true≢false}

pub same_refl : (s : Bytes) → same s s ≡ true
same_refl s = (same_iff s s).1 refl

pub same-ne : (s t : Bytes) → s ≢ t → same s t ≡ false
same-ne s t h = elim (Bool-cases (same s t)) [ inl e ↦ absurd (h ((same_iff s t).0 e)) | inr e ↦ e ]

pub not-contains : (ts : List Bytes) (s : Bytes) → (contains ts s ≡ false) ↔ All (λ t. t ≢ s) ts
unfolding contains
not-contains [] s = (λ h. tt, λ h. refl)
not-contains (t ∷ ts) s = (
  λ h. elim (Bool-cases (same t s)) [
    | inl e ↦ absurd (true≢false (rw e at h))
    | inr e ↦ (λ p. true≢false (sym ((same_iff t s).1 p) ∙ e), (not-contains ts s).0 (rw e at h))
  ],
  λ h. rw (same-ne t s h.0) ((not-contains ts s).1 h.1),
)

-- No string occurs twice.
abbrev pub Distinct : List Bytes → Type 0
Distinct [] = Unit
Distinct (s ∷ ss) = All (λ t. t ≢ s) ss × Distinct ss

pub Distinct-snoc :
    (ss : List Bytes) (s : Bytes) → Distinct ss → All (λ t. t ≢ s) ss → Distinct (ss ++ (s ∷ []))
Distinct-snoc [] s d h = (tt, tt)
Distinct-snoc (t ∷ ts) s d h =
    (All-append (λ u. u ≢ t) ts (s ∷ []) d.0 ((λ e. h.0 (sym e)), tt), Distinct-snoc ts s d.1 h.1)
