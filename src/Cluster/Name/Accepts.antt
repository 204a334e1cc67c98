-- ===== src/Cluster/Name/Accepts.antt =====
-- Exactly which names `validName` accepts.
use talos_box.Base.{
  true, false, [], ◌∷◌, Bytes, ◌≡◌, ◌≢◌, ◌⊎◌, ◌↔◌, inl, inr, refl, arith, Bool-cases, ap, sym,
}
use talos_box.Text.{same_iff}
use talos_box.Cluster.Name.{is_empty, strip_slashes, has_slash, last_element, base, valid_name}

has_slash-last_element : (s : Bytes) → has_slash (last_element s) ≡ false
unfolding last_element
has_slash-last_element [] = refl
has_slash-last_element (c ∷ s) = ground (arith, has_slash-last_element s)

strip_slashes_none : (s : Bytes) → has_slash s ≡ false → strip_slashes s ≡ s
unfolding has_slash strip_slashes
strip_slashes_none [] h = refl
strip_slashes_none (c ∷ s) h = ground (arith, strip_slashes_none s)

last_element_none : (s : Bytes) → has_slash s ≡ false → last_element s ≡ s
unfolding last_element
last_element_none [] h = refl
last_element_none (c ∷ s) h = ground arith

base_none : (s : Bytes) → s ≢ [] → has_slash s ≡ false → base s ≡ s
unfolding base
base_none [] ne h = absurd (ne refl)
base_none (c ∷ s) ne h = ground (arith, strip_slashes_none (c ∷ s) h, last_element_none (c ∷ s) h)

-- A path with a slash is its own base only if it is the root.
base_slash : (s : Bytes) → has_slash s ≡ true → base s ≡ s → s ≡ b'/' ∷ []
unfolding base
base_slash [] h e = cc
base_slash (c ∷ s) h e =
    let t = strip_slashes (c ∷ s) in
    elim (Bool-cases (is_empty (last_element t))) [
      | inl empty ↦ sym (rw empty at e)
      | inr full ↦ cc (has_slash-last_element t, ap has_slash (rw full at e))
    ]

-- The tests of `validName`, without what `filepath.Base` means.
valid_name_parts :
    (s : Bytes)
    → (valid_name s ≡ true) ↔ ((s ≢ []) × (s ≢ b'.' ∷ []) × (s ≢ b'.' ∷ b'.' ∷ []) × (base s ≡ s))
unfolding valid_name
valid_name_parts [] = (λ h. cc, λ h. absurd (h.0 refl))
valid_name_parts (c ∷ s) =
    let dot = same_iff (c ∷ s) (b'.' ∷ []) in
    let dots = same_iff (c ∷ s) (b'.' ∷ b'.' ∷ []) in
    let fixed = same_iff (base (c ∷ s)) (c ∷ s) in
    (
      λ h. (cc, ground (arith, dot), ground (arith, dots), ground (arith, fixed)),
      λ h. ground (arith, dot, dots, fixed),
    )

base_root : base (b'/' ∷ []) ≡ b'/' ∷ []
unfolding base
base_root = refl

-- A name is accepted exactly if it is not empty, not `.` and not `..`, and has no slash; but the
-- single slash is accepted too.
pub valid_name_iff :
    (s : Bytes)
    → (valid_name s ≡ true) ↔ (
        (s ≢ [])
        × (s ≢ b'.' ∷ [])
        × (s ≢ b'.' ∷ b'.' ∷ [])
        × ((has_slash s ≡ false) ⊎ (s ≡ b'/' ∷ [])))
valid_name_iff s = (to, from)
  where
    to :
        valid_name s ≡ true
        → (s ≢ [])
          × (s ≢ b'.' ∷ [])
          × (s ≢ b'.' ∷ b'.' ∷ [])
          × ((has_slash s ≡ false) ⊎ (s ≡ b'/' ∷ []))
    to h =
        let (ne, dot, dots, fixed) = (valid_name_parts s).0 h in
        (
          ne,
          dot,
          dots,
          elim (Bool-cases (has_slash s)) [ inl e ↦ inr (base_slash s e fixed) | inr e ↦ inl e ],
        )

    from :
        (s ≢ [])
          × (s ≢ b'.' ∷ [])
          × (s ≢ b'.' ∷ b'.' ∷ [])
          × ((has_slash s ≡ false) ⊎ (s ≡ b'/' ∷ []))
        → valid_name s ≡ true
    from h =
        (valid_name_parts s).1
          (h.0, h.1, h.2, elim h.3 [ inl e ↦ base_none s h.0 e | inr e ↦ rw e base_root ])
