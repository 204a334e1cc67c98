-- ===== src/Extensions/Suggest.antt =====
-- What is suggested for an unknown extension.
use mathlib.Core.List.{Memᴰ}
use talos_box.Base.{
  none≢some, ℕ, ◌≤◌, ◌<◌, Bool, true, false, ◌&&◌, ◌==◌, Option, none, some, List, [], ◌∷◌, ◌++◌,
  Bytes, leb, ltb, length, All, ◌≡◌, ◌⊎◌, refl, arith, Bool-cases, Option-cases, inl, inr,
}
use talos_box.Text.{cut_prefix}
use talos_box.Extensions.{curated, curated_names, edit_distance, is_prefix, suggest_from, suggest}

cut_prefix-some : (s t r : Bytes) → cut_prefix s t ≡ some r → t ≡ s ++ r
unfolding cut_prefix
cut_prefix-some [] t r e = cc
cut_prefix-some (a ∷ s) [] r e = absurd cc
cut_prefix-some (a ∷ s) (b ∷ t) r e = elim (Bool-cases (a == b)) [
  | inl f ↦
      let same : a ≡ b = ground (arith, f) in
      let rest = cut_prefix-some s t r (rw (f) at e) in rw (same, rest) refl
  | inr f ↦ absurd (none≢some (rw (f) at e))
]

-- The name begins the candidate, or lies at most three edits from it.
abbrev pub Close : Bytes → Bytes → Type 0
Close name c =
    ((3 ≤ length name) × ((rest : Bytes) × (c ≡ name ++ rest))) ⊎ (edit_distance name c ≤ 3)

-- What a suggestion means: a close name, or none where all names are far.
abbrev pub Suggests : Bytes → List Bytes → Option Bytes → Type 0
Suggests name cs none = All (λ c. 3 < edit_distance name c) cs
Suggests name cs (some c) = Memᴰ c cs × Close name c

module _ (name : Bytes) (P : Bytes → Type 0) where
  -- The loop ends with a close name of those it has seen.
  abbrev Finds : Option Bytes → Type 0
  Finds o = (c : Bytes) × (o ≡ some c) × P c × Close name c

  extends :
      (c : Bytes) → (leb 3 (length name) && is_prefix (cut_prefix name c)) ≡ true → Close name c
  extends c e = elim (Option-cases (cut_prefix name c)) [
    | inl f ↦ absurd (and_nothing (leb 3 (length name)) (rw (f) at e))
    | inr (rest, f) ↦ inl (ground (arith, e), (rest, cut_prefix-some name c rest f))
  ]
    where
      and_nothing : (b : Bool) → (b && false) ≡ true → ⊥
      and_nothing b h = ground arith

  from_best :
      (cs : List Bytes) (b : Bytes) (d : ℕ)
      → edit_distance name b ≡ d
      → d ≤ 3
      → P b
      → All P cs
      → Finds (suggest_from name cs (some b) d)
  unfolding suggest_from
  from_best [] b d e h p all = (b, refl, p, inr (omega (arith, e, h)))
  from_best (c ∷ cs) b d e h p all =
      let here = edit_distance name c in
      elim (Bool-cases (leb 3 (length name) && is_prefix (cut_prefix name c))) [
        | inl f ↦ rw (f) (c, refl, all.0, extends c f)
        | inr f ↦ elim (Bool-cases (ltb here d)) [
          | inl g ↦ rw (f) (rw (g) (from_best cs c here refl (ground (arith, g, h)) all.0 all.1))
          | inr g ↦ rw (f) (rw (g) (from_best cs b d e h p all.1))
        ]
      ]

  from_nothing :
      (cs : List Bytes)
      → All P cs
      → ((suggest_from name cs none 4 ≡ none) × All (λ c. 3 < edit_distance name c) cs)
        ⊎ Finds (suggest_from name cs none 4)
  unfolding suggest_from
  from_nothing [] all = inl (refl, tt)
  from_nothing (c ∷ cs) all =
      let here = edit_distance name c in
      elim (Bool-cases (leb 3 (length name) && is_prefix (cut_prefix name c))) [
        | inl f ↦ rw (f) (inr (c, refl, all.0, extends c f))
        | inr f ↦ elim (Bool-cases (ltb here 4)) [
          | inl g ↦ rw (f) (rw (g) (inr (from_best cs c here refl (ground (arith, g)) all.0 all.1)))
          | inr g ↦ rw (f) (
              rw (g) (elim (from_nothing cs all.1) [
                | inl rest ↦ inl (rest.0, (ground (arith, g), rest.1))
                | inr found ↦ inr found
              ]))
        ]
      ]

All-mem : (xs ys : List Bytes) → ((c : Bytes) → Memᴰ c xs → Memᴰ c ys) → All (λ c. Memᴰ c ys) xs
All-mem [] ys f = tt
All-mem (x ∷ xs) ys f = (f x (Memᴰ.head refl), All-mem xs ys (λ c m. f c (Memᴰ.tail m)))

-- A suggested name is a curated one that the given name begins with at least three characters, or
-- that lies at most three edits from it, three included; where there is no suggestion, every curated name lies
-- further away.
pub suggest-Suggests : (name : Bytes) → Suggests name (curated_names curated) (suggest name)
unfolding suggest
suggest-Suggests name =
    let known = curated_names curated in
    elim (from_nothing name (λ c. Memᴰ c known) known (All-mem known known (λ c m. m))) [
      | inl none_close ↦ rw (none_close.0) none_close.1
      | inr found ↦ rw (found.1) (found.2, found.3)
    ]
