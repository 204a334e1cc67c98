-- ===== src/Resolverset/Untouched.antt =====
-- The plan leaves the files alone that are not marked.
use mathlib.Core.List.{Memᴰ}
use talos_box.Base.{
  not-true, ℕ, true, false, not, ◌&&◌, none, some, List, [], ◌∷◌, Bytes, All, ◌≡◌, ◌⊎◌, refl,
  Bool-cases, Option-cases, and-both, inl, inr,
}
use talos_box.Text.{contains}
use talos_box.Balloon.{before}
use talos_box.Extensions.{insert_string, sort_strings}
use talos_box.Resolverset.{
  File, content_for, managed, content_of, to_write, to_create, to_remove, plan,
}

module _ (P : Bytes → Type 0) where
  All-insert_string : (s : Bytes) (ts : List Bytes) → P s → All P ts → All P (insert_string s ts)
  unfolding insert_string
  All-insert_string s [] p all = (p, tt)
  All-insert_string s (t ∷ ts) p all = elim (Bool-cases (before t s)) [
    | inl e ↦ rw (e) (all.0, All-insert_string s ts p all.1)
    | inr e ↦ rw (e) (p, all)
  ]

  All-sort_strings : (ss : List Bytes) → All P ss → All P (sort_strings ss)
  unfolding sort_strings
  All-sort_strings [] all = tt
  All-sort_strings (s ∷ ss) all =
      All-insert_string s (sort_strings ss) all.0 (All-sort_strings ss all.1)

-- A file that may be written: it is not there, or it is marked.
abbrev pub MayWrite : List File → Bytes → Type 0
MayWrite observed d =
    (content_of observed d ≡ none)
    ⊎ ((content : Bytes) × (content_of observed d ≡ some content) × (managed content ≡ true))

-- A file that may be removed: no domain wants it, and it is there and marked.
abbrev pub MayRemove : List Bytes → List File → Bytes → Type 0
MayRemove wanted observed name =
    (contains wanted name ≡ false)
    × ((f : File) × Memᴰ f observed × (f.name ≡ name) × (managed f.content ≡ true))

to_write-MayWrite :
    (want : Bytes) (observed : List File) (d : Bytes)
    → to_write want (content_of observed d) ≡ true
    → MayWrite observed d
to_write-MayWrite want observed d e = elim (Option-cases (content_of observed d)) [
  | inl f ↦ inl f
  | inr (content, f) ↦ inr (content, f, (and-both _ _ (rw (f) at e)).0)
]

to_create-MayWrite :
    (want : Bytes) (observed : List File) (ds : List Bytes)
    → All (MayWrite observed) (to_create want observed ds)
unfolding to_create
to_create-MayWrite want observed [] = tt
to_create-MayWrite want observed (d ∷ ds) =
    elim (Bool-cases (to_write want (content_of observed d))) [
      | inl e ↦ rw (e) (to_write-MayWrite want observed d e, to_create-MayWrite want observed ds)
      | inr e ↦ rw (e) (to_create-MayWrite want observed ds)
    ]

to_remove-MayRemove :
    (wanted : List Bytes) (observed fs : List File)
    → ((f : File) → Memᴰ f fs → Memᴰ f observed)
    → All (MayRemove wanted observed) (to_remove wanted fs)
unfolding to_remove
to_remove-MayRemove wanted observed [] h = tt
to_remove-MayRemove wanted observed (f ∷ fs) h =
    let rest = to_remove-MayRemove wanted observed fs (λ g m. h g (Memᴰ.tail m)) in
    elim (Bool-cases (not (contains wanted f.name) && managed f.content)) [
      | inl e ↦
          let (unwanted, marked) = and-both _ _ e in
          rw (e) ((not-true _ unwanted, (f, h f (Memᴰ.head refl), refl, marked)), rest)
      | inr e ↦ rw (e) rest
    ]

-- Every file that Plan creates or rewrites is not there or is marked as managed, and every file
-- that it removes is there, is marked and belongs to no wanted domain.
pub plan-untouched :
    (custom_domains : List Bytes) (observed : List File) (port : ℕ)
    → All (MayWrite observed) (plan custom_domains observed port).0
      × All (MayRemove custom_domains observed) (plan custom_domains observed port).1
unfolding plan
plan-untouched custom_domains observed port = (
  All-sort_strings (MayWrite observed) (to_create (content_for port) observed custom_domains)
      (to_create-MayWrite (content_for port) observed custom_domains),
  All-sort_strings (MayRemove custom_domains observed) (to_remove custom_domains observed)
      (to_remove-MayRemove custom_domains observed observed (λ f m. m)),
)
