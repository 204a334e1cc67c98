-- ===== src/Dns/Resolve/Longest.antt =====
-- The owner of a name is the cluster with the longest domain that the name lies under.
use talos_box.Base.{
  ◌≤◌, true, false, some, List, [], ◌∷◌, Bytes, leb, leb→le, length, All, ◌≡◌, ◌⊎◌, refl, ◌∙◌, ap,
  arith, Bool-cases, inl, inr,
}
use talos_box.Cluster.Node.{Cluster}
use talos_box.Dns.Resolve.{Owner, consider, owner_from, no_owner, domain_of, matches}

abbrev pub Among : Cluster → List Cluster → Type 0
Among c [] = ⊥
Among c (d ∷ ds) = (c ≡ d) ⊎ Among c ds

-- The owner that is kept, or a cluster of the list whose domain the name matches.
abbrev pub Chosen : Bytes → List Cluster → Owner → Owner → Type 0
Chosen name cs o p =
    (p ≡ o)
    ⊎ ((c : Cluster) × Among c cs
        × (p ≡ record { cluster = some c; domain = domain_of c })
        × (matches name (domain_of c) ≡ true))

consider-cases :
    (name : Bytes) (c : Cluster) (o : Owner)
    → ((consider name c o ≡ o)
        × ((matches name (domain_of c) ≡ false) ⊎ (length (domain_of c) ≤ length o.domain)))
      ⊎ ((consider name c o ≡ record { cluster = some c; domain = domain_of c })
          × (matches name (domain_of c) ≡ true)
          × (length o.domain ≤ length (domain_of c)))
unfolding consider
consider-cases name c o = elim (Bool-cases (leb (length (domain_of c)) (length o.domain))) [
  | inl e ↦ inl (rw (e) refl, inr (leb→le _ _ e))
  | inr e ↦ elim (Bool-cases (matches name (domain_of c))) [
    | inl f ↦ inr (rw (e, f) refl, f, ground arith)
    | inr f ↦ inl (rw (e, f) refl, inl f)
  ]
]

consider-grows :
    (name : Bytes) (c : Cluster) (o : Owner) → length o.domain ≤ length (consider name c o).domain
consider-grows name c o = elim (consider-cases name c o) [
  | inl (e, h) ↦ omega (arith, ap (λ p. length p.domain) e)
  | inr (e, f, h) ↦ omega (arith, h, ap (λ p. length p.domain) e)
]

owner_from-grows :
    (name : Bytes) (cs : List Cluster) (o : Owner)
    → length o.domain ≤ length (owner_from name cs o).domain
unfolding owner_from
owner_from-grows name [] o = omega arith
owner_from-grows name (c ∷ cs) o =
    omega (arith, consider-grows name c o, owner_from-grows name cs (consider name c o))

owner_from-Chosen :
    (name : Bytes) (cs : List Cluster) (o : Owner) → Chosen name cs o (owner_from name cs o)
unfolding owner_from
owner_from-Chosen name [] o = inl refl
owner_from-Chosen name (c ∷ cs) o = elim (owner_from-Chosen name cs (consider name c o)) [
  | inr (d, among, e, f) ↦ inr (d, inr among, e, f)
  | inl e ↦ elim (consider-cases name c o) [
    | inl (kept, h) ↦ inl (e ∙ kept)
    | inr (taken, f, h) ↦ inr (c, inl refl, e ∙ taken, f)
  ]
]

-- A cluster whose domain the name does not match, or whose domain is no longer than `d`.
abbrev pub NoLonger : Bytes → Bytes → Cluster → Type 0
NoLonger name d c = (matches name (domain_of c) ≡ false) ⊎ (length (domain_of c) ≤ length d)

owner_from-longest :
    (name : Bytes) (cs : List Cluster) (o : Owner)
    → All (NoLonger name (owner_from name cs o).domain) cs
unfolding owner_from
owner_from-longest name [] o = tt
owner_from-longest name (c ∷ cs) o =
    let grown = owner_from-grows name cs (consider name c o) in
    (
      elim (consider-cases name c o) [
        | inl (kept, inl f) ↦ inl f
        | inl (kept, inr h) ↦ inr (omega (arith, h, grown, ap (λ p. length p.domain) kept))
        | inr (taken, f, h) ↦ inr (omega (arith, grown, ap (λ p. length p.domain) taken))
      ],
      owner_from-longest name cs (consider name c o),
    )

-- Either no cluster is chosen, or the chosen one is in the list and the name matches its domain;
-- and no cluster whose domain the name matches has a longer domain than the chosen one.
pub owner_from-Longest :
    (name : Bytes) (cs : List Cluster)
    → Chosen name cs no_owner (owner_from name cs no_owner)
      × All (NoLonger name (owner_from name cs no_owner).domain) cs
owner_from-Longest name cs =
    (owner_from-Chosen name cs no_owner, owner_from-longest name cs no_owner)
