-- ===== src/Bgp/Settles.antt =====
-- The outcome of `Reconcile`, for every order of the map entries and every answer of the FIB.
use mathlib.Core.Bool.{true≢false}
use talos_box.Base.{
  true, none, some, List, [], ◌∷◌, Bytes, ◌≡◌, ◌≢◌, ◌⊎◌, refl, sym, ◌∙◌, ap, subst, Bool-cases,
  Option-cases, inl, inr, All,
}
use talos_box.Text.{same, same_iff, contains}
use talos_box.Text.Sets.{same-ne, Distinct}
use talos_box.Bgp.{
  Route, lookup, remove, want_from, is_some, Fib, State, install, install_all, prune, reconcile,
  withdraw_route,
}
use talos_box.Bgp.Reconciled.{
  prefixes, lookup-remove_self, lookup-remove_ne, install_all-failed, install_all-ne,
  install-Settled, want-Distinct,
}

some-inj : {x y : Bytes} → some x ≡ some y → x ≡ y
some-inj e = cc

some≢none : {x : Bytes} → some x ≢ none
some≢none e = cc

-- A prefix without an entry is the prefix of no entry.
absent-lookup : (rs : List Route) (q : Bytes) → lookup rs q ≡ none → All (λ t. t ≢ q) (prefixes rs)
unfolding lookup
absent-lookup [] q h = tt
absent-lookup (r ∷ rs) q h = elim (Bool-cases (same r.prefix q)) [
  | inl e ↦ absurd (some≢none (rw (e) at h))
  | inr e ↦
      (λ f. true≢false (sym ((same_iff r.prefix q).1 f) ∙ e), absent-lookup rs q (rw (e) at h))
]

module _ {F : Type 0} (fib : Fib F) where
  install_all-some :
      (s : State fib) (rs : List Route) (q n : Bytes)
      → Distinct (prefixes rs)
      → lookup rs q ≡ some n
      → (lookup (install_all fib s rs).injected q ≡ some n)
        ⊎ ((contains (install_all fib s rs).failed q ≡ true)
            × (lookup (install_all fib s rs).injected q ≡ none))
  unfolding install_all lookup
  install_all-some s [] q n d h = absurd (some≢none (sym h))
  install_all-some s (r ∷ rs) q n (fresh, d) h = elim (Bool-cases (same r.prefix q)) [
    | inr e ↦ install_all-some (install fib s r) rs q n d (rw (e) at h)
    | inl e ↦
        let t = install fib s r in
        let at_prefix = (same_iff r.prefix q).0 e in
        let kept = install_all-ne fib t rs r.prefix fresh in
        let wanted = some-inj (rw (e) at h) in
        subst
          (λ p.
            (lookup (install_all fib t rs).injected p ≡ some n)
            ⊎ ((contains (install_all fib t rs).failed p ≡ true)
                × (lookup (install_all fib t rs).injected p ≡ none)))
          at_prefix
          (elim (install-Settled fib s r) [
            | inl settled ↦ inl (kept ∙ settled ∙ ap some wanted)
            | inr (failed, gone) ↦ inr (install_all-failed fib t rs r.prefix failed, kept ∙ gone)
          ])
  ]

  prune-failed : (s : State fib) (want rs : List Route) → (prune fib s want rs).failed ≡ s.failed
  unfolding prune
  prune-failed s want [] = refl
  prune-failed s want (r ∷ rs) = elim (Bool-cases (is_some (lookup want r.prefix))) [
    | inl e ↦ rw (e) (prune-failed s want rs)
    | inr e ↦ rw (e) (prune-failed (withdraw_route fib s r.prefix) want rs)
  ]

  prune-wanted :
      (s : State fib) (want rs : List Route) (q : Bytes)
      → is_some (lookup want q) ≡ true
      → lookup (prune fib s want rs).injected q ≡ lookup s.injected q
  unfolding prune
  prune-wanted s want [] q h = refl
  prune-wanted s want (r ∷ rs) q h = elim (Bool-cases (is_some (lookup want r.prefix))) [
    | inl e ↦ rw (e) (prune-wanted s want rs q h)
    | inr e ↦
        let other =
          same-ne r.prefix q
            (λ f. true≢false (sym h ∙ sym (ap (λ p. is_some (lookup want p)) f) ∙ e)) in
        rw (e) (
          prune-wanted (withdraw_route fib s r.prefix) want rs q h
          ∙ lookup-remove_ne s.injected r.prefix q other)
  ]

  lookup-remove-none :
      (rs : List Route) (p q : Bytes) → lookup rs q ≡ none → lookup (remove rs p) q ≡ none
  lookup-remove-none rs p q h = elim (Bool-cases (same p q)) [
    | inl e ↦
        subst (λ t. lookup (remove rs p) t ≡ none) ((same_iff p q).0 e) (lookup-remove_self rs p)
    | inr e ↦ lookup-remove_ne rs p q e ∙ h
  ]

  prune-none :
      (s : State fib) (want rs : List Route) (q : Bytes)
      → lookup s.injected q ≡ none
      → lookup (prune fib s want rs).injected q ≡ none
  unfolding prune
  prune-none s want [] q h = h
  prune-none s want (r ∷ rs) q h = elim (Bool-cases (is_some (lookup want r.prefix))) [
    | inl e ↦ rw (e) (prune-none s want rs q h)
    | inr e ↦ rw (e) (
        prune-none (withdraw_route fib s r.prefix) want rs q
          (lookup-remove-none s.injected r.prefix q h))
  ]

  -- An entry that the second loop walks is deleted where nothing wants its prefix.
  prune-unwanted :
      (s : State fib) (want rs : List Route) (q : Bytes)
      → lookup want q ≡ none
      → (lookup rs q ≡ none → lookup s.injected q ≡ none)
      → lookup (prune fib s want rs).injected q ≡ none
  unfolding prune lookup
  prune-unwanted s want [] q h walk = walk refl
  prune-unwanted s want (r ∷ rs) q h walk = elim (Bool-cases (same r.prefix q)) [
    | inl e ↦
        let at_prefix = (same_iff r.prefix q).0 e in
        let unwanted = ap is_some (ap (lookup want) at_prefix ∙ h) in
        rw (unwanted) (
          prune-none (withdraw_route fib s r.prefix) want rs q (
            subst (λ t. lookup (remove s.injected r.prefix) t ≡ none) at_prefix
              (lookup-remove_self s.injected r.prefix)))
    | inr e ↦ elim (Bool-cases (is_some (lookup want r.prefix))) [
      | inl f ↦ rw (f) (prune-unwanted s want rs q h (λ g. walk (rw (e) g)))
      | inr f ↦ rw (f) (
          prune-unwanted (withdraw_route fib s r.prefix) want rs q h
            (λ g. lookup-remove-none s.injected r.prefix q (walk (rw (e) g))))
    ]
  ]

  -- The injected set has the routes that are wanted, but for prefixes whose add has failed.
  pub reconcile_injected :
      (s : State fib) (desired : List Route) (q : Bytes)
      → (lookup (reconcile fib s desired).injected q ≡ lookup (want_from desired []) q)
        ⊎ ((contains (reconcile fib s desired).failed q ≡ true)
            × (lookup (reconcile fib s desired).injected q ≡ none))
  unfolding reconcile
  reconcile_injected s desired q =
      let want = want_from desired [] in
      let t = install_all fib (record s { failed = [] }) want in
      elim (Option-cases (lookup want q)) [
        | inl e ↦ inl (prune-unwanted t want t.injected q e (λ g. g) ∙ sym e)
        | inr (n, e) ↦
            let kept = prune-wanted t want t.injected q (ap is_some e) in
            elim (install_all-some (record s { failed = [] }) want q n (want-Distinct desired [] tt)
              e) [
                | inl settled ↦ inl (kept ∙ settled ∙ sym e)
                | inr (failed, gone) ↦
                    inr (
                      ap (λ k. contains k q) (prune-failed t want t.injected) ∙ failed,
                      kept ∙ gone,
                    )
              ]
      ]
