-- ===== src/Bgp/Reconciled.antt =====
-- What `Reconcile` leaves in the injected set.
use mathlib.Core.Bool.{false≢true, true≢false}
use talos_box.Base.{
  Bool, true, false, Option, none, some, List, [], ◌∷◌, Bytes, ◌≡◌, ◌≢◌, ◌⊎◌, refl, sym, ◌∙◌, ap,
  subst, Bool-cases, Option-cases, inl, inr, All, arith,
}
use talos_box.Text.{same, same_iff, contains}
use talos_box.Text.Sets.{same_refl, same-ne, Distinct}
use talos_box.Bgp.{
  Route, lookup, remove, assign, want_from, is_some, holds, Fib, State, withdrawn, added, install,
  install_all,
}

pub lookup-remove_self : (rs : List Route) (p : Bytes) → lookup (remove rs p) p ≡ none
unfolding lookup remove
lookup-remove_self [] p = refl
lookup-remove_self (r ∷ rs) p = elim (Bool-cases (same r.prefix p)) [
  | inl e ↦ rw (e) (lookup-remove_self rs p)
  | inr e ↦ rw (e) (rw (e) (lookup-remove_self rs p))
]

pub lookup-remove_ne :
    (rs : List Route) (p q : Bytes) → same p q ≡ false → lookup (remove rs p) q ≡ lookup rs q
unfolding lookup remove
lookup-remove_ne [] p q h = refl
lookup-remove_ne (r ∷ rs) p q h = elim (Bool-cases (same r.prefix p)) [
  | inl e ↦
      let other = subst (λ s. same s q ≡ false) (sym ((same_iff r.prefix p).0 e)) h in
      rw (e, other, remove, lookup) (lookup-remove_ne rs p q h)
  | inr e ↦ elim (Bool-cases (same r.prefix q)) [
    | inl f ↦ rw (e, f, remove, lookup) refl
    | inr f ↦ rw (e, f, remove, lookup) (lookup-remove_ne rs p q h)
  ]
]

pub lookup-assign_ne :
    (rs : List Route) (r : Route) (q : Bytes)
    → same r.prefix q ≡ false
    → lookup (assign rs r) q ≡ lookup rs q
unfolding lookup
lookup-assign_ne rs r q h = rw (h) (lookup-remove_ne rs r.prefix q h)

pub lookup-assign_self :
    (rs : List Route) (r : Route) → lookup (assign rs r) r.prefix ≡ some r.nexthop
unfolding lookup
lookup-assign_self rs r = rw (same_refl r.prefix) refl

abbrev pub prefixes : List Route → List Bytes
prefixes [] = []
prefixes (r ∷ rs) = r.prefix ∷ prefixes rs

prefixes-remove :
    (P : Bytes → Type 0) (rs : List Route) (p : Bytes)
    → All P (prefixes rs)
    → All P (prefixes (remove rs p))
unfolding remove
prefixes-remove P [] p all = tt
prefixes-remove P (r ∷ rs) p (h, all) = elim (Bool-cases (same r.prefix p)) [
  | inl e ↦ rw (e) (prefixes-remove P rs p all)
  | inr e ↦ rw (e) (h, prefixes-remove P rs p all)
]

Distinct-remove :
    (rs : List Route) (p : Bytes) → Distinct (prefixes rs) → Distinct (prefixes (remove rs p))
unfolding remove
Distinct-remove [] p d = tt
Distinct-remove (r ∷ rs) p (h, d) = elim (Bool-cases (same r.prefix p)) [
  | inl e ↦ rw (e) (Distinct-remove rs p d)
  | inr e ↦ rw (e) (prefixes-remove (λ t. t ≢ r.prefix) rs p h, Distinct-remove rs p d)
]

removed-absent : (rs : List Route) (p : Bytes) → All (λ t. t ≢ p) (prefixes (remove rs p))
unfolding remove
removed-absent [] p = tt
removed-absent (r ∷ rs) p = elim (Bool-cases (same r.prefix p)) [
  | inl e ↦ rw (e) (removed-absent rs p)
  | inr e ↦ rw (e) ((λ f. true≢false (sym ((same_iff r.prefix p).1 f) ∙ e)), removed-absent rs p)
]

pub want-Distinct :
    (desired want : List Route)
    → Distinct (prefixes want)
    → Distinct (prefixes (want_from desired want))
unfolding want_from
want-Distinct [] want d = d
want-Distinct (r ∷ rs) want d =
    want-Distinct rs (assign want r) (removed-absent want r.prefix, Distinct-remove want r.prefix d)

pub lookup-absent :
    (rs : List Route) (p : Bytes) → All (λ t. t ≢ p) (prefixes rs) → lookup rs p ≡ none
unfolding lookup
lookup-absent [] p all = refl
lookup-absent (r ∷ rs) p (h, all) = rw (same-ne r.prefix p h) (lookup-absent rs p all)

holds-some : (o : Option Bytes) (n : Bytes) → holds o n ≡ true → o ≡ some n
holds-some none n e = absurd (false≢true e)
holds-some (some m) n e = ap some ((same_iff m n).0 e)

-- What the delete of an old route and the answer of the FIB make of the injected set.
module _ {F : Type 0} (fib : Fib F) where
  withdrawn-ne :
      (s : State fib) (p q : Bytes)
      → same p q ≡ false
      → lookup (withdrawn fib s p).injected q ≡ lookup s.injected q
  unfolding withdrawn
  withdrawn-ne s p q h = elim (Bool-cases (is_some (lookup s.injected p))) [
    | inl e ↦ rw (e) (lookup-remove_ne s.injected p q h)
    | inr e ↦ rw (e) refl
  ]

  withdrawn_self : (s : State fib) (p : Bytes) → lookup (withdrawn fib s p).injected p ≡ none
  unfolding withdrawn
  withdrawn_self s p = elim (Option-cases (lookup s.injected p)) [
    | inl e ↦ rw (e) e
    | inr (n, e) ↦ rw (e) (lookup-remove_self s.injected p)
  ]

  added-ne :
      (s : State fib) (r : Route) (answer : F × Bool) (q : Bytes)
      → same r.prefix q ≡ false
      → lookup (added fib s r answer).injected q ≡ lookup s.injected q
  added-ne s r (table, true) q h = lookup-assign_ne s.injected r q h
  added-ne s r (table, false) q h = refl

  -- The prefix has the next hop that is desired, or its add has failed and the prefix is absent.
  abbrev pub Settled : Route → State fib → Type 0
  Settled r s =
      (lookup s.injected r.prefix ≡ some r.nexthop)
      ⊎ ((contains s.failed r.prefix ≡ true) × (lookup s.injected r.prefix ≡ none))

  added-Settled :
      (s : State fib) (r : Route) (answer : F × Bool)
      → lookup s.injected r.prefix ≡ none
      → Settled r (added fib s r answer)
  unfolding contains
  added-Settled s r (table, true) h = inl (lookup-assign_self s.injected r)
  added-Settled s r (table, false) h = inr (rw (same_refl r.prefix) refl, h)

  install-ne :
      (s : State fib) (r : Route) (q : Bytes)
      → same r.prefix q ≡ false
      → lookup (install fib s r).injected q ≡ lookup s.injected q
  unfolding install
  install-ne s r q h = elim (Bool-cases (holds (lookup s.injected r.prefix) r.nexthop)) [
    | inl e ↦ rw (e) refl
    | inr e ↦ rw (e) (added-ne (withdrawn fib s r.prefix) r _ q h ∙ withdrawn-ne s r.prefix q h)
  ]

  pub install-Settled : (s : State fib) (r : Route) → Settled r (install fib s r)
  unfolding install
  install-Settled s r = elim (Bool-cases (holds (lookup s.injected r.prefix) r.nexthop)) [
    | inl e ↦ rw (e) (inl (holds-some (lookup s.injected r.prefix) r.nexthop e))
    | inr e ↦ rw (e) (added-Settled (withdrawn fib s r.prefix) r _ (withdrawn_self s r.prefix))
  ]

  added-failed :
      (s : State fib) (r : Route) (answer : F × Bool) (q : Bytes)
      → contains s.failed q ≡ true
      → contains (added fib s r answer).failed q ≡ true
  unfolding contains
  added-failed s r (table, true) q h = h
  added-failed s r (table, false) q h = ground arith

  withdrawn-failed : (s : State fib) (p : Bytes) → (withdrawn fib s p).failed ≡ s.failed
  unfolding withdrawn
  withdrawn-failed s p = elim (Bool-cases (is_some (lookup s.injected p))) [
    | inl e ↦ rw (e) refl
    | inr e ↦ rw (e) refl
  ]

  install-failed :
      (s : State fib) (r : Route) (q : Bytes)
      → contains s.failed q ≡ true
      → contains (install fib s r).failed q ≡ true
  unfolding install
  install-failed s r q h = elim (Bool-cases (holds (lookup s.injected r.prefix) r.nexthop)) [
    | inl e ↦ rw (e) h
    | inr e ↦ rw (e) (
        added-failed (withdrawn fib s r.prefix) r _ q
          (ap (λ k. contains k q) (withdrawn-failed s r.prefix) ∙ h))
  ]

  pub install_all-failed :
      (s : State fib) (rs : List Route) (q : Bytes)
      → contains s.failed q ≡ true
      → contains (install_all fib s rs).failed q ≡ true
  unfolding install_all
  install_all-failed s [] q h = h
  install_all-failed s (r ∷ rs) q h =
      install_all-failed (install fib s r) rs q (install-failed s r q h)

  -- A prefix that no route is for keeps its entry.
  pub install_all-ne :
      (s : State fib) (rs : List Route) (q : Bytes)
      → All (λ t. t ≢ q) (prefixes rs)
      → lookup (install_all fib s rs).injected q ≡ lookup s.injected q
  unfolding install_all
  install_all-ne s [] q h = refl
  install_all-ne s (r ∷ rs) q (h, hs) =
      install_all-ne (install fib s r) rs q hs ∙ install-ne s r q (same-ne r.prefix q h)
