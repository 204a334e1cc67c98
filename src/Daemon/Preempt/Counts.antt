-- ===== src/Daemon/Preempt/Counts.antt =====
-- The counts of queued operations in the handover table.
use mathlib.Core.Option.{some_inj}
use talos_box.Base.{
  ℕ, zero, suc, ◌+◌, ◌-◌, true, false, not, ◌&&◌, Option, none, some, List, [], ◌∷◌, Bytes,
  if◌then◌else◌, subst, get_elem?, set, update, update_self, update_ne, ◌≡◌, ◌≢◌, refl, sym, ◌∙◌,
  ap, arith, Bool-cases, inl, inr,
}
use talos_box.Text.{same, Bytes-discrete}
use talos_box.Text.Sets.{same_refl, same-ne}
use talos_box.Daemon.Preempt.{cluster_key}
use talos_box.Daemon.Preempt.Steps.{
  Request, Registration, System, Event, step, run, blank, released_once, removed_once, fire,
}

-- 1 for a request on the key that is not released.
abbrev pub counted_as : Bytes → Request → ℕ
counted_as key r = if not r.released && same r.key key then 1 else 0

-- How many requests on the key are not released.
unfoldable pub outstanding : Bytes → List Request → ℕ
outstanding key [] = 0
outstanding key (r ∷ rs) = counted_as key r + outstanding key rs

outstanding-set :
    (key : Bytes) (rs : List Request) (i : ℕ) (r : Request)
    → get_elem? rs i ≡ some r
    → r.released ≡ false
    → outstanding key (set rs i (record { key = r.key; released = true })) + counted_as key r
      ≡ outstanding key rs
unfolding outstanding
outstanding-set key [] i r e h = absurd (cc)
outstanding-set key (x ∷ xs) zero r e h =
    ap (λ q. 0 + outstanding key xs + counted_as key q) (sym (some_inj.0 e)) ∙ omega arith
outstanding-set key (x ∷ xs) (suc i) r e h = omega (arith, outstanding-set key xs i r e h)

counted_as_self : (r : Request) → r.released ≡ false → counted_as r.key r ≡ 1
counted_as_self r h = rw (h, same_refl r.key) refl

counted_as_other : (key : Bytes) (r : Request) → r.key ≢ key → counted_as key r ≡ 0
counted_as_other key r h = elim (Bool-cases r.released) [
  | inl e ↦ rw (e) refl
  | inr e ↦ rw (e, same-ne r.key key h) refl
]

-- The count of one key is changed, and those of the others are right as they are.
recount :
    (m : Bytes → ℕ) (k : Bytes) (v : ℕ) (rs : List Request)
    → v ≡ outstanding k rs
    → ((key : Bytes) → k ≢ key → m key ≡ outstanding key rs)
    → (key : Bytes) → update Bytes-discrete m k v key ≡ outstanding key rs
recount m k v rs h g key = elim (Bytes-discrete k key) [
  | yes e ↦
      subst (λ j. update Bytes-discrete m k v j ≡ outstanding j rs) e
        (update_self Bytes-discrete m k v ∙ h)
  | no n ↦ update_ne Bytes-discrete m k key v n ∙ g key n
]

module _ {I : Type 0} where
  abbrev pub Counted : System I → Type 0
  Counted s = (key : Bytes) → s.table.pending key ≡ outstanding key s.requests

  Counted-released_once :
      (s : System I) (i : ℕ) (o : Option Request)
      → get_elem? s.requests i ≡ o
      → Counted s
      → Counted (released_once s i o)
  Counted-released_once s i none e c = c
  Counted-released_once s i (some r) e c = elim (Bool-cases r.released) [
    | inl h ↦ rw (h) c
    | inr h ↦ rw (h) (
        let r' : Request = record { key = r.key; released = true } in
        recount s.table.pending r.key (s.table.pending r.key - 1) (set s.requests i r')
          (omega (arith, c r.key, counted_as_self r h, outstanding-set r.key s.requests i r e h))
          (λ key n.
            omega (arith, c key, counted_as_other key r n, outstanding-set key s.requests i r e h)))
  ]

  Counted-removed_once :
      (s : System I) (i : ℕ) (o : Option (Registration I))
      → Counted s
      → Counted (removed_once s i o)
  Counted-removed_once s i none c = c
  Counted-removed_once s i (some r) c = elim (Bool-cases r.removed) [
    | inl h ↦ rw (h) c
    | inr h ↦ rw (h) c
  ]

  Counted-fire : (s : System I) (i : ℕ) (o : Option I) → Counted s → Counted (fire s i o)
  Counted-fire s i none c = c
  Counted-fire s i (some x) c = c

  pub Counted-step : (s : System I) (e : Event I) → Counted s → Counted (step s e)
  unfolding outstanding
  Counted-step s (Event.request name) c =
      let k = cluster_key name in
      let r : Request = record { key = k; released = false } in
      recount s.table.pending k (s.table.pending k + 1) (r ∷ s.requests)
        (omega (arith, c k, counted_as_self r refl))
        (λ key n. omega (arith, c key, counted_as_other key r n))
  Counted-step s (Event.register name interrupt) c = c
  Counted-step s (Event.run_release i) c = Counted-released_once s i _ refl c
  Counted-step s (Event.run_remove i) c = Counted-removed_once s i _ c
  Counted-step s (Event.run_interrupt i) c = Counted-fire s i _ c

  Counted-run : (s : System I) (es : List (Event I)) → Counted s → Counted (run s es)
  unfolding run
  Counted-run s [] c = c
  Counted-run s (e ∷ es) c = Counted-run (step s e) es (Counted-step s e c)

  -- After any calls of the table's functions in any order, the count of a cluster is the number of
  -- requests for it whose release has not run.
  pub pending-run :
      (es : List (Event I)) (key : Bytes)
      → (run blank es).table.pending key ≡ outstanding key (run blank es).requests
  unfolding outstanding
  pending-run es = Counted-run blank es (λ key. refl)
