-- ===== src/Daemon/Reboot/Stale.antt =====
-- Samples that come too late.
use talos_box.Base.{
  ℕ, ◌+◌, ◌^◌, ◌<◌, ◌≤◌, Bool, true, false, not, ◌||◌, Option, none, some, List, [], ◌∷◌, Bytes,
  ltb, ◌==◌, length, update_self, update_ne, ◌≡◌, ◌⊎◌, refl, sym, ◌∙◌, ap, subst, arith, Bool-cases,
  inl, inr,
}
use mathlib.Core.Option.{some_inj}
use native.Mathlib.Nat.{mod-eq_of_lt}
use talos_box.Text.{Bytes-discrete}
use talos_box.Daemon.Reboot.{
  RebootProbe, RebootState, RebootLog, ignored, or_zero, begun, begin_observe, take_sample,
  complete_at, complete_observe, forgotten, forget, has_prefix, forget_prefix, forget_all, store,
  Event, step, run,
}

-- A later state of a node: forgotten since, or with no older sample.
abbrev Later : RebootState → RebootState → Type 0
Later s t =
    (s.generation < t.generation)
    ⊎ ((s.generation ≡ t.generation) × (s.applied_seq ≤ t.applied_seq))

-- The state of a key in a log, later than `s`, with at most one more generation.
record Follows (s : RebootState) (l : RebootLog) (key : Bytes) : Type 0 where
  state : RebootState
  there : l key ≡ some state
  later : Later s state
  near : state.generation ≤ s.generation + 1

Follows-same :
    (s t : RebootState) (l : RebootLog) (key : Bytes)
    → l key ≡ some t
    → t.generation ≡ s.generation
    → s.applied_seq ≤ t.applied_seq
    → Follows s l key
Follows-same s t l key e g a = record {
  state = t;
  there = e;
  later = inr (sym g, a);
  near = omega (arith, g);
}

Follows-forgotten :
    (s : RebootState) (l : RebootLog) (key : Bytes)
    → s.generation + 1 < 2 ^ 64
    → l key ≡ some (forgotten s)
    → Follows s l key
Follows-forgotten s l key h e =
    let next = mod-eq_of_lt h in
    record {
      state = forgotten s;
      there = e;
      later = inl (omega (arith, next));
      near = omega (arith, next);
    }

-- An entry that is stored, for its key and for the others.
Follows-store :
    (s t : RebootState) (l : RebootLog) (k key : Bytes)
    → l key ≡ some s
    → (k ≡ key → (t.generation ≡ s.generation) × (s.applied_seq ≤ t.applied_seq))
    → Follows s (store l k t) key
Follows-store s t l k key e h = elim (Bytes-discrete k key) [
  | yes j ↦
      Follows-same s t (store l k t) key
        (subst (λ i. store l k t i ≡ some t) j (update_self Bytes-discrete l k (some t))) (h j).0
        (h j).1
  | no n ↦
      Follows-same s s (store l k t) key (update_ne Bytes-discrete l k key (some t) n ∙ e) refl
        (omega arith)
]

take_sample-kept :
    (s : RebootState) (seq boot_time now : ℕ)
    → ((take_sample s seq boot_time now).0.generation ≡ s.generation)
      × ((take_sample s seq boot_time now).0.applied_seq ≡ seq)
take_sample-kept s seq boot_time now = elim (Bool-cases (s.observation.boot_time == 0)) [
  | inl e ↦ rw (e) (refl, refl)
  | inr e ↦ elim (Bool-cases (s.observation.boot_time == boot_time)) [
    | inl f ↦ rw (e) (rw (f) (refl, refl))
    | inr f ↦ rw (e) (rw (f) (refl, refl))
  ]
]

Follows-complete_at :
    (s : RebootState) (l : RebootLog) (o : Option RebootState) (p : RebootProbe) (boot_time now : ℕ)
    (key : Bytes)
    → l p.key ≡ o
    → l key ≡ some s
    → Follows s (complete_at l o p boot_time now).0 key
Follows-complete_at s l none p boot_time now key f e = Follows-same s s l key e refl (omega arith)
Follows-complete_at s l (some t) p boot_time now key f e =
    let guard = not (p.generation == t.generation) || (ltb p.seq t.applied_seq || boot_time == 0) in
    elim (Bool-cases guard) [
      | inl g ↦ rw (g) (Follows-same s s l key e refl (omega arith))
      | inr g ↦
          let kept = take_sample-kept t p.seq boot_time now in
          rw (g) (
            Follows-store s (take_sample t p.seq boot_time now).0 l p.key key e (λ j.
              let same : t ≡ s = some_inj.0 (sym f ∙ ap l j ∙ e) in
              (
                kept.0 ∙ ap (λ u. u.generation) same,
                omega (
                  arith,
                  kept.1,
                  ap (λ u. u.applied_seq) same,
                  not-late (p.generation == t.generation) p.seq t.applied_seq (boot_time == 0) g,
                ),
              )))
    ]
  where
    not-late : (a : Bool) (m n : ℕ) (c : Bool) → (not a || (ltb m n || c)) ≡ false → n ≤ m
    not-late a m n c g = ground arith

Follows-step :
    (s : RebootState) (l : RebootLog) (e : Event) (key : Bytes)
    → s.generation + 1 < 2 ^ 64
    → l key ≡ some s
    → Follows s (step l e) key
unfolding complete_observe
Follows-step s l (Event.begin k) key h e = Follows-store s (begun (or_zero (l k))) l k key e (λ j.
    let same = ap or_zero (ap l j ∙ e) in
    (ap (λ u. u.generation) same, omega (arith, ap (λ u. u.applied_seq) same)))
Follows-step s l (Event.complete p boot_time now) key h e =
    Follows-complete_at s l (l p.key) p boot_time now key refl e
Follows-step s l (Event.forget_node k) key h e = elim (Bytes-discrete k key) [
  | yes j ↦ Follows-forgotten s (forget l k) key h (
      subst (λ i. forget l k i ≡ some (forgotten (or_zero (l k)))) j
        (update_self Bytes-discrete l k (some (forgotten (or_zero (l k)))))
      ∙ ap (λ o. some (forgotten (or_zero o))) (ap l j ∙ e))
  | no n ↦
      Follows-same s s (forget l k) key
        (update_ne Bytes-discrete l k key (some (forgotten (or_zero (l k)))) n ∙ e) refl
        (omega arith)
]
Follows-step s l (Event.forget_cluster prefix) key h e = elim (Bool-cases (has_prefix key prefix)) [
  | inl f ↦ Follows-forgotten s (forget_prefix l prefix) key h (rw (f, e) refl)
  | inr f ↦ Follows-same s s (forget_prefix l prefix) key (rw (f) e) refl (omega arith)
]
Follows-step s l Event.forget_every key h e = Follows-forgotten s (forget_all l) key h (rw (e) refl)

-- A probe of a node that was forgotten since, or from before the sample that was taken last.
abbrev pub Stale : RebootProbe → RebootState → Type 0
Stale p s =
    (p.generation < s.generation) ⊎ ((p.generation ≡ s.generation) × (p.seq < s.applied_seq))

Stale-Later : (p : RebootProbe) (s t : RebootState) → Stale p s → Later s t → Stale p t
Stale-Later p s t (inl h) (inl k) = inl (omega (arith, h, k))
Stale-Later p s t (inl h) (inr k) = inl (omega (arith, h, k.0))
Stale-Later p s t (inr h) (inl k) = inl (omega (arith, h.0, k))
Stale-Later p s t (inr h) (inr k) = inr (h.0 ∙ k.0, omega (arith, h.1, k.1))

Stale-ignored :
    (l : RebootLog) (p : RebootProbe) (s : RebootState) (boot_time now : ℕ)
    → l p.key ≡ some s
    → Stale p s
    → complete_observe l p boot_time now ≡ (l, ignored)
unfolding complete_observe
Stale-ignored l p s boot_time now e h =
    let guard = not (p.generation == s.generation) || (ltb p.seq s.applied_seq || boot_time == 0) in
    let refused : guard ≡ true = refused-stale p s (boot_time == 0) h in rw (e) (rw (refused) refl)
  where
    refused-stale :
        (p : RebootProbe) (s : RebootState) (b : Bool)
        → Stale p s
        → (not (p.generation == s.generation) || (ltb p.seq s.applied_seq || b)) ≡ true
    refused-stale p s b (inl h) = ground (arith, h)
    refused-stale p s b (inr h) = ground (arith, h.0, h.1)

-- A sample of a stale probe is ignored, however many events come before it: the log stays as it
-- is, for fewer than 2^64 generations.
pub Stale-run :
    (l : RebootLog) (p : RebootProbe) (s : RebootState) (es : List Event) (boot_time now : ℕ)
    → l p.key ≡ some s
    → Stale p s
    → s.generation + length es < 2 ^ 64
    → complete_observe (run l es) p boot_time now ≡ (run l es, ignored)
unfolding run
Stale-run l p s [] boot_time now e h b = Stale-ignored l p s boot_time now e h
Stale-run l p s (event ∷ es) boot_time now e h b =
    let f = Follows-step s l event p.key (omega (arith, b)) e in
    Stale-run (step l event) p f.state es boot_time now f.there (Stale-Later p s f.state h f.later)
      (omega (arith, b, f.near))

Follows-run :
    (s : RebootState) (l : RebootLog) (es : List Event) (key : Bytes)
    → s.generation + length es < 2 ^ 64
    → l key ≡ some s
    → (t : RebootState) × (run l es key ≡ some t)
      × (s.generation ≤ t.generation)
      × (t.generation ≤ s.generation + length es)
unfolding run
Follows-run s l [] key b e = (s, e, omega arith, omega arith)
Follows-run s l (event ∷ es) key b e =
    let f = Follows-step s l event key (omega (arith, b)) e in
    let (t, g, low, high) =
      Follows-run f.state (step l event) es key (omega (arith, b, f.near)) f.there in
    (t, g, omega (arith, low, later_generation s f.state f.later), omega (arith, high, f.near))
  where
    later_generation : (s t : RebootState) → Later s t → s.generation ≤ t.generation
    later_generation s t (inl h) = omega (arith, h)
    later_generation s t (inr h) = omega (arith, h.0)

-- The events that forget a node.
pub data Forgets (key : Bytes) : Event → Type 0 where
  by_node : Forgets key (Event.forget_node key)
  by_prefix :
      (prefix : Bytes) → has_prefix key prefix ≡ true → Forgets key (Event.forget_cluster prefix)
  by_every : Forgets key Event.forget_every

Forgets-step :
    (key : Bytes) (l : RebootLog) (s : RebootState) (e : Event)
    → Forgets key e
    → l key ≡ some s
    → step l e key ≡ some (forgotten s)
Forgets-step key l s event Forgets.by_node e =
    update_self Bytes-discrete l key (some (forgotten (or_zero (l key))))
    ∙ ap (λ o. some (forgotten (or_zero o))) e
Forgets-step key l s event (Forgets.by_prefix prefix h) e = rw (h, e) refl
Forgets-step key l s event Forgets.by_every e = rw (e) refl

-- A sample whose probe began before its node was forgotten is ignored, whatever happened in between
-- and since: the log stays as it is, for fewer than 2^64 generations of the node.
pub forgotten-run :
    (l : RebootLog) (key : Bytes) (before after : List Event) (e : Event) (boot_time now : ℕ)
    → Forgets key e
    → (or_zero (l key)).generation + length before + 1 + length after < 2 ^ 64
    → complete_observe
        (run (step (run (begin_observe l key).0 before) e) after)
        (begin_observe l key).1
        boot_time
        now
      ≡ (run (step (run (begin_observe l key).0 before) e) after, ignored)
forgotten-run l key before after e boot_time now forgets b =
    let s = begun (or_zero (l key)) in
    let start = begin_observe l key in
    let there = update_self Bytes-discrete l key (some s) in
    let (t, f, low, high) = Follows-run s start.0 before key (omega (arith, b)) there in
    let next = mod-eq_of_lt {n = t.generation + 1} {m = 2 ^ 64} (omega (arith, b, high)) in
    Stale-run (step (run start.0 before) e) start.1 (forgotten t) after boot_time now
      (Forgets-step key (run start.0 before) t e forgets f) (inl (omega (arith, low, next)))
      (omega (arith, next, high, b))
