-- ===== src/Daemon/Preempt/Handed.antt =====
-- Every queued operation reaches what the holder of the lock has registered.
use mathlib.Core.Bool.{true≢false}
use mathlib.Core.Option.{some_inj}
use mathlib.Core.List.{Memᴰ}
use mathlib.Core.List.Memᴰ
use talos_box.Base.{
  ℕ, zero, suc, ◌+◌, ◌^◌, ◌<◌, ◌≤◌, false, Option, none, some, List, [], ◌∷◌, ◌++◌, Bytes, lt→ltb,
  length, map, get_elem?, length-set, ◌≡◌, ◌⊎◌, refl, sym, ◌∙◌, ap, subst, arith, Bool-cases, inl,
  inr,
}
use talos_box.Text.Sets.{same_refl}
use talos_box.Daemon.Preempt.{Entry, cluster_key, queued, to_interrupt}
use talos_box.Daemon.Preempt.Steps.{
  Request, Registration, System, Event, step, run, blank, released_once, removed_once, fire,
  remove_at,
}
use talos_box.Daemon.Preempt.Counts.{Counted, Counted-step, outstanding, counted_as}
use talos_box.Daemon.Preempt.Offers.{Offered, Offered-step, entry_of, mem-set}

outstanding_pos :
    (rs : List Request) (q : Request) → Memᴰ q rs → q.released ≡ false → 0 < outstanding q.key rs
unfolding outstanding
outstanding_pos [] q m h = elim m [ ]
outstanding_pos (x ∷ xs) q (Memᴰ.head e) h =
    let one : counted_as q.key x ≡ 1 =
      ap (λ r. counted_as q.key r) (sym e) ∙ rw (h, same_refl q.key) refl in
    omega (arith, one)
outstanding_pos (x ∷ xs) q (Memᴰ.tail m) h = omega (arith, outstanding_pos xs q m h)

module _ {I : Type 0} where
  -- For a queued request and a standing registration of its cluster the interrupt has run, or the
  -- call that read it has yet to run it.
  abbrev pub Handed : System I → Type 0
  Handed s =
      (q : Request) (r : Registration I)
      → Memᴰ q s.requests
      → Memᴰ r s.registrations
      → q.released ≡ false
      → r.removed ≡ false
      → q.key ≡ r.key
      → Memᴰ r.interrupt s.owed ⊎ Memᴰ r.interrupt s.fired

  mem-interrupts :
      (es : List (Entry I)) (e : Entry I) → Memᴰ e es → Memᴰ e.interrupt (map (λ x. x.interrupt) es)
  mem-interrupts [] e m = elim m [ ]
  mem-interrupts (x ∷ xs) e (Memᴰ.head h) = Memᴰ.head (ap (λ q. q.interrupt) h)
  mem-interrupts (x ∷ xs) e (Memᴰ.tail m) = Memᴰ.tail (mem-interrupts xs e m)

  mem-remove_at :
      (xs : List I) (i : ℕ) (x y : I)
      → get_elem? xs i ≡ some y
      → Memᴰ x xs
      → (x ≡ y) ⊎ Memᴰ x (remove_at xs i)
  unfolding remove_at
  mem-remove_at [] i x y e m = elim m [ ]
  mem-remove_at (z ∷ zs) zero x y e (Memᴰ.head h) = inl (h ∙ some_inj.0 e)
  mem-remove_at (z ∷ zs) zero x y e (Memᴰ.tail m) = inr m
  mem-remove_at (z ∷ zs) (suc i) x y e (Memᴰ.head h) = inr (Memᴰ.head h)
  mem-remove_at (z ∷ zs) (suc i) x y e (Memᴰ.tail m) = elim (mem-remove_at zs i x y e m) [
    | inl h ↦ inl h
    | inr h ↦ inr (Memᴰ.tail h)
  ]

  more_owed : (xs ys zs : List I) (x : I) → Memᴰ x ys ⊎ Memᴰ x zs → Memᴰ x (xs ++ ys) ⊎ Memᴰ x zs
  more_owed xs ys zs x (inl m) = inl (Memᴰ.append_right xs m)
  more_owed xs ys zs x (inr m) = inr m

  Handed-released_once :
      (s : System I) (i : ℕ) (o : Option Request) → Handed s → Handed (released_once s i o)
  Handed-released_once s i none h = h
  Handed-released_once s i (some g) h = elim (Bool-cases g.released) [
    | inl e ↦ rw (e) h
    | inr e ↦ rw (e) (λ q r mq mr hq hr k. elim (mem-set s.requests i _ q mq) [
      | inl c ↦ absurd (true≢false (sym (ap (λ x. x.released) c) ∙ hq))
      | inr c ↦ h q r c mr hq hr k
    ])
  ]

  Handed-removed_once :
      (s : System I) (i : ℕ) (o : Option (Registration I)) → Handed s → Handed (removed_once s i o)
  Handed-removed_once s i none h = h
  Handed-removed_once s i (some g) h = elim (Bool-cases g.removed) [
    | inl e ↦ rw (e) h
    | inr e ↦ rw (e) (λ q r mq mr hq hr k. elim (mem-set s.registrations i _ r mr) [
      | inl c ↦ absurd (true≢false (sym (ap (λ x. x.removed) c) ∙ hr))
      | inr c ↦ h q r mq c hq hr k
    ])
  ]

  Handed-fire :
      (s : System I) (i : ℕ) (o : Option I)
      → get_elem? s.owed i ≡ o
      → Handed s
      → Handed (fire s i o)
  Handed-fire s i none e h = h
  Handed-fire s i (some x) e h = λ q r mq mr hq hr k. elim (h q r mq mr hq hr k) [
    | inl m ↦ elim (mem-remove_at s.owed i r.interrupt x e m) [
      | inl c ↦ inr (Memᴰ.head c)
      | inr c ↦ inl c
    ]
    | inr m ↦ inr (Memᴰ.tail m)
  ]

  Handed-request :
      (s : System I) (name : Bytes) → Offered s → Handed s → Handed (step s (Event.request name))
  Handed-request s name w h = λ q r mq mr hq hr k.
      let read = to_interrupt s.table (cluster_key name) in
      elim mq [
        | Memᴰ.head e ↦
            let at : r.key ≡ cluster_key name = sym k ∙ ap (λ x. x.key) e in
            inl (
              Memᴰ.append_left s.owed (
                mem-interrupts (s.table.interrupts (cluster_key name)) (entry_of r)
                  (subst (λ j. Memᴰ (entry_of r) (s.table.interrupts j)) at (w.offered r mr hr))))
        | Memᴰ.tail m ↦ more_owed read s.owed s.fired r.interrupt (h q r m mr hq hr k)
      ]

  Handed-register :
      (s : System I) (name : Bytes) (interrupt : I)
      → Counted s
      → Handed s
      → Handed (step s (Event.register name interrupt))
  Handed-register s name interrupt c h = λ q r mq mr hq hr k.
      let now = queued s.table (cluster_key name) interrupt in
      elim mr [
        | Memᴰ.head e ↦
            let at : q.key ≡ cluster_key name = k ∙ ap (λ x. x.key) e in
            let waits : 0 < s.table.pending (cluster_key name) =
              subst (λ j. 0 < s.table.pending j) at
                (omega (arith, c q.key, outstanding_pos s.requests q mq hq)) in
            inl (rw (lt→ltb _ _ waits) (Memᴰ.head (ap (λ x. x.interrupt) e)))
        | Memᴰ.tail m ↦ more_owed now s.owed s.fired r.interrupt (h q r mq m hq hr k)
      ]

  Handed-step : (s : System I) (e : Event I) → Counted s → Offered s → Handed s → Handed (step s e)
  Handed-step s (Event.request name) c w h = Handed-request s name w h
  Handed-step s (Event.register name interrupt) c w h = Handed-register s name interrupt c h
  Handed-step s (Event.run_release i) c w h = Handed-released_once s i _ h
  Handed-step s (Event.run_remove i) c w h = Handed-removed_once s i _ h
  Handed-step s (Event.run_interrupt i) c w h = Handed-fire s i _ refl h

  same_length-released :
      (s : System I) (i : ℕ) (o : Option Request)
      → length (released_once s i o).registrations ≤ length s.registrations + 1
  same_length-released s i none = omega arith
  same_length-released s i (some g) = elim (Bool-cases g.released) [
    | inl e ↦ rw (e) (omega arith)
    | inr e ↦ rw (e) (omega arith)
  ]

  same_length-removed :
      (s : System I) (i : ℕ) (o : Option (Registration I))
      → length (removed_once s i o).registrations ≤ length s.registrations + 1
  same_length-removed s i none = omega arith
  same_length-removed s i (some g) = elim (Bool-cases g.removed) [
    | inl e ↦ rw (e) (omega arith)
    | inr e ↦ rw (e) (omega (arith, length-set s.registrations i))
  ]

  same_length-fire :
      (s : System I) (i : ℕ) (o : Option I)
      → length (fire s i o).registrations ≤ length s.registrations + 1
  same_length-fire s i none = omega arith
  same_length-fire s i (some x) = omega arith

  grows :
      (s : System I) (e : Event I) → length (step s e).registrations ≤ length s.registrations + 1
  grows s (Event.request name) = omega arith
  grows s (Event.register name interrupt) = omega arith
  grows s (Event.run_release i) = same_length-released s i _
  grows s (Event.run_remove i) = same_length-removed s i _
  grows s (Event.run_interrupt i) = same_length-fire s i _

  Handed-run :
      (s : System I) (es : List (Event I))
      → length s.registrations + length es < 2 ^ 64
      → Counted s
      → Offered s
      → Handed s
      → Handed (run s es)
  unfolding run
  Handed-run s [] b c w h = h
  Handed-run s (e ∷ es) b c w h =
      Handed-run (step s e) es (omega (arith, b, grows s e)) (Counted-step s e c)
        (Offered-step s e (omega (arith, b)) w) (Handed-step s e c w h)

  Offered-blank : Offered {I = I} blank
  Offered-blank = record { numbered = tt; counted = refl; offered = λ r m h. elim m [ ] }

  -- After fewer than 2^64 calls of the table's functions in any order, for a request whose release
  -- has not run and a registration for the same cluster whose removal has not run, the registered
  -- interrupt has been called, or a call of request or register has it among those it will call.
  pub handed-run :
      (es : List (Event I))
      → length es < 2 ^ 64
      → (q : Request) (r : Registration I) → Memᴰ q (run blank es).requests
      → Memᴰ r (run blank es).registrations
      → q.released ≡ false
      → r.removed ≡ false
      → q.key ≡ r.key
      → Memᴰ r.interrupt (run blank es).owed ⊎ Memᴰ r.interrupt (run blank es).fired
  unfolding outstanding
  handed-run es b =
      Handed-run blank es (omega (arith, b)) (λ key. refl) Offered-blank (λ q r m. elim m [ ])
