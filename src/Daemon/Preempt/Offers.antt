-- ===== src/Daemon/Preempt/Offers.antt =====
-- The entries of the handover table: every registration that stands has one.
use mathlib.Core.Option.{some_inj}
use mathlib.Core.List.{Memᴰ}
use mathlib.Core.Bool.{true≢false}
use native.Mathlib.Nat.{mod-eq_of_lt}
use talos_box.Base.{
  ℕ, zero, suc, ◌+◌, ◌%◌, ◌^◌, ◌<◌, ◌≤◌, ◌==◌, true, false, Option, none, some, List, [], ◌∷◌,
  Bytes, length, get_elem?, set, update, update_self, update_ne, length-set, ◌≡◌, ◌≢◌, ◌⊎◌, refl,
  sym, ◌∙◌, ap, subst, arith, Bool-cases, inl, inr,
}
use talos_box.Text.{Bytes-discrete}
use talos_box.Daemon.Preempt.{Entry, cluster_key, next_id, delete_id}
use talos_box.Daemon.Preempt.Steps.{
  Request, Registration, System, Event, step, released_once, removed_once, fire,
}

pub mem-set {ℓ} :
    {A : Type ℓ} (xs : List A) (i : ℕ) (v x : A) → Memᴰ x (set xs i v) → (x ≡ v) ⊎ Memᴰ x xs
mem-set [] i v x m = inr m
mem-set (y ∷ ys) zero v x (Memᴰ.head e) = inl e
mem-set (y ∷ ys) zero v x (Memᴰ.tail m) = inr (Memᴰ.tail m)
mem-set (y ∷ ys) (suc i) v x (Memᴰ.head e) = inr (Memᴰ.head e)
mem-set (y ∷ ys) (suc i) v x (Memᴰ.tail m) = elim (mem-set ys i v x m) [
  | inl e ↦ inl e
  | inr h ↦ inr (Memᴰ.tail h)
]

pub mem-get_elem? {ℓ} :
    {A : Type ℓ} (xs : List A) (i : ℕ) (x : A) → get_elem? xs i ≡ some x → Memᴰ x xs
mem-get_elem? [] i x e = absurd cc
mem-get_elem? (y ∷ ys) zero x e = Memᴰ.head (sym (some_inj.0 e))
mem-get_elem? (y ∷ ys) (suc i) x e = Memᴰ.tail (mem-get_elem? ys i x e)

mem-update {ℓ} :
    {A : Type ℓ} (m : Bytes → List A) (k j : Bytes) (es : List A) (x : A)
    → (k ≡ j → Memᴰ x es)
    → Memᴰ x (m j)
    → Memᴰ x (update Bytes-discrete m k es j)
mem-update m k j es x h g = elim (Bytes-discrete k j) [
  | yes e ↦
      subst (λ i. Memᴰ x (update Bytes-discrete m k es i)) e
        (subst (Memᴰ x) (sym (update_self Bytes-discrete m k es)) (h e))
  | no n ↦ subst (Memᴰ x) (sym (update_ne Bytes-discrete m k j es n)) g
]

module _ {I : Type 0} where
  mem-delete_id :
      (es : List (Entry I)) (id : ℕ) (x : Entry I)
      → Memᴰ x es
      → x.id ≢ id
      → Memᴰ x (delete_id es id)
  unfolding delete_id
  mem-delete_id [] id x m n = elim m [ ]
  mem-delete_id (y ∷ ys) id x (Memᴰ.head e) n =
      subst (Memᴰ x) (rw (keeps) refl) (Memᴰ.head {xs = delete_id ys id} e)
    where
      keeps : (y.id == id) ≡ false
      keeps = ground (arith, ap (λ q. q.id) e, n)
  mem-delete_id (y ∷ ys) id x (Memᴰ.tail m) n = elim (Bool-cases (y.id == id)) [
    | inl e ↦ rw (e) (mem-delete_id ys id x m n)
    | inr e ↦ rw (e) (Memᴰ.tail (mem-delete_id ys id x m n))
  ]

  abbrev pub entry_of : Registration I → Entry I
  entry_of r = record { id = r.id; interrupt = r.interrupt }

  -- The numbers of registrations count up from 1.
  abbrev pub Numbered : List (Registration I) → Type 0
  Numbered [] = Unit
  Numbered (r ∷ rs) = (r.id ≡ length rs + 1) × Numbered rs

  Numbered-below :
      (rs : List (Registration I)) (r : Registration I) → Numbered rs → Memᴰ r rs → r.id ≤ length rs
  Numbered-below [] r h m = elim m [ ]
  Numbered-below (x ∷ xs) r h (Memᴰ.head e) = omega (arith, ap (λ q. q.id) e, h.0)
  Numbered-below (x ∷ xs) r h (Memᴰ.tail m) = omega (arith, Numbered-below xs r h.1 m)

  Numbered-set :
      (rs : List (Registration I)) (i : ℕ) (r v : Registration I)
      → get_elem? rs i ≡ some r
      → v.id ≡ r.id
      → Numbered rs
      → Numbered (set rs i v)
  Numbered-set [] i r v e h n = n
  Numbered-set (x ∷ xs) zero r v e h n = (h ∙ ap (λ q. q.id) (sym (some_inj.0 e)) ∙ n.0, n.1)
  Numbered-set (x ∷ xs) (suc i) r v e h n =
      (n.0 ∙ ap (λ k. k + 1) (sym (length-set xs i v)), Numbered-set xs i r v e h n.1)

  -- What stays at its place when another registration changes has another number.
  mem-set_other :
      (rs : List (Registration I)) (i : ℕ) (r v x : Registration I)
      → Numbered rs
      → get_elem? rs i ≡ some r
      → Memᴰ x (set rs i v)
      → (x ≡ v) ⊎ (Memᴰ x rs × (x.id ≢ r.id))
  mem-set_other [] i r v x n e m = absurd cc
  mem-set_other (y ∷ ys) zero r v x n e (Memᴰ.head h) = inl h
  mem-set_other (y ∷ ys) zero r v x n e (Memᴰ.tail m) = inr (
    Memᴰ.tail m,
    λ h. omega (arith, Numbered-below ys x n.1 m, n.0, h, ap (λ q. q.id) (some_inj.0 e)),
  )
  mem-set_other (y ∷ ys) (suc i) r v x n e (Memᴰ.head h) = inr (
    Memᴰ.head h,
    λ g. omega (arith, Numbered-below ys r n.1 (mem-get_elem? ys i r e), n.0, g, ap (λ q. q.id) h),
  )
  mem-set_other (y ∷ ys) (suc i) r v x n e (Memᴰ.tail m) = elim (mem-set_other ys i r v x n.1 e m) [
    | inl h ↦ inl h
    | inr h ↦ inr (Memᴰ.tail h.0, h.1)
  ]

  pub record Offered (s : System I) : Type 0 where
    pub numbered : Numbered s.registrations
    pub counted : s.table.sequence ≡ length s.registrations
    pub offered :
        (r : Registration I)
        → Memᴰ r s.registrations
        → r.removed ≡ false
        → Memᴰ (entry_of r) (s.table.interrupts r.key)

  Offered-register :
      (s : System I) (name : Bytes) (interrupt : I)
      → length s.registrations + 1 < 2 ^ 64
      → Offered s
      → Offered (step s (Event.register name interrupt))
  Offered-register s name interrupt b w =
      let k = cluster_key name in
      let fresh : next_id s.table ≡ length s.registrations + 1 =
        ap (λ n. (n + 1) % 2 ^ 64) w.counted ∙ mod-eq_of_lt b in
      let es = delete_id (s.table.interrupts k) (next_id s.table) in
      let x : Entry I = record { id = next_id s.table; interrupt = interrupt } in
      record {
        numbered = (fresh, w.numbered);
        counted = fresh ∙ omega arith;
        offered = λ r m h. elim m [
          | Memᴰ.head e ↦
              subst
                (λ q. Memᴰ (entry_of q) (update Bytes-discrete s.table.interrupts k (x ∷ es) q.key))
                (sym e)
                (subst (Memᴰ x) (sym (update_self Bytes-discrete s.table.interrupts k (x ∷ es)))
                  (Memᴰ.head refl))
          | Memᴰ.tail old ↦
              let there = w.offered r old h in
              mem-update s.table.interrupts k r.key (x ∷ es) (entry_of r)
                (λ e. Memᴰ.tail (
                  mem-delete_id (s.table.interrupts k) (next_id s.table) (entry_of r)
                    (subst (λ j. Memᴰ (entry_of r) (s.table.interrupts j)) (sym e) there)
                    (λ g. omega (arith, fresh, Numbered-below _ r w.numbered old, g))))
                there
        ];
      }

  Offered-removed_once :
      (s : System I) (i : ℕ) (o : Option (Registration I))
      → get_elem? s.registrations i ≡ o
      → Offered s
      → Offered (removed_once s i o)
  Offered-removed_once s i none e w = w
  Offered-removed_once s i (some g) e w =
      let v : Registration I = record {
        key = g.key;
        id = g.id;
        interrupt = g.interrupt;
        removed = true;
      } in
      elim (Bool-cases g.removed) [
        | inl h ↦ rw (h) w
        | inr h ↦ rw (h) record {
          numbered = Numbered-set s.registrations i g v e refl w.numbered;
          counted = w.counted ∙ sym (length-set s.registrations i v);
          offered = λ r m f. elim (mem-set_other s.registrations i g v r w.numbered e m) [
            | inl c ↦ absurd (true≢false (sym (ap (λ q. q.removed) c) ∙ f))
            | inr c ↦
                let there = w.offered r c.0 f in
                mem-update s.table.interrupts g.key r.key
                  (delete_id (s.table.interrupts g.key) g.id) (entry_of r)
                  (λ j.
                    mem-delete_id (s.table.interrupts g.key) g.id (entry_of r)
                      (subst (λ k. Memᴰ (entry_of r) (s.table.interrupts k)) (sym j) there) c.1)
                  there
          ];
        }
      ]

  Offered-released_once :
      (s : System I) (i : ℕ) (o : Option Request) → Offered s → Offered (released_once s i o)
  Offered-released_once s i none w = w
  Offered-released_once s i (some r) w = elim (Bool-cases r.released) [
    | inl h ↦ rw (h) w
    | inr h ↦ rw (h) record { numbered = w.numbered; counted = w.counted; offered = w.offered }
  ]

  Offered-fire : (s : System I) (i : ℕ) (o : Option I) → Offered s → Offered (fire s i o)
  Offered-fire s i none w = w
  Offered-fire s i (some x) w = record {
    numbered = w.numbered;
    counted = w.counted;
    offered = w.offered;
  }

  pub Offered-step :
      (s : System I) (e : Event I)
      → length s.registrations + 1 < 2 ^ 64
      → Offered s
      → Offered (step s e)
  Offered-step s (Event.request name) b w = record {
    numbered = w.numbered;
    counted = w.counted;
    offered = w.offered;
  }
  Offered-step s (Event.register name interrupt) b w = Offered-register s name interrupt b w
  Offered-step s (Event.run_release i) b w = Offered-released_once s i _ w
  Offered-step s (Event.run_remove i) b w = Offered-removed_once s i _ refl w
  Offered-step s (Event.run_interrupt i) b w = Offered-fire s i _ w
