-- ===== src/Balloon/Ends.antt =====
-- That the rounds end, and what they return, where no integer wraps.
use native.Mathlib.Nat.{mul_comm, le_of_mul-le-mul_left}
use mathlib.Core.Bool.{false≢true}
use talos_box.Base.{
  ℕ, zero, suc, ◌+◌, ◌-◌, ◌*◌, ◌≤◌, ◌<◌, Bool, true, false, ◌&&◌, ◌||◌, some, List, [], ◌∷◌, ltb,
  ◌==◌, length, All, ◌≡◌, ◌⊎◌, ltb→lt, refl, ◌∙◌, ap, subst, arith, Bool-cases, inl, inr,
}
use talos_box.Balloon.{VmNode, Share, share_of, shares, count_active, by_name, insert, before}
use talos_box.Balloon.Exact.{exact_weight, exact_round, exact_rounds, exact_targets}
use talos_box.Balloon.Bounds.{
  InBounds, reclaimed, nodes, exact_round-InBounds, exact_round-reclaimed, exact_round-count_active,
  exact_round-distributed, exact_round-nodes,
}

pub exact_weight-pos :
    (floor : ℕ) (ss : List Share)
    → All (InBounds floor) ss
    → 0 < count_active ss
    → 0 < exact_weight ss
unfolding count_active exact_weight
exact_weight-pos floor (s ∷ ss) (b, all) h = elim (Bool-cases s.active) [
  | inl e ↦ rw e (omega (arith, b.below_size, b.while_active e))
  | inr e ↦ rw e (exact_weight-pos floor ss all (rw e at h))
]
exact_weight-pos floor [] all h = absurd (omega (arith, h))

-- A round distributes no more than what remains.
pub exact_round_le :
    (remaining floor : ℕ) (ss : List Share)
    → All (InBounds floor) ss
    → 0 < count_active ss
    → (exact_round remaining (exact_weight ss) floor ss).distributed ≤ remaining
exact_round_le remaining floor ss all h =
    le_of_mul-le-mul_left
      (subst
        (λ k. exact_weight ss * (exact_round remaining (exact_weight ss) floor ss).distributed ≤ k)
        (mul_comm remaining (exact_weight ss))
        (exact_round-distributed remaining (exact_weight ss) floor ss all))
      (exact_weight-pos floor ss all h)

-- What is returned for a deficit, from the shares at the start.
record Planned (remaining floor : ℕ) (ss ts : List Share) : Type 0 where
  pub same_nodes : nodes ts ≡ nodes ss
  pub bounds : All (InBounds floor) ts
  pub within : reclaimed ts ≤ reclaimed ss + remaining

done :
    (remaining floor : ℕ) (ss : List Share)
    → All (InBounds floor) ss
    → Planned remaining floor ss ss
done remaining floor ss all = record { same_nodes = refl; bounds = all; within = omega arith }

one-round :
    (remaining floor : ℕ) (ss : List Share)
    → All (InBounds floor) ss
    → 0 < count_active ss
    → Planned remaining floor ss (exact_round remaining (exact_weight ss) floor ss).shares
one-round remaining floor ss all h = record {
  same_nodes = exact_round-nodes remaining (exact_weight ss) floor ss;
  bounds = exact_round-InBounds remaining (exact_weight ss) floor ss all;
  within = omega (
    arith,
    exact_round-reclaimed remaining (exact_weight ss) floor ss all,
    exact_round_le remaining floor ss all h,
  );
}

more-rounds :
    (remaining floor : ℕ) (ss ts : List Share)
    → All (InBounds floor) ss
    → 0 < count_active ss
    → Planned
        (remaining - (exact_round remaining (exact_weight ss) floor ss).distributed)
        floor
        (exact_round remaining (exact_weight ss) floor ss).shares
        ts
    → Planned remaining floor ss ts
more-rounds remaining floor ss ts all h p = record {
  same_nodes = p.same_nodes ∙ exact_round-nodes remaining (exact_weight ss) floor ss;
  bounds = p.bounds;
  within = omega (
    arith,
    p.within,
    exact_round-reclaimed remaining (exact_weight ss) floor ss all,
    exact_round_le remaining floor ss all h,
  );
}

pub positive : (n k : ℕ) → (n == 0 || k == 0) ≡ false → 0 < k
positive n k e = ground arith

exact_rounds_end :
    (fuel remaining floor : ℕ) (ss : List Share)
    → count_active ss ≤ fuel
    → All (InBounds floor) ss
    → (ts : List Share) × (exact_rounds fuel remaining floor ss ≡ some ts)
      × Planned remaining floor ss ts
unfolding exact_rounds
exact_rounds_end zero remaining floor ss h all =
    (ss, ground (arith, h), done remaining floor ss all)
exact_rounds_end (suc fuel) remaining floor ss h all =
    elim (Bool-cases (remaining == 0 || count_active ss == 0)) [
      | inl e ↦ (ss, rw (e, exact_rounds) refl, done remaining floor ss all)
      | inr e ↦
          let active = positive remaining (count_active ss) e in
          let r = exact_round remaining (exact_weight ss) floor ss in
          elim (Bool-cases r.clamped) [
            | inr f ↦
                (r.shares, rw (e, f, exact_rounds) refl, one-round remaining floor ss all active)
            | inl f ↦
                let (ts, g, p) =
                  exact_rounds_end fuel (remaining - r.distributed) floor r.shares
                    (omega (
                      arith,
                      h,
                      (exact_round-count_active remaining (exact_weight ss) floor ss).1 f,
                    ))
                    (exact_round-InBounds remaining (exact_weight ss) floor ss all) in
                (ts, rw (e, f, exact_rounds) g, more-rounds remaining floor ss ts all active p)
          ]
    ]

length-insert : (n : VmNode) (ns : List VmNode) → length (insert n ns) ≡ suc (length ns)
unfolding insert
length-insert n [] = refl
length-insert n (m ∷ ms) = elim (Bool-cases (before m.name n.name)) [
  | inl e ↦ rw (e, insert) (ap suc (length-insert n ms))
  | inr e ↦ rw (e, insert) refl
]

length-by_name : (ns : List VmNode) → length (by_name ns) ≡ length ns
unfolding by_name
length-by_name [] = refl
length-by_name (n ∷ ns) = length-insert n (by_name ns) ∙ ap suc (length-by_name ns)

-- The shares before the first round.
pub record Fresh (floor : ℕ) (ns : List VmNode) (ss : List Share) : Type 0 where
  pub same_nodes : nodes ss ≡ ns
  pub bounds : All (InBounds floor) ss
  pub nothing_yet : reclaimed ss ≡ 0
  pub few_active : count_active ss ≤ length ns

and-true : (a : Bool) {b : Bool} → (a && b) ≡ true → b ≡ true
and-true true e = e
and-true false e = absurd (false≢true e)

share_of-InBounds :
    (needed : Bool) (floor : ℕ) (n : VmNode) → InBounds floor (share_of needed floor n)
share_of-InBounds needed floor n = record {
  below_size = omega arith;
  above_floor = inr refl;
  while_active = λ e. ltb→lt floor n.configured_mib (and-true needed e);
}

pub shares-Fresh :
    (needed : Bool) (floor : ℕ) (ns : List VmNode) → Fresh floor ns (shares needed floor ns)
unfolding shares count_active
shares-Fresh needed floor [] = record {
  same_nodes = refl;
  bounds = tt;
  nothing_yet = refl;
  few_active = omega arith;
}
shares-Fresh needed floor (n ∷ ns) =
    let f = shares-Fresh needed floor ns in
    record {
      same_nodes = ap (λ ms. n ∷ ms) f.same_nodes;
      bounds = (share_of-InBounds needed floor n, f.bounds);
      nothing_yet = omega (arith, f.nothing_yet);
      few_active = elim (Bool-cases (share_of needed floor n).active) [
        | inl e ↦ rw e (omega (arith, f.few_active))
        | inr e ↦ rw e (omega (arith, f.few_active))
      ];
    }

-- At most the size, and at least the floor unless the target is the size.
abbrev pub Bounded : ℕ → Share → Type 0
Bounded floor s =
    (s.target ≤ s.node.configured_mib) × ((floor ≤ s.target) ⊎ (s.target ≡ s.node.configured_mib))

All-Bounded : (floor : ℕ) (ss : List Share) → All (InBounds floor) ss → All (Bounded floor) ss
All-Bounded floor [] all = tt
All-Bounded floor (s ∷ ss) (b, all) = ((b.below_size, b.above_floor), All-Bounded floor ss all)

pub exact_targets-bounds :
    (ns : List VmNode) (deficit floor : ℕ)
    → (ts : List Share) × (exact_targets (length ns) ns deficit floor ≡ some ts)
      × (nodes ts ≡ by_name ns)
      × All (Bounded floor) ts
      × (reclaimed ts ≤ deficit)
unfolding exact_targets
exact_targets-bounds ns deficit floor =
    let f = shares-Fresh (ltb 0 deficit) floor (by_name ns) in
    let (ts, e, p) =
      exact_rounds_end (length ns) deficit floor (shares (ltb 0 deficit) floor (by_name ns))
        (omega (arith, f.few_active, length-by_name ns)) f.bounds in
    (
      ts,
      e,
      p.same_nodes ∙ f.same_nodes,
      All-Bounded floor ts p.bounds,
      omega (arith, p.within, f.nothing_yet),
    )
