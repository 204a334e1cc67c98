-- ===== src/Balloon/Agree.antt =====
-- `PlanTargets` where no integer wraps: it is the reference of Balloon.Exact.
use native.Mathlib.Nat.{mul-le-mul_left, mul_comm, div-le_self}
use talos_box.Base.{
  ℕ, zero, suc, ◌+◌, ◌-◌, ◌*◌, ◌/◌, ◌^◌, ◌≤◌, ◌<◌, ◌||◌, some, List, [], ◌∷◌, leb, ltb, ◌==◌,
  length, All, ◌≡◌, refl, sym, ◌∙◌, ap, subst, arith, Bool-cases, inl, inr, le_int, add_int-exact,
  sub_int-exact, mul_int-exact, quot_int-exact, le_int-exact, le_int-sub_int,
}
use talos_box.Balloon.{
  VmNode, Share, Round, shares, weight, count_active, take_share, round, rounds, plan_targets,
  by_name, insert, before,
}
use talos_box.Balloon.Exact.{exact_weight, exact_share, exact_round, exact_rounds, exact_targets}
use talos_box.Balloon.Bounds.{InBounds, reclaimed, nodes, exact_round-InBounds, exact_round-nodes}
use talos_box.Balloon.Ends.{Bounded, shares-Fresh, positive, exact_round_le, exact_targets-bounds}

-- All the memory of the nodes.
abbrev pub total_size : List VmNode → ℕ
total_size [] = 0
total_size (n ∷ ns) = n.configured_mib + total_size ns

-- No product or sum of the plan reaches 2 ^ 63.
pub record Fits (deficit floor : ℕ) (ns : List VmNode) : Type 0 where
  pub deficit_fits : deficit < 2 ^ 63
  pub floor_fits : floor < 2 ^ 63
  pub sizes_fit : total_size ns < 2 ^ 63
  pub product_fits : deficit * total_size ns < 2 ^ 63

mul_mono : (k a b : ℕ) → a ≤ b → k * a ≤ k * b
mul_mono k a b h = mul-le-mul_left k h

take_share-exact :
    (remaining total floor : ℕ) (s : Share) (r : Round)
    → remaining * s.node.configured_mib < 2 ^ 63
    → total < 2 ^ 63
    → floor < 2 ^ 63
    → InBounds floor s
    → s.node.configured_mib + r.distributed < 2 ^ 63
    → (take_share remaining total floor s r ≡ exact_share remaining total floor s r)
      × ((exact_share remaining total floor s r).distributed
          ≤ s.node.configured_mib + r.distributed)
take_share-exact remaining total floor s r p q f b d =
    let share = remaining * s.node.configured_mib / total in
    let small : share < 2 ^ 63 =
      omega (arith, div-le_self (remaining * s.node.configured_mib) total, p) in
    let whole = mul_int-exact remaining s.node.configured_mib p in
    let part = quot_int-exact (remaining * s.node.configured_mib) total p q in
    let fits : s.target < 2 ^ 63 = omega (arith, b.below_size, d) in
    rw (whole, part, le_int-sub_int s.target share floor fits small f)
      (elim (Bool-cases s.active) [
        | inr e ↦ rw e (refl, omega arith)
        | inl e ↦ elim (Bool-cases (leb s.target (floor + share))) [
          | inl g ↦
              let above = b.while_active e in
              let left = sub_int-exact s.target floor (omega arith) fits in
              let sum =
                add_int-exact r.distributed (s.target - floor) (omega (arith, b.below_size, d)) in
              rw (e, g, left, sum) (refl, omega (arith, b.below_size))
          | inr g ↦
              let above : floor + share < s.target = ground arith in
              let left = sub_int-exact s.target share (omega arith) fits in
              let sum = add_int-exact r.distributed share (omega (arith, b.below_size, d)) in
              rw (e, g, left, sum) (refl, omega (arith, b.below_size))
        ]
      ])

weight-exact :
    (ss : List Share)
    → total_size (nodes ss) < 2 ^ 63
    → (weight ss ≡ exact_weight ss) × (exact_weight ss ≤ total_size (nodes ss))
unfolding weight exact_weight
weight-exact [] h = (refl, omega arith)
weight-exact (s ∷ ss) h =
    let (e, le) = weight-exact ss (omega (arith, h)) in
    let sum = add_int-exact s.node.configured_mib (exact_weight ss) (omega (arith, h, le)) in
    elim (Bool-cases s.active) [
      | inl a ↦ rw (a, e, sum) (refl, omega (arith, le))
      | inr a ↦ rw (a, e) (refl, omega (arith, le))
    ]

round-exact :
    (remaining total floor : ℕ) (ss : List Share)
    → total < 2 ^ 63
    → floor < 2 ^ 63
    → total_size (nodes ss) < 2 ^ 63
    → remaining * total_size (nodes ss) < 2 ^ 63
    → All (InBounds floor) ss
    → (round remaining total floor ss ≡ exact_round remaining total floor ss)
      × ((exact_round remaining total floor ss).distributed ≤ total_size (nodes ss))
unfolding round exact_round
round-exact remaining total floor [] q f z p all = (refl, omega arith)
round-exact remaining total floor (s ∷ ss) q f z p (b, all) =
    let c = s.node.configured_mib in
    let one = mul_mono remaining c (c + total_size (nodes ss)) (omega arith) in
    let more =
      mul_mono remaining (total_size (nodes ss)) (c + total_size (nodes ss)) (omega arith) in
    let (e, le) =
      round-exact remaining total floor ss q f (omega (arith, z)) (omega (arith, more, p)) all in
    let (same, sum) =
      take_share-exact remaining total floor s (exact_round remaining total floor ss)
        (omega (arith, one, p)) q f b (omega (arith, le, z)) in
    (rw e same, omega (arith, sum, le))

rounds-exact :
    (fuel remaining floor : ℕ) (ss : List Share)
    → Fits remaining floor (nodes ss)
    → All (InBounds floor) ss
    → rounds fuel remaining floor ss ≡ exact_rounds fuel remaining floor ss
unfolding rounds exact_rounds
rounds-exact zero remaining floor ss v all =
    let test : le_int remaining 0 ≡ (remaining == 0) =
      le_int-exact remaining 0 v.deficit_fits (omega arith) ∙ ground arith in
    rw test refl
rounds-exact (suc fuel) remaining floor ss v all =
    let test : le_int remaining 0 ≡ (remaining == 0) =
      le_int-exact remaining 0 v.deficit_fits (omega arith) ∙ ground arith in
    let (total, le) = weight-exact ss v.sizes_fit in
    let (e, d) =
      round-exact remaining (exact_weight ss) floor ss (omega (arith, le, v.sizes_fit)) v.floor_fits
        v.sizes_fit v.product_fits all in
    let r = exact_round remaining (exact_weight ss) floor ss in
    rw (test, total, e)
      (elim (Bool-cases (remaining == 0 || count_active ss == 0)) [
        | inl g ↦ rw g refl
        | inr g ↦
            let le_rest =
              exact_round_le remaining floor ss all (positive remaining (count_active ss) g) in
            let left = sub_int-exact remaining r.distributed le_rest v.deficit_fits in
            let kept = exact_round-nodes remaining (exact_weight ss) floor ss in
            let less =
              mul_mono (total_size (nodes ss)) (remaining - r.distributed) remaining
                (omega arith) in
            let rest =
              rounds-exact fuel (remaining - r.distributed) floor r.shares
                (subst (Fits (remaining - r.distributed) floor) (sym kept) record {
                  deficit_fits = omega (arith, v.deficit_fits);
                  floor_fits = v.floor_fits;
                  sizes_fit = v.sizes_fit;
                  product_fits = omega (
                    arith,
                    less,
                    v.product_fits,
                    mul_comm (remaining - r.distributed) (total_size (nodes ss)),
                    mul_comm remaining (total_size (nodes ss)),
                  );
                })
                (exact_round-InBounds remaining (exact_weight ss) floor ss all) in
            rw (g, left, rest) refl
      ])

total_size-insert :
    (n : VmNode) (ns : List VmNode) → total_size (insert n ns) ≡ n.configured_mib + total_size ns
unfolding insert
total_size-insert n [] = refl
total_size-insert n (m ∷ ms) = elim (Bool-cases (before m.name n.name)) [
  | inl e ↦ rw e (omega (arith, total_size-insert n ms))
  | inr e ↦ rw e refl
]

total_size-by_name : (ns : List VmNode) → total_size (by_name ns) ≡ total_size ns
unfolding by_name
total_size-by_name [] = refl
total_size-by_name (n ∷ ns) =
    total_size-insert n (by_name ns) ∙ ap (λ k. n.configured_mib + k) (total_size-by_name ns)

-- Where nothing wraps, the code gives the targets of the reference.
plan_targets-exact :
    (fuel : ℕ) (ns : List VmNode) (deficit floor : ℕ)
    → Fits deficit floor ns
    → plan_targets fuel ns deficit floor ≡ exact_targets fuel ns deficit floor
unfolding plan_targets exact_targets
plan_targets-exact fuel ns deficit floor v =
    let f = shares-Fresh (ltb 0 deficit) floor (by_name ns) in
    let size = total_size-by_name ns in
    let sorted : Fits deficit floor (by_name ns) = record {
      deficit_fits = v.deficit_fits;
      floor_fits = v.floor_fits;
      sizes_fit = rw size v.sizes_fit;
      product_fits = rw size v.product_fits;
    } in
    rounds-exact fuel deficit floor (shares (ltb 0 deficit) floor (by_name ns))
      (subst (Fits deficit floor) (sym f.same_nodes) sorted) f.bounds

-- Where the deficit, the floor, the sum of the sizes and the deficit times that sum are below
-- 2 ^ 63, `PlanTargets` ends with as much fuel as there are nodes. It returns one target for each
-- node, no target is above the node's size, none is below the floor unless it is the size itself,
-- and the targets together reclaim no more than the deficit.
pub plan_targets-bounds :
    (ns : List VmNode) (deficit floor : ℕ)
    → Fits deficit floor ns
    → (ts : List Share) × (plan_targets (length ns) ns deficit floor ≡ some ts)
      × (nodes ts ≡ by_name ns)
      × All (Bounded floor) ts
      × (reclaimed ts ≤ deficit)
plan_targets-bounds ns deficit floor v =
    rw (plan_targets-exact (length ns) ns deficit floor v) (exact_targets-bounds ns deficit floor)
