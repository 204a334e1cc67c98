-- ===== src/Balloon/Bounds.antt =====
-- What one round keeps, where no integer wraps.
use talos_box.Base.{
  ℕ, ◌+◌, ◌-◌, ◌*◌, ◌/◌, ◌≤◌, ◌<◌, true, false, List, [], ◌∷◌, leb, All, ◌≡◌, ◌⊎◌, leb→le, refl, ap,
  arith, Bool-cases, inl, inr,
}
use native.Mathlib.Nat.{mul-le-mul_left, mul-div-le, mul-add}
use mathlib.Core.Bool.{false≢true}
use talos_box.Balloon.{VmNode, Share, Round, count_active, keep}
use talos_box.Balloon.Exact.{exact_weight, exact_clamp, exact_lower, exact_share, exact_round}

-- Never above the size, never below the floor unless the node is that small, and above the floor
-- while the node is active.
pub record InBounds (floor : ℕ) (s : Share) : Type 0 where
  pub below_size : s.target ≤ s.node.configured_mib
  pub above_floor : (floor ≤ s.target) ⊎ (s.target ≡ s.node.configured_mib)
  pub while_active : s.active ≡ true → floor < s.target

abbrev pub reclaimed : List Share → ℕ
reclaimed [] = 0
reclaimed (s ∷ ss) = (s.node.configured_mib - s.target) + reclaimed ss

abbrev pub nodes : List Share → List VmNode
nodes [] = []
nodes (s ∷ ss) = s.node ∷ nodes ss

-- What a round does to one share, by its three branches.
exact_share-cases :
    (P : Round → Type 0) (remaining total floor : ℕ) (s : Share) (r : Round)
    → (s.active ≡ false → P (keep s r))
    → (s.active ≡ true
        → s.target ≤ floor + remaining * s.node.configured_mib / total
        → P (exact_clamp floor s r))
    → (s.active ≡ true
        → floor + remaining * s.node.configured_mib / total < s.target
        → P (exact_lower (remaining * s.node.configured_mib / total) s r))
    → P (exact_share remaining total floor s r)
exact_share-cases P remaining total floor s r k c l = elim (Bool-cases s.active) [
  | inr e ↦ simp e (k e)
  | inl e ↦ elim (Bool-cases (leb s.target (floor + remaining * s.node.configured_mib / total))) [
    | inl f ↦ rw (e, f) (c e (leb→le _ _ f))
    | inr f ↦ rw (e, f) (l e (ground arith))
  ]
]

-- Adding a share to the sum of those behind it.
dist-step :
    (total d x w remaining c : ℕ)
    → total * d ≤ remaining * w
    → x ≤ remaining * c / total
    → total * (d + x) ≤ remaining * (c + w)
dist-step total d x w remaining c p q =
    let share = mul-le-mul_left total q in
    let whole = mul-div-le (remaining * c) total in
    rw (mul-add total d x, mul-add remaining c w) (omega (arith, p, share, whole))

-- A property of the shares of a round, from what it says of one share.
module _ (remaining total floor : ℕ) where
  pub exact_round-InBounds :
      (ss : List Share)
      → All (InBounds floor) ss
      → All (InBounds floor) (exact_round remaining total floor ss).shares
  unfolding exact_round
  exact_round-InBounds [] all = tt
  exact_round-InBounds (s ∷ ss) (b, all) =
      exact_share-cases (λ r. All (InBounds floor) r.shares) remaining total floor s
        (exact_round remaining total floor ss) (λ e. (b, exact_round-InBounds ss all))
        (λ e h. (
          record {
            below_size = omega (arith, b.below_size, b.while_active e);
            above_floor = inl (omega arith);
            while_active = λ f. absurd (false≢true f);
          },
          exact_round-InBounds ss all,
        ))
        (λ e h. (
          record {
            below_size = omega (arith, b.below_size);
            above_floor = inl (omega (arith, h));
            while_active = λ f. omega (arith, h);
          },
          exact_round-InBounds ss all,
        ))

  pub exact_round-nodes :
      (ss : List Share) → nodes (exact_round remaining total floor ss).shares ≡ nodes ss
  unfolding exact_round
  exact_round-nodes [] = refl
  exact_round-nodes (s ∷ ss) =
      let rest = ap (λ ns. s.node ∷ ns) (exact_round-nodes ss) in
      exact_share-cases (λ r. nodes r.shares ≡ nodes (s ∷ ss)) remaining total floor s
        (exact_round remaining total floor ss) (λ e. rest) (λ e h. rest) (λ e h. rest)

  -- A round reclaims what it says it distributed.
  pub exact_round-reclaimed :
      (ss : List Share)
      → All (InBounds floor) ss
      → reclaimed (exact_round remaining total floor ss).shares
        ≡ reclaimed ss + (exact_round remaining total floor ss).distributed
  unfolding exact_round
  exact_round-reclaimed [] all = omega arith
  exact_round-reclaimed (s ∷ ss) (b, all) =
      exact_share-cases (λ r. reclaimed r.shares ≡ reclaimed (s ∷ ss) + r.distributed) remaining
        total floor s (exact_round remaining total floor ss)
        (λ e. omega (arith, exact_round-reclaimed ss all))
        (λ e h. omega (arith, exact_round-reclaimed ss all, b.below_size, b.while_active e))
        (λ e h. omega (arith, exact_round-reclaimed ss all, b.below_size, h))

  -- A round that clamps leaves fewer nodes active.
  pub exact_round-count_active :
      (ss : List Share)
      → (count_active (exact_round remaining total floor ss).shares ≤ count_active ss)
        × ((exact_round remaining total floor ss).clamped ≡ true
            → count_active (exact_round remaining total floor ss).shares < count_active ss)
  unfolding exact_round count_active
  exact_round-count_active [] = (omega arith, λ e. absurd (false≢true e))
  exact_round-count_active (s ∷ ss) =
      let rest = exact_round-count_active ss in
      exact_share-cases
        (λ r.
          (count_active r.shares ≤ count_active (s ∷ ss))
          × (r.clamped ≡ true → count_active r.shares < count_active (s ∷ ss)))
        remaining total floor s (exact_round remaining total floor ss) (λ e. rw e rest)
        (λ e h. rw e (omega (arith, rest.0), λ c. omega (arith, rest.0)))
        (λ e h. rw e (omega (arith, rest.0), λ c. omega (arith, rest.1 c)))

  -- No share is more than its part of the remaining deficit, by weight.
  pub exact_round-distributed :
      (ss : List Share)
      → All (InBounds floor) ss
      → total * (exact_round remaining total floor ss).distributed ≤ remaining * exact_weight ss
  unfolding exact_round exact_weight
  exact_round-distributed [] all = omega arith
  exact_round-distributed (s ∷ ss) (b, all) =
      let rest = exact_round-distributed ss all in
      exact_share-cases (λ r. total * r.distributed ≤ remaining * exact_weight (s ∷ ss)) remaining
        total floor s (exact_round remaining total floor ss) (λ e. rw e rest)
        (λ e h.
          rw e (dist-step total _ _ _ remaining s.node.configured_mib rest (omega (arith, h))))
        (λ e h. rw e (dist-step total _ _ _ remaining s.node.configured_mib rest (omega arith)))
