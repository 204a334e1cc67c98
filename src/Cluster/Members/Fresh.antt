-- ===== src/Cluster/Members/Fresh.antt =====
-- The names that `AddNode` generates.
use talos_box.Base.{
  ℕ, ◌+◌, ◌^◌, ◌-◌, ◌<◌, ◌≤◌, false, Option, none, some, List, [], ◌∷◌, ◌++◌, ◌≡◌, ◌≢◌, refl, sym,
  ◌∙◌, ap, subst, arith, Bytes, All,
}
use talos_box.Text.{ℤ, pos, negsuc, itoa, itoa_int, cut_prefix, contains}
use talos_box.Text.Decimal.{atoi-itoa}
use talos_box.Text.Sets.{not-contains}
use talos_box.Cluster.Node.{Role, Node}
use talos_box.Cluster.Members.{
  names, index_of, atoi_rest, larger, max_index, succ_int64, next_node_name, role_prefix,
}

cut_prefix-append : (p s : Bytes) → cut_prefix p (p ++ s) ≡ some s
unfolding cut_prefix
cut_prefix-append [] s = refl
cut_prefix-append (c ∷ p) s = ground (arith, cut_prefix-append p s)

index_of-numbered : (p : Bytes) (i : ℕ) → i < 2 ^ 63 → index_of p (p ++ itoa i) ≡ some (pos i)
unfolding index_of
index_of-numbered p i h = ap atoi_rest (cut_prefix-append p (itoa i)) ∙ atoi-itoa i h

larger_ge : (o : Option ℤ) (best : ℕ) → best ≤ larger o best
larger_ge none best = omega arith
larger_ge (some (pos i)) best = ground arith
larger_ge (some (negsuc i)) best = omega arith

max_index_ge : (p : Bytes) (ns : List Node) (best : ℕ) → best ≤ max_index p ns best
unfolding max_index
max_index_ge p [] best = omega arith
max_index_ge p (n ∷ ns) best =
    omega (
      arith,
      larger_ge (index_of p n.name) best,
      max_index_ge p ns (larger (index_of p n.name) best),
    )

larger_pos : (i best : ℕ) → i ≤ larger (some (pos i)) best
larger_pos i best = ground arith

-- A name that carries a number above the largest index is no node's.
above-absent :
    (p : Bytes) (ns : List Node) (best i : ℕ)
    → i < 2 ^ 63
    → max_index p ns best < i
    → All (λ t. t ≢ p ++ itoa i) (names ns)
unfolding max_index
above-absent p [] best i small above = tt
above-absent p (n ∷ ns) best i small above = (
  λ e.
      let found = ap (index_of p) e ∙ index_of-numbered p i small in
      let at_least = subst (λ o. i ≤ larger o best) (sym found) (larger_pos i best) in
      omega (arith, at_least, above, max_index_ge p ns (larger (index_of p n.name) best)),
  above-absent p ns (larger (index_of p n.name) best) i small above,
)

no-wrap : (m : ℕ) → m < 2 ^ 63 - 1 → succ_int64 m ≡ pos (m + 1)
no-wrap m h = ground arith

printed : (p : Bytes) (i : ℕ) → p ++ itoa_int (pos i) ≡ p ++ itoa i
unfolding itoa_int
printed p i = refl

-- The generated name is the prefix of the role and one more than the largest index in use, and no
-- node has it, where that index is below the largest `int`.
pub next_node_name-fresh :
    (cluster_name : Bytes) (ns : List Node) (role : Role)
    → max_index (role_prefix cluster_name role) ns 0 < 2 ^ 63 - 1
    → (next_node_name cluster_name ns role
        ≡ role_prefix cluster_name role
          ++ itoa (max_index (role_prefix cluster_name role) ns 0 + 1))
      × (contains (names ns) (next_node_name cluster_name ns role) ≡ false)
unfolding next_node_name
next_node_name-fresh cluster_name ns role h =
    let p = role_prefix cluster_name role in
    let m = max_index p ns 0 in
    let e = ap (λ z. p ++ itoa_int z) (no-wrap m h) ∙ printed p (m + 1) in
    (
      e,
      (not-contains (names ns) _).1 (
          subst (λ s. All (λ t. t ≢ s) (names ns)) (sym e)
            (above-absent p ns 0 (m + 1) (omega arith) (omega arith))),
    )
