-- ===== src/Balloon/Manager/Nodes.antt =====
-- What holds of all guests holds of those that a plan is for, in name order.
use mathlib.Core.List.{Memᴰ}
use native.Mathlib.Nat.{mul-le-mul_left}
use talos_box.Base.{ℕ, ◌≤◌, List, [], ◌∷◌, All, refl, arith, Bool-cases, inl, inr}
use talos_box.Balloon.{VmNode, by_name, insert, before}
use talos_box.Balloon.Agree.{Fits, total_size}
use talos_box.Balloon.Manager.{Manager}
use talos_box.Balloon.Manager.Poll.{active_nodes}

module _ (P : VmNode → Type 0) where
  All-insert : (n : VmNode) (ns : List VmNode) → P n → All P ns → All P (insert n ns)
  unfolding insert
  All-insert n [] h all = (h, all)
  All-insert n (m ∷ ms) h all = elim (Bool-cases (before m.name n.name)) [
    | inl e ↦ rw (e) (all.0, All-insert n ms h all.1)
    | inr e ↦ rw (e) (h, all)
  ]

  pub All-by_name : (ns : List VmNode) → All P ns → All P (by_name ns)
  unfolding by_name
  All-by_name [] all = all
  All-by_name (n ∷ ns) all = All-insert n (by_name ns) all.0 (All-by_name ns all.1)

  pub All-active_nodes : (m : Manager) (ns : List VmNode) → All P ns → All P (active_nodes m ns)
  unfolding active_nodes
  All-active_nodes m [] all = all
  All-active_nodes m (n ∷ ns) all = elim (Bool-cases (m.device_pending n.name)) [
    | inl e ↦ rw (e) (All-active_nodes m ns all.1)
    | inr e ↦ rw (e) (all.0, All-active_nodes m ns all.1)
  ]

pub All-mem :
    (xs ys : List VmNode) → ((v : VmNode) → Memᴰ v xs → Memᴰ v ys) → All (λ v. Memᴰ v ys) xs
All-mem [] ys f = tt
All-mem (x ∷ xs) ys f = (f x (Memᴰ.head refl), All-mem xs ys (λ v m. f v (Memᴰ.tail m)))

total_size-active_nodes :
    (m : Manager) (ns : List VmNode) → total_size (active_nodes m ns) ≤ total_size ns
unfolding active_nodes
total_size-active_nodes m [] = omega arith
total_size-active_nodes m (n ∷ ns) = elim (Bool-cases (m.device_pending n.name)) [
  | inl e ↦ rw (e) (omega (arith, total_size-active_nodes m ns))
  | inr e ↦ rw (e) (omega (arith, total_size-active_nodes m ns))
]

-- A plan for some of the guests wraps no sooner than one for all of them.
pub active_nodes-Fits :
    (m : Manager) (deficit floor_mib : ℕ) (ns : List VmNode)
    → Fits deficit floor_mib ns
    → Fits deficit floor_mib (active_nodes m ns)
active_nodes-Fits m deficit floor_mib ns v =
    let le = total_size-active_nodes m ns in
    let less = mul-le-mul_left deficit le in
    record {
      deficit_fits = v.deficit_fits;
      floor_fits = v.floor_fits;
      sizes_fit = omega (arith, le, v.sizes_fit);
      product_fits = omega (arith, less, v.product_fits);
    }
