-- ===== src/Cluster/Subnet/Usable.antt =====
-- The subnet that is given to a new cluster.
use mathlib.Core.Bool.{true≢false}
use mathlib.Core.Option.{some_inj}
use talos_box.Base.{
  none≢some, ℕ, zero, suc, ◌+◌, ◌<◌, Bool, true, false, not, Option, some, List, [], ◌∷◌, Bytes,
  All, leb, if◌then◌else◌, length, get_elem?, set, length-set, replicate, ◌≡◌, ◌≢◌, ◌⊎◌, refl, sym,
  ◌∙◌, ap, subst, arith, Bool-cases, Option-cases, inl, inr,
}
use talos_box.Cluster.Node.{Cluster, max_subnet_index}
use talos_box.Cluster.Create.{mark_allocated, allocated_subnet_indexes}
use talos_box.Cluster.Subnet.{
  HostAddress, HostInterface, HostRoute, Inspection, networks_overlap, subnet_network, host_network,
  scan_addresses, scan_interfaces, inspect_subnet, lowest_usable_from, lowest_usable_subnet_index,
}
use talos_box.Cluster.Subnet.Apart.{InSubnet, InNetworkOf, networks_overlap-apart}

-- No address of the subnet lies in the network of an address of the interface.
abbrev pub Clear : ℕ → HostInterface → Type 0
Clear index i = All (λ a. (x : ℕ) → InSubnet index x → ¬ (InNetworkOf a x)) i.addrs

not-false : (b : Bool) → not b ≡ false → b ≡ true
not-false b e = ground arith

scan_addresses-All :
    (index : ℕ) (name : Bytes) (addrs : List HostAddress) (own more : List Bytes)
    → scan_addresses index false false name addrs own ≡ some more
    → All (λ a. (x : ℕ) → InSubnet index x → ¬ (InNetworkOf a x)) addrs
unfolding scan_addresses
scan_addresses-All index name [] own more e = tt
scan_addresses-All index name (a ∷ addrs) own more e =
    elim (Bool-cases (networks_overlap (subnet_network index) (host_network a))) [
      | inl f ↦ absurd (none≢some (rw (f) at e))
      | inr f ↦ (
        networks_overlap-apart index a f,
        scan_addresses-All index name addrs own more (rw (f) at e),
      )
    ]

scan_interfaces-Clear :
    (index : ℕ) (is : List HostInterface) (own more : List Bytes)
    → scan_interfaces index false false is own ≡ some more
    → All (Clear index) is
unfolding scan_interfaces
scan_interfaces-Clear index [] own more e = tt
scan_interfaces-Clear index (i ∷ is) own more e =
    elim (Option-cases (scan_addresses index false false i.name i.addrs own)) [
      | inl f ↦ absurd (none≢some (rw (f, scan_interfaces) at e))
      | inr (next, f) ↦ (
        scan_addresses-All index i.name i.addrs own next f,
        scan_interfaces-Clear index is next more (rw (f, scan_interfaces) at e),
      )
    ]

inspect_subnet-Clear :
    (index : ℕ) (is : List HostInterface) (route : ℕ → Option HostRoute)
    → inspect_subnet index is route false false ≢ Inspection.conflicting
    → All (Clear index) is
unfolding inspect_subnet
inspect_subnet-Clear index is route n =
    elim (Option-cases (scan_interfaces index false false is [])) [
      | inl f ↦ absurd (n (rw (f, inspect_subnet) refl))
      | inr (own, f) ↦ scan_interfaces-Clear index is [] own f
    ]

-- What is said of the index that is found, from an index on.
record Lowest (is : List HostInterface) (route : ℕ → Option HostRoute) (used : List Bool)
    (start index : ℕ) (warned : Bool) : Type 0 where
  offset : ℕ
  place : index ≡ start + offset
  free : get_elem? used offset ≡ some false
  inspected :
      inspect_subnet index is route false false
      ≡ (if warned then Inspection.warned else Inspection.clear)
  below :
      (j : ℕ)
      → j < offset
      → (get_elem? used j ≡ some true)
        ⊎ (inspect_subnet (start + j) is route false false ≡ Inspection.conflicting)

-- One index further on.
later :
    (is : List HostInterface) (route : ℕ → Option HostRoute) (used : List Bool) (start index : ℕ)
    (warned taken : Bool)
    → ((taken ≡ true) ⊎ (inspect_subnet start is route false false ≡ Inspection.conflicting))
    → Lowest is route used (suc start) index warned
    → Lowest is route (taken ∷ used) start index warned
later is route used start index warned taken h w = record {
  offset = suc w.offset;
  place = w.place ∙ omega arith;
  free = w.free;
  inspected = w.inspected;
  below = below;
}
  where
    below :
        (j : ℕ)
        → j < suc w.offset
        → (get_elem? (taken ∷ used) j ≡ some true)
          ⊎ (inspect_subnet (start + j) is route false false ≡ Inspection.conflicting)
    below zero k = elim h [
      | inl e ↦ inl (ap some e)
      | inr e ↦ inr (
          ap (λ n. inspect_subnet n is route false false) {x = start + 0} {y = start} (omega arith)
          ∙ e)
    ]
    below (suc j) k = elim (w.below j (omega (arith, k))) [
      | inl e ↦ inl e
      | inr e ↦ inr (
          ap (λ n. inspect_subnet n is route false false) {x = start + suc j} {y = suc start + j}
            (omega arith)
          ∙ e)
    ]

Inspection-cases :
    (v : Inspection)
    → (v ≡ Inspection.unreadable)
      ⊎ ((v ≡ Inspection.clear) ⊎ ((v ≡ Inspection.warned) ⊎ (v ≡ Inspection.conflicting)))
Inspection-cases Inspection.unreadable = inl refl
Inspection-cases Inspection.clear = inr (inl refl)
Inspection-cases Inspection.warned = inr (inr (inl refl))
Inspection-cases Inspection.conflicting = inr (inr (inr refl))

here :
    (is : List HostInterface) (route : ℕ → Option HostRoute) (used : List Bool) (start : ℕ)
    (b : Bool) (p : ℕ × Bool)
    → inspect_subnet start is route false false
      ≡ (if b then Inspection.warned else Inspection.clear)
    → some (start, b) ≡ some p
    → Lowest is route (false ∷ used) start p.0 p.1
here is route used start b p f e =
    subst (λ q. Lowest is route (false ∷ used) start q.0 q.1) (some_inj.0 e)
      record {
        offset = 0;
        place = omega arith;
        free = refl;
        inspected = f;
        below = λ j k. absurd (omega (arith, k));
      }

lowest_usable_from-Lowest :
    (is : List HostInterface) (route : ℕ → Option HostRoute) (used : List Bool) (start : ℕ)
    (p : ℕ × Bool)
    → lowest_usable_from is route used start ≡ some p
    → Lowest is route used start p.0 p.1
unfolding lowest_usable_from
lowest_usable_from-Lowest is route [] start p e = absurd (none≢some e)
lowest_usable_from-Lowest is route (true ∷ used) start p e =
    later is route used start p.0 p.1 true (inl refl)
      (lowest_usable_from-Lowest is route used (suc start) p e)
lowest_usable_from-Lowest is route (false ∷ used) start p e =
    elim (Inspection-cases (inspect_subnet start is route false false)) [
      | inl f ↦ absurd (none≢some (rw (f, lowest_usable_from) at e))
      | inr (inl f) ↦ here is route used start false p f (rw (f, lowest_usable_from) at e)
      | inr (inr (inl f)) ↦ here is route used start true p f (rw (f, lowest_usable_from) at e)
      | inr (inr (inr f)) ↦
          later is route used start p.0 p.1 false (inr f) (
            lowest_usable_from-Lowest is route used (suc start) p (rw (f, lowest_usable_from) at e))
    ]

set-false :
    (used : List Bool) (k i : ℕ)
    → get_elem? (set used k true) i ≡ some false
    → (k ≢ i) × (get_elem? used i ≡ some false)
set-false [] k i e = absurd cc
set-false (u ∷ used) zero zero e = absurd (true≢false (some_inj.0 e))
set-false (u ∷ used) zero (suc i) e = (λ h. omega (arith, h), e)
set-false (u ∷ used) (suc k) zero e = (λ h. omega (arith, h), e)
set-false (u ∷ used) (suc k) (suc i) e =
    let (n, f) = set-false used k i e in (λ h. n (omega (arith, h)), f)

get-length : (used : List Bool) (i : ℕ) (b : Bool) → get_elem? used i ≡ some b → i < length used
get-length [] i b e = absurd cc
get-length (u ∷ used) zero b e = omega arith
get-length (u ∷ used) (suc i) b e = omega (arith, get-length used i b e)

-- An index that is not marked belongs to no cluster.
mark_allocated-false :
    (cs : List Cluster) (used : List Bool) (i : ℕ)
    → length used ≡ max_subnet_index + 1
    → get_elem? (mark_allocated cs used) i ≡ some false
    → (get_elem? used i ≡ some false) × All (λ c. c.subnet_index ≢ i) cs
unfolding mark_allocated
mark_allocated-false [] used i h e = (e, tt)
mark_allocated-false (c ∷ cs) used i h e = elim (Bool-cases (leb c.subnet_index max_subnet_index)) [
  | inl f ↦
      let (g, all) =
        mark_allocated-false cs (set used c.subnet_index true) i
          (length-set used c.subnet_index true ∙ h) (rw (f) at e) in
      let (n, k) = set-false used c.subnet_index i g in (k, (n, all))
  | inr f ↦
      let (g, all) = mark_allocated-false cs used i h (rw (f) at e) in
      (g, (λ j. ground (arith, f, j, h, get-length used i false g), all))
]

length-replicate : (n : ℕ) → length (replicate n false) ≡ n
length-replicate zero = refl
length-replicate (suc n) = ap suc (length-replicate n)

-- The lowest usable subnet: it belongs to no cluster, it shares no address with the network of an
-- address of a host interface, its
-- route is no conflict, and every lower subnet is allocated or in conflict.
pub record Usable (clusters : List Cluster) (is : List HostInterface) (route : ℕ → Option HostRoute)
    (index : ℕ) : Type 0 where
  pub unallocated : All (λ c. c.subnet_index ≢ index) clusters
  pub clear : All (Clear index) is
  pub no_conflict : inspect_subnet index is route false false ≢ Inspection.conflicting
  pub lowest :
      (j : ℕ)
      → j < index
      → (get_elem? (allocated_subnet_indexes clusters) j ≡ some true)
        ⊎ (inspect_subnet j is route false false ≡ Inspection.conflicting)

if-ne : (b : Bool) → (if b then Inspection.warned else Inspection.clear) ≢ Inspection.conflicting
if-ne true e = cc
if-ne false e = cc

-- A subnet index that is returned for a new cluster belongs to no cluster, no address of its subnet
-- lies in the network of an address of a host interface, its inspection finds no conflict, and every lower index is
-- allocated or in conflict.
pub lowest_usable_subnet_index-Usable :
    (clusters : List Cluster) (is : List HostInterface) (route : ℕ → Option HostRoute)
    (p : ℕ × Bool)
    → lowest_usable_subnet_index clusters (record { interfaces = some is; route = route }) ≡ some p
    → Usable clusters is route p.0
unfolding lowest_usable_subnet_index allocated_subnet_indexes
lowest_usable_subnet_index-Usable clusters is route p e =
    let used = allocated_subnet_indexes clusters in
    let w = lowest_usable_from-Lowest is route used 0 p e in
    let at : p.0 ≡ w.offset = w.place ∙ omega arith in
    let free : get_elem? used p.0 ≡ some false = ap (get_elem? used) at ∙ w.free in
    let fine : inspect_subnet p.0 is route false false ≢ Inspection.conflicting =
      λ h. if-ne p.1 (sym w.inspected ∙ h) in
    record {
      unallocated =
          (mark_allocated-false clusters (replicate (max_subnet_index + 1) false) p.0
            (length-replicate (max_subnet_index + 1)) free).1;
      clear = inspect_subnet-Clear p.0 is route fine;
      no_conflict = fine;
      lowest = λ j k.
          subst
            (λ n.
              (get_elem? used j ≡ some true)
              ⊎ (inspect_subnet n is route false false ≡ Inspection.conflicting))
            {x = 0 + j} {y = j} (omega arith) (w.below j (omega (arith, at, k)));
    }
