-- ===== src/Router/State/Invariant.antt =====
-- What holds of the router between two operations, and that each learning step keeps it.
use talos_box.Base.{
  ℕ, ◌≤◌, true, false, some, Bytes, ◌≡◌, refl, arith, inl, inr, Bool-cases, Option-cases, ap,
}
use talos_box.Net.{Ip}
use talos_box.Router.Addr.{is_node_ip, is_vip, is_owned_talosbox_ip, is_unicast_mac}
use talos_box.Router.State.{
  Port, Router, new_frame_router, add_port, remove_port, accept_source_mac, learn_node_ip,
  learn_vip_ip, set_port, owned_by_other, same_ip,
}

pub record Inv (r : Router) : Type 0 where
  -- an address is owned by an attached port, which lists it
  pub owner_live : (x : Ip) (n : ℕ) → r.ip_to_port x ≡ some n → r.ports n ≡ true
  pub owner_lists : (x : Ip) (n : ℕ) → r.ip_to_port x ≡ some n → (r.port n).ips x ≡ true
  -- it is a node or virtual address of the port's own subnet
  pub owner_in_subnet :
      (x : Ip) (n : ℕ)
      → r.ip_to_port x ≡ some n
      → is_owned_talosbox_ip (some x) (r.port n).subnet ≡ true
  -- an attached port owns the node address that it has, and no other node address
  pub node_owned :
      (n : ℕ) (x : Ip) → r.ports n ≡ true → (r.port n).node_ip ≡ some x → r.ip_to_port x ≡ some n
  pub node_in_subnet :
      (n : ℕ) (x : Ip)
      → r.ports n ≡ true
      → (r.port n).node_ip ≡ some x
      → is_node_ip (some x) (r.port n).subnet ≡ true
  pub one_node :
      (x : Ip) (n : ℕ)
      → r.ip_to_port x ≡ some n
      → is_node_ip (some x) (r.port n).subnet ≡ true
      → (r.port n).node_ip ≡ some x
  -- port numbers are handed out in order, and an attached port is open
  pub numbered : (n : ℕ) → r.ports n ≡ true → n ≤ r.next_port
  pub live_open : (n : ℕ) → r.ports n ≡ true → (r.port n).closed ≡ false
  pub mac_unicast : (n : ℕ) (m : Bytes) → (r.port n).mac ≡ some m → is_unicast_mac m ≡ true

-- A node address is no virtual address of any subnet.
pub node_not_vip : (x : Ip) (s t : ℕ) → is_node_ip (some x) s ≡ true → is_vip (some x) t ≡ false
unfolding is_node_ip is_vip
node_not_vip x s t h = ground arith

-- The router starts with the invariant.
pub new_frame_router-Inv : Inv new_frame_router
unfolding new_frame_router
new_frame_router-Inv = record {
  owner_live = λ x n h. cc;
  owner_lists = λ x n h. cc;
  owner_in_subnet = λ x n h. cc;
  node_owned = λ n x h. cc;
  node_in_subnet = λ n x h. cc;
  one_node = λ x n h. cc;
  numbered = λ n h. cc;
  live_open = λ n h. refl;
  mac_unicast = λ n m h. cc;
}

-- Attaching a port keeps the invariant.
pub add_port-Inv : (subnet : ℕ) (r : Router) → Inv r → Inv (add_port subnet r).0
unfolding add_port
add_port-Inv subnet r v = record {
  owner_live = λ x n h. ground (arith, v.owner_live x n h);
  owner_lists = λ x n h. ground (arith, v.owner_lists x n h, v.owner_live x n h, v.numbered n);
  owner_in_subnet =
      λ x n h. ground (arith, v.owner_in_subnet x n h, v.owner_live x n h, v.numbered n);
  node_owned = λ n x l h. ground (arith, v.node_owned n x);
  node_in_subnet = λ n x l h. ground (arith, v.node_in_subnet n x);
  one_node = λ x n h i. ground (arith, v.one_node x n h, v.owner_live x n h, v.numbered n);
  numbered = λ n h. ground (arith, v.numbered n);
  live_open = λ n h. ground (arith, v.live_open n);
  mac_unicast = λ n m h. ground (arith, v.mac_unicast n m);
}

-- Detaching a port keeps the invariant.
pub remove_port-Inv : (k : ℕ) (r : Router) → Inv r → Inv (remove_port k r)
unfolding remove_port
remove_port-Inv k r v = elim (Bool-cases (r.ports k)) [
  | inr e ↦ rw e v
  | inl e ↦ rw e (record {
    owner_live = λ x n h. ground (arith, v.owner_live x n, v.owner_lists x n);
    owner_lists = λ x n h. ground (arith, v.owner_lists x n);
    owner_in_subnet = λ x n h. ground (arith, v.owner_in_subnet x n);
    node_owned = λ n x l h. ground (arith, v.node_owned n x);
    node_in_subnet = λ n x l h. ground (arith, v.node_in_subnet n x);
    one_node = λ x n h i. ground (arith, v.one_node x n);
    numbered = λ n h. ground (arith, v.numbered n);
    live_open = λ n h. ground (arith, v.live_open n);
    mac_unicast = λ n m h. ground (arith, v.mac_unicast n m);
  })
]

-- Changing the MAC or the gateway of a port alone keeps the invariant.
pub set_port-Inv :
    (k : ℕ) (p : Port) (r : Router)
    → p.subnet ≡ (r.port k).subnet
    → p.closed ≡ (r.port k).closed
    → p.node_ip ≡ (r.port k).node_ip
    → p.ips ≡ (r.port k).ips
    → ((m : Bytes) → p.mac ≡ some m → is_unicast_mac m ≡ true)
    → Inv r
    → Inv (set_port r k p)
set_port-Inv k p r es ec en ei em v = record {
  owner_live = λ x n h. ground (arith, v.owner_live x n h);
  owner_lists = λ x n h. ground (arith, v.owner_lists x n h, ap (λ f. f x) ei);
  owner_in_subnet = λ x n h. ground (arith, v.owner_in_subnet x n h);
  node_owned = λ n x l h. ground (arith, v.node_owned n x);
  node_in_subnet = λ n x l h. ground (arith, v.node_in_subnet n x);
  one_node = λ x n h i. ground (arith, v.one_node x n);
  numbered = λ n h. ground (arith, v.numbered n);
  live_open = λ n h. ground (arith, v.live_open n);
  mac_unicast = λ n m h. ground (arith, v.mac_unicast n m, em m);
}

-- Pinning a source address keeps the invariant.
pub accept_source_mac-Inv :
    (k : ℕ) (mac : Bytes) (r : Router) → Inv r → Inv (accept_source_mac k mac r).0
unfolding accept_source_mac
accept_source_mac-Inv k mac r v = elim (Bool-cases (is_unicast_mac mac)) [
  | inr e ↦ rw e v
  | inl e ↦ elim (Option-cases (r.port k).mac) [
    | inr (m, f) ↦ rw (e, f) v
    | inl f ↦ rw (e, f) (set_port-Inv k _ r refl refl refl refl (λ m h. ground arith) v)
  ]
]

-- Learning a virtual address keeps the invariant.
pub learn_vip_ip-Inv :
    (k : ℕ) (y : Ip) (r : Router) → r.ports k ≡ true → Inv r → Inv (learn_vip_ip k y r)
unfolding learn_vip_ip is_owned_talosbox_ip
learn_vip_ip-Inv k y r live v = elim (Bool-cases (is_vip (some y) (r.port k).subnet)) [
  | inr e ↦ rw e v
  | inl e ↦ elim (Option-cases (r.ip_to_port y)) [
    | inl f ↦
        rw (e, f)
          (record {
            owner_live = λ x n h. ground (arith, v.owner_live x n);
            owner_lists = λ x n h. ground (arith, v.owner_lists x n);
            owner_in_subnet = λ x n h. ground (arith, v.owner_in_subnet x n);
            node_owned = λ n x l h. ground (arith, v.node_owned n x);
            node_in_subnet = λ n x l h. ground (arith, v.node_in_subnet n x);
            one_node = λ x n h i.
                ground (arith, v.one_node x n, node_not_vip x (r.port n).subnet (r.port k).subnet);
            numbered = λ n h. ground (arith, v.numbered n);
            live_open = λ n h. ground (arith, v.live_open n);
            mac_unicast = λ n m h. ground (arith, v.mac_unicast n m);
          })
    | inr (o, f) ↦
        rw (e, f)
          (record {
            owner_live = λ x n h. ground (arith, v.owner_live x n);
            owner_lists = λ x n h. ground (arith, v.owner_lists x n);
            owner_in_subnet = λ x n h. ground (arith, v.owner_in_subnet x n);
            node_owned = λ n x l h. ground (
              arith,
              v.node_owned n x,
              v.node_in_subnet n x,
              node_not_vip x (r.port n).subnet (r.port k).subnet,
            );
            node_in_subnet = λ n x l h. ground (arith, v.node_in_subnet n x);
            one_node = λ x n h i.
                ground (arith, v.one_node x n, node_not_vip x (r.port n).subnet (r.port k).subnet);
            numbered = λ n h. ground (arith, v.numbered n);
            live_open = λ n h. ground (arith, v.live_open n);
            mac_unicast = λ n m h. ground (arith, v.mac_unicast n m);
          })
  ]
]

-- Learning a node address keeps the invariant.
pub learn_node_ip-Inv :
    (k : ℕ) (y : Ip) (r : Router) → r.ports k ≡ true → Inv r → Inv (learn_node_ip k y r)
unfolding learn_node_ip is_owned_talosbox_ip
learn_node_ip-Inv k y r live v = elim (Bool-cases (is_node_ip (some y) (r.port k).subnet)) [
  | inr a ↦ rw a v
  | inl a ↦ elim (Bool-cases (same_ip (r.port k).node_ip y)) [
    | inl b ↦ rw (a, b) v
    | inr b ↦ elim (Bool-cases (owned_by_other (r.ip_to_port y) k)) [
      | inl c ↦ rw (a, b, c) v
      | inr c ↦ elim (Option-cases (r.port k).node_ip) [
        | inl d ↦
            rw (a, b, c, d)
              (record {
                owner_live = λ x n h. ground (arith, v.owner_live x n);
                owner_lists = λ x n h. ground (arith, v.owner_lists x n, v.one_node x n);
                owner_in_subnet = λ x n h. ground (arith, v.owner_in_subnet x n);
                node_owned = λ n x l h. ground (arith, v.node_owned n x);
                node_in_subnet = λ n x l h. ground (arith, v.node_in_subnet n x);
                one_node = λ x n h i. ground (arith, v.one_node x n);
                numbered = λ n h. ground (arith, v.numbered n);
                live_open = λ n h. ground (arith, v.live_open n);
                mac_unicast = λ n m h. ground (arith, v.mac_unicast n m);
              })
        | inr (old, d) ↦
            rw (a, b, c, d)
              (record {
                owner_live = λ x n h. ground (arith, v.owner_live x n);
                owner_lists = λ x n h. ground (arith, v.owner_lists x n, v.node_owned k old live d);
                owner_in_subnet = λ x n h. ground (arith, v.owner_in_subnet x n);
                node_owned = λ n x l h.
                    ground (arith, v.node_owned n x, v.node_owned k old, v.node_owned n old);
                node_in_subnet = λ n x l h. ground (arith, v.node_in_subnet n x);
                one_node = λ x n h i. ground (arith, v.one_node x n);
                numbered = λ n h. ground (arith, v.numbered n);
                live_open = λ n h. ground (arith, v.live_open n);
                mac_unicast = λ n m h. ground (arith, v.mac_unicast n m);
              })
      ]
    ]
  ]
]
