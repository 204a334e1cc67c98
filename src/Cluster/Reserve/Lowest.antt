-- ===== src/Cluster/Reserve/Lowest.antt =====
-- The lowest free reservation.
use talos_box.Base.{
  ℕ, zero, suc, ◌+◌, ◌-◌, ◌<◌, ◌≤◌, true, false, none, some, List, [], ◌∷◌, Bytes, ◌≡◌, ◌≢◌, arith,
  Bool-cases, inl, inr, sym, subst, ℕ_discrete, All,
}
use talos_box.Text.{contains}
use talos_box.Cluster.Node.{reservation_ip, last_node_host, first_node_host}
use talos_box.Cluster.Reserve.{lowest_from, lowest_free_reservation}

some-inj {ℓ} : {A : Type ℓ} {x y : A} → some x ≡ some y → x ≡ y
some-inj e = cc

some-ne-none {ℓ} : {A : Type ℓ} {x : A} → some x ≢ none
some-ne-none e = cc

-- The host that the loop stops at, and that every host before it is taken.
record Lowest (subnet : ℕ) (used : List Bytes) (from to : ℕ) (address : Bytes) (host : ℕ)
    : Type 0 where
  in_range : (from ≤ host) × (host < to)
  given : address ≡ reservation_ip subnet host
  free : contains used address ≡ false
  least : (h : ℕ) → from ≤ h → h < host → contains used (reservation_ip subnet h) ≡ true

lowest_from-some :
    (subnet : ℕ) (used : List Bytes) (rounds host : ℕ) {address : Bytes}
    → lowest_from subnet used rounds host ≡ some address
    → (h : ℕ) × Lowest subnet used host (host + rounds) address h
unfolding lowest_from
lowest_from-some subnet used zero host e = absurd (cc)
lowest_from-some subnet used (suc rounds) host {address} e =
    elim (Bool-cases (contains used (reservation_ip subnet host))) [
      | inr free ↦ (
        host,
        record {
          in_range = omega arith;
          given = sym (some-inj (rw free at e));
          free = subst (λ a. contains used a ≡ false) (some-inj (rw free at e)) free;
          least = λ h p q. absurd (omega arith);
        },
      )
      | inl taken ↦
          let (h, l) = lowest_from-some subnet used rounds (host + 1) (rw taken at e) in
          (
            h,
            record {
              in_range = omega (arith, l.in_range);
              given = l.given;
              free = l.free;
              least = λ k p q. elim (ℕ_discrete host k) [
                | yes same_host ↦
                    subst (λ j. contains used (reservation_ip subnet j) ≡ true) same_host taken
                | no other ↦ l.least k (omega arith) q
              ];
            },
          )
    ]

lowest_from-none :
    (subnet : ℕ) (used : List Bytes) (rounds host : ℕ)
    → lowest_from subnet used rounds host ≡ none
    → (h : ℕ) → host ≤ h
    → h < host + rounds
    → contains used (reservation_ip subnet h) ≡ true
unfolding lowest_from
lowest_from-none subnet used zero host e h p q = absurd (omega arith)
lowest_from-none subnet used (suc rounds) host e h p q =
    elim (Bool-cases (contains used (reservation_ip subnet host))) [
      | inr free ↦ absurd (some-ne-none (rw free at e))
      | inl taken ↦ elim (ℕ_discrete host h) [
        | yes same_host ↦
            subst (λ j. contains used (reservation_ip subnet j) ≡ true) same_host taken
        | no other ↦
            lowest_from-none subnet used rounds (host + 1) (rw taken at e) h (omega arith)
              (omega arith)
      ]
    ]

-- The numbers below `n`.
abbrev pub below : ℕ → List ℕ
below zero = []
below (suc n) = n ∷ below n

All-below : (P : ℕ → Type 0) (n : ℕ) → ((k : ℕ) → k < n → P k) → All P (below n)
All-below P zero h = tt
All-below P (suc n) h = (h n (omega arith), All-below P n (λ k small. h k (omega arith)))

-- The reservation that is given out is the lowest one from 2 to 179 that is not in use.
pub lowest_free_reservation-some :
    (subnet : ℕ) (used : List Bytes) (a : Bytes)
    → lowest_free_reservation subnet used ≡ some a
    → (h : ℕ) × ((first_node_host ≤ h) × (h ≤ last_node_host))
      × (a ≡ reservation_ip subnet h)
      × (contains used a ≡ false)
      × All
          (λ k. contains used (reservation_ip subnet (first_node_host + k)) ≡ true)
          (below (h - first_node_host))
unfolding lowest_free_reservation
lowest_free_reservation-some subnet used a e =
    let (h, l) = lowest_from-some subnet used 178 2 e in
    (
      h,
      omega (arith, l.in_range),
      l.given,
      l.free,
      All-below (λ k. contains used (reservation_ip subnet (2 + k)) ≡ true) (h - 2)
          (λ k small. l.least (2 + k) (omega arith) (omega (arith, l.in_range))),
    )

-- There is none only if all the reservations from 2 to 179 are in use.
pub lowest_free_reservation-none :
    (subnet : ℕ) (used : List Bytes) (h : ℕ)
    → lowest_free_reservation subnet used ≡ none
    → first_node_host ≤ h
    → h ≤ last_node_host
    → contains used (reservation_ip subnet h) ≡ true
unfolding lowest_free_reservation
lowest_free_reservation-none subnet used h e p q =
    lowest_from-none subnet used 178 2 e h p (omega arith)
