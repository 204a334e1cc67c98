-- ===== src/Cluster/Subnet/Apart.antt =====
-- What it means that two networks do not overlap.
use native.Mathlib.Nat.{div-div-eq-div-mul, mul-div_cancel}
use talos_box.Base.{
  ℕ, zero, suc, ◌-◌, ◌*◌, ◌/◌, ◌^◌, ◌<◌, false, ◌==◌, ◌≡◌, ◌≢◌, ◌⊎◌, refl, sym, ◌∙◌, ap, arith, inl,
  inr, or-false,
}
use talos_box.Cluster.Subnet.{
  HostAddress, host_network, networks_overlap, subnet_address, subnet_network,
}

-- An address lies in the subnet of an index, or in the network of a host's address.
abbrev pub InSubnet : ℕ → ℕ → Type 0
InSubnet index x = x / 256 ≡ subnet_address index 0 / 256

abbrev pub InNetworkOf : HostAddress → ℕ → Type 0
InNetworkOf a x = x / 2 ^ (32 - a.prefix) ≡ a.address / 2 ^ (32 - a.prefix)

-- Of the sizes 2 ^ w and 256 one divides the other.
sizes : (w : ℕ) → ((k : ℕ) × (2 ^ w ≡ 256 * k)) ⊎ ((k : ℕ) × (256 ≡ 2 ^ w * k))
sizes zero = inr (256, refl)
sizes (suc zero) = inr (128, refl)
sizes (suc (suc zero)) = inr (64, refl)
sizes (suc (suc (suc zero))) = inr (32, refl)
sizes (suc (suc (suc (suc zero)))) = inr (16, refl)
sizes (suc (suc (suc (suc (suc zero))))) = inr (8, refl)
sizes (suc (suc (suc (suc (suc (suc zero)))))) = inr (4, refl)
sizes (suc (suc (suc (suc (suc (suc (suc zero))))))) = inr (2, refl)
sizes (suc (suc (suc (suc (suc (suc (suc (suc w)))))))) = inl (2 ^ w, omega arith)

coarser : (x y m k : ℕ) → x / m ≡ y / m → x / (m * k) ≡ y / (m * k)
coarser x y m k e = sym (div-div-eq-div-mul x m k) ∙ ap (λ n. n / k) e ∙ div-div-eq-div-mul y m k

positive : (w : ℕ) → 0 < 2 ^ w
positive zero = omega arith
positive (suc w) = omega (arith, positive w)

different : (a b : ℕ) → (a == b) ≡ false → a ≢ b
different a b h = ground arith

-- The base of a host's network is in it.
base_in : (a : HostAddress) → InNetworkOf a (host_network a).base
base_in a = mul-div_cancel (a.address / 2 ^ (32 - a.prefix)) (positive (32 - a.prefix))

-- An address in both makes one of the two bases lie in the other network.
meet :
    (m subnet base address x : ℕ)
    → ((k : ℕ) × (m ≡ 256 * k)) ⊎ ((k : ℕ) × (256 ≡ m * k))
    → base / m ≡ address / m
    → x / 256 ≡ subnet / 256
    → x / m ≡ address / m
    → (base / 256 ≡ subnet / 256) ⊎ (subnet / m ≡ base / m)
meet m subnet base address x (inl (k, e)) b s n =
    inr (rw (e) (sym (coarser x subnet 256 k s)) ∙ n ∙ sym b)
meet m subnet base address x (inr (k, e)) b s n =
    inl (rw (e) (sym (coarser x base m k (n ∙ sym b))) ∙ s)

-- Where the two networks do not overlap, no address lies in both.
pub networks_overlap-apart :
    (index : ℕ) (a : HostAddress)
    → networks_overlap (subnet_network index) (host_network a) ≡ false
    → (x : ℕ) → InSubnet index x
    → ¬ (InNetworkOf a x)
unfolding networks_overlap
networks_overlap-apart index a h x s n =
    let m = 2 ^ (32 - a.prefix) in
    let base = (host_network a).base in
    let subnet = subnet_address index 0 in
    let tests = or-false {a = base / 256 == subnet / 256} {b = subnet / m == base / m} h in
    elim (meet m subnet base a.address x (sizes (32 - a.prefix)) (base_in a) s n) [
      | inl e ↦ different (base / 256) (subnet / 256) (tests.0) e
      | inr e ↦ different (subnet / m) (base / m) (tests.1) e
    ]
