-- ===== src/Router/Frame/Options.antt =====
-- The loop over the DHCP options ends.
use talos_box.Base.{
  ℕ, zero, suc, ◌≤◌, Option, some, [], ◌∷◌, Bytes, length, drop, take, byte_at, ◌≡◌, refl, arith,
  ltb, ◌==◌, Bool-cases, inl, inr, length-drop,
}
use talos_box.Router.Frame.{DhcpRequest, dhcp_option, dhcp_options}

-- With any two amounts of fuel that are at least the number of bytes left, the loop returns, and it
-- returns the same: it ends, and it ends before the fuel does.
pub dhcp_options_total :
    (f g : ℕ) (s : Bytes) (r : DhcpRequest)
    → length s ≤ f
    → length s ≤ g
    → (o : Option DhcpRequest) × (dhcp_options f s r ≡ some o) × (dhcp_options g s r ≡ some o)
unfolding dhcp_options
dhcp_options_total f g [] r hf hg = (_, refl, refl)
dhcp_options_total zero g (c ∷ s) r hf hg = absurd (omega (arith, hf))
dhcp_options_total (suc f) zero (c ∷ s) r hf hg = absurd (omega (arith, hg))
dhcp_options_total (suc f) (suc g) (c ∷ s) r hf hg =
    let len = byte_at s 0 in
    let rest = drop 1 s in
    let pad = dhcp_options_total f g s r (omega (arith, hf)) (omega (arith, hg)) in
    let shorter = length-drop len rest in
    let next =
      dhcp_options_total f g (drop len rest) (dhcp_option c (take len rest) r)
        (omega (arith, hf, shorter, length-drop 1 s))
        (omega (arith, hg, shorter, length-drop 1 s)) in
    elim (Bool-cases (c == 0)) [
      | inl e ↦ rw e pad
      | inr e ↦ elim (Bool-cases (c == 255)) [
        | inl x ↦ rw (e, x) (_, refl, refl)
        | inr x ↦ elim (Bool-cases (length s == 0)) [
          | inl y ↦ rw (e, x, y) (_, refl, refl)
          | inr y ↦ elim (Bool-cases (ltb (length rest) len)) [
            | inl z ↦ rw (e, x, y, z) (_, refl, refl)
            | inr z ↦ rw (e, x, y, z) next
          ]
        ]
      ]
    ]
