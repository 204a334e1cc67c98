-- ===== src/Cluster/Intent/Valid.antt =====
-- The intents that parsing lets through.
use talos_box.Base.{
  none≢some, Bool, true, false, not, ◌&&◌, ◌||◌, none, some, if◌then◌else◌, ◌≡◌, ◌⊎◌, ◌↔◌, refl,
  sym, ◌∙◌, ap, subst, Bool-cases, inl, inr, arith,
}
use talos_box.Cluster.Reserve.{is_nil}
use talos_box.Cluster.Intent.{
  Intent, IntentInput, no_intent, no_input, or_else, known_cni, known_csi, is_cilium, conflicting,
  defaulted, full_input, any_given, parse_intent, input,
}

-- Substrate only, or a known CNI and CSI, BGP only with a load balancer, BGP and Hubble only with
-- Cilium.
abbrev pub IsValid : Intent → Type 0
IsValid j =
    (j ≡ no_intent)
    ⊎ ((is_nil j.cni ≡ false)
        × (known_cni j.cni ≡ true)
        × (known_csi j.csi ≡ true)
        × ((j.bgp ≡ false) ⊎ ((j.lb ≡ true) × (is_cilium j.cni ≡ true)))
        × ((j.hubble ≡ false) ⊎ (is_cilium j.cni ≡ true)))

some-inj {ℓ} : {A : Type ℓ} {x y : A} → some x ≡ some y → x ≡ y
some-inj e = cc

rules :
    (bgp lb hubble cilium : Bool)
    → (((bgp && not lb) || ((bgp && not cilium) || (hubble && not cilium))) ≡ false)
      ↔ (((bgp ≡ false) ⊎ ((lb ≡ true) × (cilium ≡ true))) × ((hubble ≡ false) ⊎ (cilium ≡ true)))
rules bgp lb hubble cilium = ground arith

no-conflict :
    (j : Intent)
    → (conflicting j ≡ false) ↔ (
        ((j.bgp ≡ false) ⊎ ((j.lb ≡ true) × (is_cilium j.cni ≡ true)))
        × ((j.hubble ≡ false) ⊎ (is_cilium j.cni ≡ true)))
unfolding conflicting
no-conflict j = rules j.bgp j.lb j.hubble (is_cilium j.cni)

-- Whatever parsing returns is valid.
pub parse_intent-IsValid : (i : IntentInput) (j : Intent) → parse_intent i ≡ some j → IsValid j
unfolding parse_intent
parse_intent-IsValid i j e = elim (Bool-cases (is_nil i.cni)) [
  | inl f ↦ elim (Bool-cases (any_given i)) [
    | inl g ↦ absurd (none≢some (rw (f, g) at e))
    | inr g ↦ inl (sym (some-inj (rw (f, g) at e)))
  ]
  | inr f ↦ elim (Bool-cases (known_cni i.cni)) [
    | inr g ↦ absurd (none≢some (rw (f, g) at e))
    | inl g ↦ elim (Bool-cases (known_csi i.csi)) [
      | inr h ↦ absurd (none≢some (rw (f, g, h) at e))
      | inl h ↦ elim (Bool-cases (conflicting (defaulted i))) [
        | inl k ↦ absurd (none≢some (rw (f, g, h, k) at e))
        | inr k ↦ subst IsValid (some-inj (rw (f, g, h, k) at e)) (
            inr (f, g, h, ((no-conflict (defaulted i)).0 k).0, ((no-conflict (defaulted i)).0 k).1))
      ]
    ]
  ]
]

knob : (b : Bool) → not (or_else (if b then some false else none) true) ≡ b
knob true = refl
knob false = refl

defaulted-full_input : (j : Intent) → defaulted (full_input j) ≡ j
defaulted-full_input j =
    ap (λ b. record j { disable_kubelet_memory_protection = b })
      (knob j.disable_kubelet_memory_protection)

accepted :
    (i : IntentInput)
    → is_nil i.cni ≡ false
    → known_cni i.cni ≡ true
    → known_csi i.csi ≡ true
    → conflicting (defaulted i) ≡ false
    → parse_intent i ≡ some (defaulted i)
unfolding parse_intent
accepted i f g h k = rw (f, g, h, k) refl

input-full : (j : Intent) → is_nil j.cni ≡ false → input j ≡ full_input j
unfolding input
input-full j f = ap (λ b. if b then no_input else full_input j) f

-- A valid intent, written as an input and parsed, is itself.
pub parse_intent-input : (j : Intent) → IsValid j → parse_intent (input j) ≡ some j
unfolding parse_intent input
parse_intent-input j (inl e) = subst (λ k. parse_intent (input k) ≡ some k) (sym e) refl
parse_intent-input j (inr (f, g, h, bgp, hubble)) =
    let k = (no-conflict j).1 (bgp, hubble) in
    let back = defaulted-full_input j in
    ap parse_intent (input-full j f)
    ∙ accepted (full_input j) f g h (subst (λ i. conflicting i ≡ false) (sym back) k)
    ∙ ap some back
