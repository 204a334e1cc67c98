-- ===== src/Pressure/Provision/Admits.antt =====
-- What the provision-start gate guarantees.
use talos_box.Base.{
  ℕ, ◌-◌, ◌^◌, leb, if◌then◌else◌, sub_int, le_int, ◌+◌, ◌≤◌, ◌<◌, false, ◌||◌, ◌++◌, ltb, ◌==◌,
  ◌≡◌, refl, sym, ◌∙◌, ap, arith, Bool-cases, or-false, inl, inr,
}
use talos_box.Pressure.Assess.{blocks, block, headroom}
use talos_box.Pressure.Assess.Blocks.{blocks-append}
use talos_box.Pressure.Provision.{
  ProvisionStart, assess_provision_start, headroom_rule, shortfall_mib, swap_rule, swap_blocks,
  weigh, plan_reclaim, plan_finding,
}

-- The readings and what is asked for stay below 2 ^ 63, the sum of reserve and new guests included.
pub record Fits (i : ProvisionStart) : Type 0 where
  pub demand_fits : i.reserve_mib + i.new_vm_mib < 2 ^ 63
  pub free_fits : i.host_free_mib < 2 ^ 63
  pub reclaimable_fits : i.reclaimable_mib < 2 ^ 63

-- The shortfall, as the code computes it.
abbrev short_of : ℕ → ℕ → ℕ → ℕ
short_of reserve new free = sub_int reserve (sub_int free new)

le_int-short_of :
    (reserve new free most : ℕ)
    → reserve + new < 2 ^ 63
    → free < 2 ^ 63
    → most < 2 ^ 63
    → le_int (short_of reserve new free) most ≡ leb (reserve + new) (free + most)
unfolding le_int sub_int
le_int-short_of reserve new free most p q r = ground arith

short_of-exact :
    (reserve new free : ℕ)
    → reserve + new < 2 ^ 63
    → free < reserve + new
    → short_of reserve new free ≡ reserve + new - free
unfolding sub_int
short_of-exact reserve new free p q = omega arith

weigh-cases :
    (i : ProvisionStart)
    → Fits i
    → weigh i.reclaimable_mib (short_of i.reserve_mib i.new_vm_mib i.host_free_mib) ≡ (
        if leb (i.reserve_mib + i.new_vm_mib) (i.host_free_mib + 0)
        then plan_reclaim 0
        else if leb (i.reserve_mib + i.new_vm_mib) (i.host_free_mib + i.reclaimable_mib)
        then plan_reclaim (short_of i.reserve_mib i.new_vm_mib i.host_free_mib)
        else plan_finding record { severity = block; subject = headroom })
unfolding weigh
weigh-cases i v =
    rw
      (
        le_int-short_of i.reserve_mib i.new_vm_mib i.host_free_mib 0 v.demand_fits v.free_fits
            (omega arith),
        le_int-short_of i.reserve_mib i.new_vm_mib i.host_free_mib i.reclaimable_mib v.demand_fits
            v.free_fits v.reclaimable_fits,
      )
      refl

weigh-admits :
    (i : ProvisionStart)
    → Fits i
    → let w = weigh i.reclaimable_mib (short_of i.reserve_mib i.new_vm_mib i.host_free_mib) in
      blocks w.findings ≡ false
      → (i.reserve_mib + i.new_vm_mib ≤ i.host_free_mib + w.reclaim_mib)
        × (w.reclaim_mib ≤ i.reclaimable_mib)
weigh-admits i v h = ground (
  arith,
  weigh-cases i v,
  v.demand_fits,
  short_of-exact i.reserve_mib i.new_vm_mib i.host_free_mib v.demand_fits,
)

weigh-blocks :
    (i : ProvisionStart)
    → Fits i
    → blocks
        (weigh i.reclaimable_mib (short_of i.reserve_mib i.new_vm_mib i.host_free_mib)).findings
      ≡ ltb (i.host_free_mib + i.reclaimable_mib) (i.reserve_mib + i.new_vm_mib)
weigh-blocks i v = ground (arith, weigh-cases i v)

not-zero : {n : ℕ} → 0 < n → (n == 0) ≡ false
not-zero h = ground arith

gate-rules :
    (i : ProvisionStart)
    → 0 < i.running_vm_mib
    → 0 < i.new_vm_mib
    → 0 < i.host_free_mib
    → let w = weigh i.reclaimable_mib (short_of i.reserve_mib i.new_vm_mib i.host_free_mib) in
      assess_provision_start i
      ≡ record { findings = w.findings ++ swap_rule i; reclaim_mib = w.reclaim_mib }
unfolding assess_provision_start headroom_rule shortfall_mib
gate-rules i p q r = rw (not-zero p, not-zero q, not-zero r) refl

blocks-swap_rule : (i : ProvisionStart) → blocks (swap_rule i) ≡ swap_blocks i
unfolding swap_rule
blocks-swap_rule i = elim (Bool-cases (swap_blocks i)) [ inl e ↦ rw (e) refl | inr e ↦ rw (e) refl ]

-- With guests running, guests to start, a reading of free memory, and amounts that do not wrap (the
-- reserve and the new guests together below 2 ^ 63), the gate blocks exactly if
-- free memory and all that can be reclaimed do not cover the reserve and the new guests, or the
-- swap rule fires.
pub blocks-assess_provision_start :
    (i : ProvisionStart)
    → 0 < i.running_vm_mib
    → 0 < i.new_vm_mib
    → 0 < i.host_free_mib
    → Fits i
    → blocks (assess_provision_start i).findings
      ≡ (ltb (i.host_free_mib + i.reclaimable_mib) (i.reserve_mib + i.new_vm_mib) || swap_blocks i)
blocks-assess_provision_start i p q r v =
    let w = weigh i.reclaimable_mib (short_of i.reserve_mib i.new_vm_mib i.host_free_mib) in
    rw (gate-rules i p q r)
      (blocks-append w.findings (swap_rule i) ∙ rw (weigh-blocks i v, blocks-swap_rule i) refl)

-- Where the gate does not block such a start, the same amounts not wrapping, free memory and what it asks the caller to reclaim
-- cover the reserve and the new guests, and it asks for no more than can be reclaimed.
pub assess_provision_start-admits :
    (i : ProvisionStart)
    → 0 < i.running_vm_mib
    → 0 < i.new_vm_mib
    → 0 < i.host_free_mib
    → Fits i
    → blocks (assess_provision_start i).findings ≡ false
    → (i.reserve_mib + i.new_vm_mib ≤ i.host_free_mib + (assess_provision_start i).reclaim_mib)
      × ((assess_provision_start i).reclaim_mib ≤ i.reclaimable_mib)
assess_provision_start-admits i p q r v h =
    let w = weigh i.reclaimable_mib (short_of i.reserve_mib i.new_vm_mib i.host_free_mib) in
    let free = ap (λ plan. blocks plan.findings) (sym (gate-rules i p q r)) ∙ h in
    rw (gate-rules i p q r)
      (weigh-admits i v (or-false (sym (blocks-append w.findings (swap_rule i)) ∙ free)).0)
