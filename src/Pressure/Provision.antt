-- ===== src/Pressure/Provision.antt =====
-- `AssessProvisionStart` of internal/hostpressure/provision.go. Amounts of MiB are bit patterns of
-- Go's `int` that are not negative, and arithmetic on them wraps as it does there.
pub mod Admits
use talos_box.Base.{
  ℕ, ◌+◌, ◌-◌, ◌*◌, ◌^◌, Bool, true, false, not, ◌&&◌, ◌||◌, Option, none, some, List, [], ◌∷◌,
  ◌++◌, ltb, leb, ◌==◌, if◌then◌else◌, add_int, sub_int, mul_int, le_int,
}
use talos_box.Pressure.Usage.{Usage, percent_used, used_bytes}
use talos_box.Pressure.Assess.{
  MemoryPressure, unknown, normal, warning, critical, Severity, warn, block, Finding, headroom,
  swap,
}

pub record ProvisionStart : Type 0 where
  pub running_vm_mib : ℕ
  pub new_vm_mib : ℕ
  pub host_free_mib : ℕ
  pub host_total_mib : ℕ
  pub reserve_mib : ℕ
  pub reclaimable_mib : ℕ
  pub memory_pressure : MemoryPressure
  pub swap : Usage

pub record ProvisionStartPlan : Type 0 where
  pub findings : List Finding
  pub reclaim_mib : ℕ

-- `ProvisionStartShortfallMiB`
unfoldable pub shortfall_mib : ProvisionStart → ℕ
unfolding sub_int
shortfall_mib i =
    if i.running_vm_mib == 0 || (i.new_vm_mib == 0 || i.host_free_mib == 0)
    then 0
    else sub_int i.reserve_mib (sub_int i.host_free_mib i.new_vm_mib)

-- `provisionStartMemoryIsScarce`
unfoldable pub memory_is_scarce : ProvisionStart → Bool
unfolding mul_int le_int
memory_is_scarce i =
    i.host_free_mib == 0
    || (i.host_total_mib == 0 || not (le_int i.host_total_mib (mul_int i.host_free_mib 2)))

abbrev pub is_critical : MemoryPressure → Bool
is_critical critical = true
is_critical unknown = false
is_critical normal = false
is_critical warning = false

abbrev pub is_normal : MemoryPressure → Bool
is_normal normal = true
is_normal unknown = false
is_normal warning = false
is_normal critical = false

-- `swapBlocksProvisionStart`
unfoldable pub swap_blocks : ProvisionStart → Bool
unfolding memory_is_scarce add_int le_int
swap_blocks i =
    if i.swap.total == 0 || ltb (percent_used i.swap) 80
    then false
    else if is_critical i.memory_pressure
    then true
    else if ltb 0 i.host_free_mib && le_int (add_int i.reserve_mib i.new_vm_mib) i.host_free_mib
    then false
    else if not (is_normal i.memory_pressure)
    then true
    else leb (4 * 2 ^ 30) (used_bytes i.swap) && memory_is_scarce i

abbrev pub plan_reclaim : ℕ → ProvisionStartPlan
plan_reclaim n = record { findings = []; reclaim_mib = n }

abbrev pub plan_finding : Finding → ProvisionStartPlan
plan_finding f = record { findings = f ∷ []; reclaim_mib = 0 }

-- The headroom rule, on the shortfall.
unfoldable pub weigh : ℕ → ℕ → ProvisionStartPlan
unfolding le_int
weigh reclaimable shortfall =
    if le_int shortfall 0
    then plan_reclaim 0
    else if le_int shortfall reclaimable
    then plan_reclaim shortfall
    else plan_finding record { severity = block; subject = headroom }

unfoldable pub headroom_rule : ProvisionStart → ProvisionStartPlan
unfolding shortfall_mib weigh
headroom_rule i =
    if i.host_free_mib == 0 then plan_reclaim 0 else weigh i.reclaimable_mib (shortfall_mib i)

unfoldable pub swap_rule : ProvisionStart → List Finding
unfolding swap_blocks
swap_rule i = if swap_blocks i then record { severity = block; subject = swap } ∷ [] else []

-- `AssessProvisionStart`
unfoldable pub assess_provision_start : ProvisionStart → ProvisionStartPlan
unfolding headroom_rule swap_rule
assess_provision_start i =
    if i.running_vm_mib == 0 || i.new_vm_mib == 0
    then plan_reclaim 0
    else let p = headroom_rule i in
      record { findings = p.findings ++ swap_rule i; reclaim_mib = p.reclaim_mib }
