-- ===== src/Pressure/Tests.antt =====
-- The gates on readings of a host.
use talos_box.Base.{◌-◌, ◌^◌, true, false, ◌≡◌, ◌≤◌, ◌+◌, ◌||◌, ltb, leb, refl, arith}
use talos_box.Pressure.Usage.{percent_used}
use talos_box.Pressure.Assess.{
  warning, normal, Snapshot, assess, blocks, swap_exhausted, swap_nearly_full,
  has_required_free_memory, memory_finding, memory_severity, volume_finding,
}
use talos_box.Pressure.Assess.Blocks.{refuses, blocks-assess, assess-monotone}
use talos_box.Pressure.Provision.{
  ProvisionStart, assess_provision_start, swap_blocks, headroom_rule, shortfall_mib, swap_rule,
  weigh,
}
use talos_box.Pressure.Provision.Admits.{
  Fits, blocks-assess_provision_start, assess_provision_start-admits,
}

-- 8 GiB of swap with about 1.2 GiB free, and a volume that is half full.
abbrev tight : Snapshot
tight = record {
  swap = record { total = 8589934592; available = 1288490188 };
  data_volume = record { total = 1000; available = 500 };
  memory_pressure = warning;
  free_memory_mib = 6000;
}

tight-blocks : blocks (assess tight 8000) ≡ true
unfolding assess memory_finding memory_severity volume_finding swap_exhausted swap_nearly_full
    has_required_free_memory percent_used
tight-blocks = refl

tight_passes : blocks (assess tight 5000) ≡ false
unfolding assess memory_finding memory_severity volume_finding swap_exhausted swap_nearly_full
    has_required_free_memory percent_used
tight_passes = refl

blocks-assess_example : blocks (assess tight 8000) ≡ (
    refuses warning
      (swap_exhausted tight)
      (swap_nearly_full tight)
      (has_required_free_memory tight 8000)
    || leb 95 (percent_used tight.data_volume))
blocks-assess_example = blocks-assess tight 8000

assess-monotone_example : blocks (assess (record tight { free_memory_mib = 9000 }) 4000) ≡ false
assess-monotone_example =
    assess-monotone tight 9000 5000 4000 (omega arith) (omega arith) tight_passes

-- A second cluster on a host that is short of 2048 MiB, which the first cluster can give back.
abbrev second : ProvisionStart
second = record {
  running_vm_mib = 12288;
  new_vm_mib = 6144;
  host_free_mib = 8192;
  host_total_mib = 32768;
  reserve_mib = 4096;
  reclaimable_mib = 3072;
  memory_pressure = normal;
  swap = record { total = 0; available = 0 };
}

second_passes : blocks (assess_provision_start second).findings ≡ false
unfolding assess_provision_start headroom_rule shortfall_mib swap_rule swap_blocks weigh
second_passes = refl

second-Fits : Fits second
second-Fits = record {
  demand_fits = omega arith;
  free_fits = omega arith;
  reclaimable_fits = omega arith;
}

-- With a reserve of 2 ^ 63 - 1 the shortfall wraps below 0, and the gate lets the start pass.
reserve_wraps :
    blocks
      (assess_provision_start (record second {
        reserve_mib = 2 ^ 63 - 1;
        host_free_mib = 4096;
        reclaimable_mib = 0;
      })).findings
    ≡ false
unfolding assess_provision_start headroom_rule shortfall_mib swap_rule swap_blocks weigh
reserve_wraps = refl

blocks-assess_provision_start_example :
    blocks (assess_provision_start second).findings ≡ (ltb 11264 10240 || swap_blocks second)
blocks-assess_provision_start_example =
    blocks-assess_provision_start second (omega arith) (omega arith) (omega arith) second-Fits

assess_provision_start-admits_example :
    (10240 ≤ 8192 + (assess_provision_start second).reclaim_mib)
    × ((assess_provision_start second).reclaim_mib ≤ 3072)
assess_provision_start-admits_example =
    assess_provision_start-admits second (omega arith) (omega arith) (omega arith) second-Fits
      second_passes
