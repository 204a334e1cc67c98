-- ===== src/Balloon/Tests.antt =====
-- Targets of three nodes, one of which reaches the floor.
use talos_box.Base.{
  ℕ, arith, ◌-◌, ◌^◌, List, [], ◌∷◌, Option, some, codes, All, ◌≡◌, ◌≤◌, refl, map,
}
use talos_box.Balloon.{VmNode, Share, plan_targets, by_name}
use talos_box.Balloon.Bounds.{nodes, reclaimed}
use talos_box.Balloon.Ends.{Bounded}
use talos_box.Balloon.Agree.{Fits, plan_targets-bounds}

abbrev three : List VmNode
three =
    record { name = codes "cp"; configured_mib = 2048 }
    ∷ record { name = codes "b"; configured_mib = 6144 }
    ∷ record { name = codes "a"; configured_mib = 1100 }
    ∷ []

abbrev target_list : Option (List Share) → List ℕ
target_list (some ts) = map (λ s. s.target) ts
target_list Option.none = []

targets_test : target_list (plan_targets 3 three 3000 1024) ≡ 1024 ∷ 3951 ∷ 1317 ∷ []
unfolding plan_targets
targets_test = refl

three-Fits : Fits 3000 1024 three
three-Fits = record {
  deficit_fits = omega arith;
  floor_fits = omega arith;
  sizes_fit = omega arith;
  product_fits = omega arith;
}

-- A reserve of 2 ^ 63 - 1 with 4096 MiB free: the product wraps, and the target is above the size.
targets_wrap_test :
    target_list (
      plan_targets 1 (record { name = codes "a"; configured_mib = 4096 } ∷ []) (2 ^ 63 - 4097) 1024)
    ≡ 8193 ∷ []
unfolding plan_targets
targets_wrap_test = refl

plan_targets-bounds_example :
    (ts : List Share) × (plan_targets 3 three 3000 1024 ≡ some ts)
    × (nodes ts ≡ by_name three)
    × All (Bounded 1024) ts
    × (reclaimed ts ≤ 3000)
plan_targets-bounds_example = plan_targets-bounds three 3000 1024 three-Fits
