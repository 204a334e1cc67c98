-- ===== src/Config/Size.antt =====
-- Sizes of memory and disks: `parseSizeMiB`, `sizeString` and `resolveNode`. An `int` has 64 bits.
pub mod Exact
use talos_box.Base.{
  ℕ, zero, suc, ◌+◌, ◌-◌, ◌*◌, ◌/◌, ◌%◌, ◌^◌, Bool, true, false, Option, none, some, List, [], ◌∷◌,
  ◌++◌, Bytes, codes, ltb, ◌==◌, if◌then◌else◌, ◌>>=◌, guard, length, take,
}
use talos_box.Text.{ℤ, pos, negsuc, negate, atoi, itoa}
use talos_box.Cluster.Reserve.{is_nil}
use talos_box.Dns.Resolve.{has_suffix}

-- A product of natural numbers as an `int`.
abbrev pub wrap : ℕ → ℤ
wrap k = let m = k % 2 ^ 64 in if ltb m (2 ^ 63) then pos m else negate (2 ^ 64 - m)

abbrev pub trim_suffix : Bytes → ℕ → Bytes
trim_suffix s n = take (length s - n) s

-- A positive number times its unit.
abbrev pub scaled : ℕ → Option ℤ → Option ℤ
scaled unit none = none
scaled unit (some (pos zero)) = none
scaled unit (some (pos (suc n))) = some (wrap (suc n * unit))
scaled unit (some (negsuc n)) = none

-- `parseSizeMiB`
unfoldable pub parse_size_mib : Bytes → Option ℤ
unfolding has_suffix atoi
parse_size_mib s =
    if has_suffix s (codes "GiB")
    then scaled 1024 (atoi (trim_suffix s 3))
    else if has_suffix s (codes "MiB")
    then scaled 1 (atoi (trim_suffix s 3))
    else none

-- `sizeString`, for a size that is not negative.
unfoldable pub size_string : ℕ → Bytes
unfolding itoa
size_string mib =
    if mib % 1024 == 0 then itoa (mib / 1024) ++ codes "GiB" else itoa mib ++ codes "MiB"

pub record NodeSizes : Type 0 where
  pub memory_mib : ℤ
  pub cpus : ℤ
  pub disk_gib : ℤ

pub record RawNode : Type 0 where
  pub memory : Bytes
  pub cpus : ℤ
  pub disk_size : Bytes

-- `defaultNode`
abbrev pub default_node : NodeSizes
default_node = record { memory_mib = pos 2048; cpus = pos 2; disk_gib = pos 20 }

-- Division as Go does it, towards 0, of a number that 1024 divides.
abbrev pub whole_gib : ℤ → Option ℤ
whole_gib (pos n) = guard (n % 1024 == 0) (some (pos (n / 1024)))
whole_gib (negsuc n) = guard ((n + 1) % 1024 == 0) (some (negate ((n + 1) / 1024)))

abbrev pub memory_or : ℤ → Bytes → Option ℤ
memory_or base s = if is_nil s then some base else parse_size_mib s

abbrev pub disk_or : ℤ → Bytes → Option ℤ
disk_or base s = if is_nil s then some base else (parse_size_mib s >>= whole_gib)

abbrev pub cpus_or : ℤ → ℤ → ℤ
cpus_or base (pos zero) = base
cpus_or base (pos (suc n)) = pos (suc n)
cpus_or base (negsuc n) = negsuc n

-- `resolveNode`
unfoldable pub resolve_node : NodeSizes → RawNode → Option NodeSizes
unfolding parse_size_mib
resolve_node base raw = memory_or base.memory_mib raw.memory >>= λ memory.
    disk_or base.disk_gib raw.disk_size >>= λ disk.
    some record { memory_mib = memory; cpus = cpus_or base.cpus raw.cpus; disk_gib = disk }
