-- ===== src/Pressure/Assess.antt =====
-- `Assess` of internal/hostpressure/pressure.go.
pub mod Blocks
use talos_box.Base.{
  ℕ, ◌+◌, ◌-◌, ◌*◌, ◌/◌, ◌^◌, Bool, true, false, not, ◌&&◌, ◌||◌, Option, none, some, List, [], ◌∷◌,
  ◌++◌, ltb, leb, ◌==◌, if◌then◌else◌,
}
use talos_box.Pressure.Usage.{Usage, percent_used}

pub data MemoryPressure : Type 0 where
  unknown normal warning critical : MemoryPressure

pub record Snapshot : Type 0 where
  pub swap : Usage
  pub data_volume : Usage
  pub memory_pressure : MemoryPressure
  pub free_memory_mib : ℕ

pub data Severity : Type 0 where
  warn block : Severity

-- What the text of a finding is about. A memory finding may name the headroom that decided it.
pub data Subject : Type 0 where
  memory : Bool → Subject
  data_volume : Subject
  headroom : Subject
  swap : Subject

pub record Finding : Type 0 where
  pub severity : Severity
  pub subject : Subject

-- `GuestHeadroomMiB`
unfoldable pub guest_headroom_mib : ℕ → ℕ → ℕ
guest_headroom_mib free reserve = if ltb reserve free then free - reserve else 0

abbrev pub swap_enabled : Snapshot → Bool
swap_enabled s = ltb 0 s.swap.total

unfoldable pub swap_exhausted : Snapshot → Bool
swap_exhausted s = swap_enabled s && leb 90 (percent_used s.swap)

unfoldable pub swap_nearly_full : Snapshot → Bool
swap_nearly_full s =
    swap_enabled s && (ltb s.swap.available (3 * 2 ^ 30 / 2) && leb 75 (percent_used s.swap))

unfoldable pub has_required_free_memory : Snapshot → ℕ → Bool
has_required_free_memory s required = ltb 0 s.free_memory_mib && leb required s.free_memory_mib

-- `SteadySwapFinding`, whether there is one.
unfoldable pub steady_swap : Snapshot → Bool
steady_swap s = leb 80 (percent_used s.swap)

-- The switch of `memoryFinding` on the pressure.
abbrev pub severity_for : MemoryPressure → Bool → Bool → Bool → Bool → Option Severity
severity_for critical exhausted nearly room steady = some block
severity_for warning exhausted nearly room steady =
    if (exhausted || nearly) && not room then some block else some warn
severity_for normal exhausted nearly room steady = if steady then some warn else none
severity_for unknown exhausted nearly room steady =
    if exhausted
    then (if not room then some block else some warn)
    else if steady
    then some warn
    else none

-- The severity that `memoryFinding` chooses, if any.
unfoldable pub memory_severity : Snapshot → ℕ → Option Severity
unfolding swap_exhausted swap_nearly_full has_required_free_memory steady_swap
memory_severity s required =
    severity_for s.memory_pressure (swap_exhausted s) (swap_nearly_full s)
      (has_required_free_memory s required) (steady_swap s)

unfoldable pub headroom_decides : Snapshot → Bool
headroom_decides s = elim s.memory_pressure [
  | warning ↦ swap_exhausted s || swap_nearly_full s
  | unknown ↦ swap_exhausted s
  | normal ↦ false
  | critical ↦ false
]

abbrev pub memory_findings : Snapshot → Option Severity → List Finding
memory_findings s none = []
memory_findings s (some severity) =
    record { severity = severity; subject = memory (headroom_decides s) } ∷ []

-- `memoryFinding`
unfoldable pub memory_finding : Snapshot → ℕ → List Finding
unfolding memory_severity headroom_decides
memory_finding s required = memory_findings s (memory_severity s required)

-- The data-volume rule.
unfoldable pub volume_finding : Snapshot → List Finding
volume_finding s =
    if leb 95 (percent_used s.data_volume)
    then record { severity = block; subject = data_volume } ∷ []
    else []

-- `Assess`
unfoldable pub assess : Snapshot → ℕ → List Finding
unfolding memory_finding volume_finding
assess s required = memory_finding s required ++ volume_finding s

abbrev pub is_block : Severity → Bool
is_block warn = false
is_block block = true

-- Whether a caller refuses: some finding blocks.
abbrev pub blocks : List Finding → Bool
blocks [] = false
blocks (f ∷ fs) = is_block f.severity || blocks fs
