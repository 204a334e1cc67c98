-- ===== src/Pressure/Assess/Blocks.antt =====
-- When `Assess` makes an operation refuse.
use talos_box.Base.{
  ℕ, ◌≤◌, Bool, true, false, not, ◌&&◌, ◌||◌, List, [], ◌∷◌, ◌++◌, leb, ◌≡◌, refl, sym, ◌∙◌, arith,
  Bool-cases, or-false, inl, inr,
}
use talos_box.Pressure.Usage.{percent_used}
use talos_box.Pressure.Assess.{
  MemoryPressure, unknown, normal, warning, critical, Snapshot, Finding, assess, blocks, is_block,
  memory_finding, memory_findings, memory_severity, severity_for, volume_finding, swap_exhausted,
  swap_nearly_full, has_required_free_memory, steady_swap,
}

-- The rule for memory, in one expression per pressure.
abbrev pub refuses : MemoryPressure → Bool → Bool → Bool → Bool
refuses critical exhausted nearly room = true
refuses warning exhausted nearly room = (exhausted || nearly) && not room
refuses normal exhausted nearly room = false
refuses unknown exhausted nearly room = exhausted && not room

blocks-severity :
    (s : Snapshot) (p : MemoryPressure) (e n r st : Bool)
    → blocks (memory_findings s (severity_for p e n r st)) ≡ refuses p e n r
blocks-severity s critical e n r st = refl
blocks-severity s normal e n r true = refl
blocks-severity s normal e n r false = refl
blocks-severity s warning true n true st = refl
blocks-severity s warning true n false st = refl
blocks-severity s warning false true true st = refl
blocks-severity s warning false true false st = refl
blocks-severity s warning false false r st = refl
blocks-severity s unknown true n true st = refl
blocks-severity s unknown true n false st = refl
blocks-severity s unknown false n r true = refl
blocks-severity s unknown false n r false = refl

pub blocks-append : (fs gs : List Finding) → blocks (fs ++ gs) ≡ (blocks fs || blocks gs)
blocks-append [] gs = refl
blocks-append (f ∷ fs) gs = elim (Bool-cases (is_block f.severity)) [
  | inl e ↦ rw (e) refl
  | inr e ↦ rw (e, blocks-append fs gs) refl
]

blocks-volume : (s : Snapshot) → blocks (volume_finding s) ≡ leb 95 (percent_used s.data_volume)
unfolding volume_finding
blocks-volume s = elim (Bool-cases (leb 95 (percent_used s.data_volume))) [
  | inl e ↦ rw (e) refl
  | inr e ↦ rw (e) refl
]

-- `Assess` blocks exactly if the data volume is at least 95% used or the memory rule refuses:
-- always under critical pressure, never under normal pressure, and under warning or unmeasured
-- pressure if swap is exhausted (or, with a warning, nearly full) and the measured free memory
-- does not cover what is required.
pub blocks-assess :
    (s : Snapshot) (required : ℕ)
    → blocks (assess s required) ≡ (
        refuses s.memory_pressure
          (swap_exhausted s)
          (swap_nearly_full s)
          (has_required_free_memory s required)
        || leb 95 (percent_used s.data_volume))
unfolding assess memory_finding memory_severity
blocks-assess s required =
    blocks-append (memory_finding s required) (volume_finding s)
    ∙ rw
        (
          blocks-volume s,
          blocks-severity s s.memory_pressure (swap_exhausted s) (swap_nearly_full s)
              (has_required_free_memory s required) (steady_swap s),
        )
        refl

and-false : (b : Bool) → (b && false) ≡ false
and-false true = refl
and-false false = refl

refuses_room :
    (p : MemoryPressure) (e n r r' : Bool)
    → (r ≡ true → r' ≡ true)
    → refuses p e n r ≡ false
    → refuses p e n r' ≡ false
refuses_room p e n true r' h q = rw (h refl) q
refuses_room critical e n false true h q = q
refuses_room normal e n false true h q = refl
refuses_room warning e n false true h q = and-false (e || n)
refuses_room unknown e n false true h q = and-false e
refuses_room p e n false false h q = q

room_more :
    (s : Snapshot) (free required required' : ℕ)
    → s.free_memory_mib ≤ free
    → required' ≤ required
    → has_required_free_memory s required ≡ true
    → has_required_free_memory (record s { free_memory_mib = free }) required' ≡ true
unfolding has_required_free_memory
room_more s free required required' p q h = ground arith

-- More free memory and a smaller requirement never make `Assess` block a start that it let pass.
pub assess-monotone :
    (s : Snapshot) (free required required' : ℕ)
    → s.free_memory_mib ≤ free
    → required' ≤ required
    → blocks (assess s required) ≡ false
    → blocks (assess (record s { free_memory_mib = free }) required') ≡ false
unfolding swap_exhausted swap_nearly_full
assess-monotone s free required required' p q h =
    let s' = record s { free_memory_mib = free } in
    let (memory, volume) = or-false (sym (blocks-assess s required) ∙ h) in
    blocks-assess s' required'
    ∙ rw
        (refuses_room s.memory_pressure (swap_exhausted s) (swap_nearly_full s)
          (has_required_free_memory s required) (has_required_free_memory s' required')
          (room_more s free required required' p q) memory)
        volume
