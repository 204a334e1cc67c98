-- ===== src/Balloon/Exact.antt =====
-- `PlanTargets` with no bound on its integers: the reference for the code, whose `int` wraps.
use talos_box.Base.{
  ℕ, zero, suc, ◌+◌, ◌-◌, ◌*◌, ◌/◌, true, false, not, ◌||◌, Option, none, some, List, [], ◌∷◌, leb,
  ltb, ◌==◌, if◌then◌else◌,
}
use talos_box.Balloon.{VmNode, Share, Round, keep, count_active, shares, by_name}

-- The sum of the active nodes' sizes.
unfoldable pub exact_weight : List Share → ℕ
exact_weight [] = 0
exact_weight (s ∷ ss) =
    if s.active then s.node.configured_mib + exact_weight ss else exact_weight ss

abbrev pub exact_clamp : ℕ → Share → Round → Round
exact_clamp floor s r = record {
  shares = record s { target = floor; active = false } ∷ r.shares;
  distributed = r.distributed + (s.target - floor);
  clamped = true;
}

abbrev pub exact_lower : ℕ → Share → Round → Round
exact_lower share s r = record {
  shares = record s { target = s.target - share; active = true } ∷ r.shares;
  distributed = r.distributed + share;
  clamped = r.clamped;
}

-- What one round does to a share.
abbrev pub exact_share : ℕ → ℕ → ℕ → Share → Round → Round
exact_share remaining total floor s r =
    let share = remaining * s.node.configured_mib / total in
    if not s.active
    then keep s r
    else if leb s.target (floor + share)
    then exact_clamp floor s r
    else exact_lower share s r

unfoldable pub exact_round : ℕ → ℕ → ℕ → List Share → Round
exact_round remaining total floor [] = record { shares = []; distributed = 0; clamped = false }
exact_round remaining total floor (s ∷ ss) =
    exact_share remaining total floor s (exact_round remaining total floor ss)

unfoldable pub exact_rounds : ℕ → ℕ → ℕ → List Share → Option (List Share)
unfolding exact_weight count_active exact_round
exact_rounds zero remaining floor ss =
    if remaining == 0 || count_active ss == 0 then some ss else none
exact_rounds (suc fuel) remaining floor ss =
    let r = exact_round remaining (exact_weight ss) floor ss in
    let rest = exact_rounds fuel (remaining - r.distributed) floor r.shares in
    if remaining == 0 || count_active ss == 0
    then some ss
    else if r.clamped
    then rest
    else some r.shares

-- The targets for a deficit.
unfoldable pub exact_targets : ℕ → List VmNode → ℕ → ℕ → Option (List Share)
unfolding exact_rounds shares by_name
exact_targets fuel nodes deficit floor =
    exact_rounds fuel deficit floor (shares (ltb 0 deficit) floor (by_name nodes))
