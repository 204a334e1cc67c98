-- ===== src/Balloon.antt =====
-- `PlanTargets` and `Overcommit` of internal/balloon/plan.go. Numbers are the bit
-- patterns of Go's `int`, and wrap as they do there. The sizes, the floor and the deficit that are
-- given are not negative: a deficit of 0 stands for every one that is not positive. The Go maps are keyed by node name:
-- here they are one list of shares in name order, for nodes of distinct names.
pub mod Exact
pub mod Bounds
pub mod Ends
pub mod Agree
pub mod Manager
mod Tests
use talos_box.Base.{
  ℕ, zero, suc, ◌+◌, ◌-◌, ◌*◌, ◌/◌, ◌%◌, Bool, true, false, not, ◌&&◌, ◌||◌, Option, none, some,
  List, [], ◌∷◌, ◌++◌, Bytes, leb, ltb, ◌==◌, if◌then◌else◌, add_int, sub_int, mul_int, quot_int,
  le_int,
}
use talos_box.Text.{ℤ, pos, negsuc}

pub record VmNode : Type 0 where
  pub name : Bytes
  pub configured_mib : ℕ

-- A node with its entry of `targets`, and whether `active` has one.
pub record Share : Type 0 where
  pub node : VmNode
  pub target : ℕ
  pub active : Bool

-- `<` on strings.
unfoldable pub before : Bytes → Bytes → Bool
before [] [] = false
before [] (d ∷ t) = true
before (c ∷ s) [] = false
before (c ∷ s) (d ∷ t) = let rest = before s t in if c == d then rest else ltb c d

unfoldable pub insert : VmNode → List VmNode → List VmNode
unfolding before
insert n [] = n ∷ []
insert n (m ∷ ms) =
    let rest = insert n ms in if before m.name n.name then m ∷ rest else n ∷ (m ∷ ms)

-- The nodes in name order, as `sort.Strings` gives them.
unfoldable pub by_name : List VmNode → List VmNode
unfolding insert
by_name [] = []
by_name (n ∷ ns) = insert n (by_name ns)

abbrev pub share_of : Bool → ℕ → VmNode → Share
share_of needed floor n = record {
  node = n;
  target = n.configured_mib;
  active = needed && ltb floor n.configured_mib;
}

unfoldable pub shares : Bool → ℕ → List VmNode → List Share
shares needed floor [] = []
shares needed floor (n ∷ ns) = share_of needed floor n ∷ shares needed floor ns

-- The sum of the active nodes' sizes.
unfoldable pub weight : List Share → ℕ
unfolding add_int
weight [] = 0
weight (s ∷ ss) = if s.active then add_int s.node.configured_mib (weight ss) else weight ss

unfoldable pub count_active : List Share → ℕ
count_active [] = 0
count_active (s ∷ ss) = if s.active then suc (count_active ss) else count_active ss

pub record Round : Type 0 where
  pub shares : List Share
  pub distributed : ℕ
  pub clamped : Bool

abbrev pub clamp : ℕ → Share → Round → Round
clamp floor s r = record {
  shares = record s { target = floor; active = false } ∷ r.shares;
  distributed = add_int r.distributed (sub_int s.target floor);
  clamped = true;
}

abbrev pub lower : ℕ → Share → Round → Round
lower share s r = record {
  shares = record s { target = sub_int s.target share; active = true } ∷ r.shares;
  distributed = add_int r.distributed share;
  clamped = r.clamped;
}

abbrev pub keep : Share → Round → Round
keep s r = record r { shares = s ∷ r.shares }

-- What one round does to a share; a name that is not active is not in the loop.
abbrev pub take_share : ℕ → ℕ → ℕ → Share → Round → Round
take_share remaining total floor s r =
    let share = quot_int (mul_int remaining s.node.configured_mib) total in
    if not s.active
    then keep s r
    else if le_int (sub_int s.target share) floor
    then clamp floor s r
    else lower share s r

-- The loop over the active names, with the remaining deficit and the weight of the round. The sum
-- of what is distributed is the same in every order.
unfoldable pub round : ℕ → ℕ → ℕ → List Share → Round
unfolding add_int sub_int mul_int quot_int le_int
round remaining total floor [] = record { shares = []; distributed = 0; clamped = false }
round remaining total floor (s ∷ ss) =
    take_share remaining total floor s (round remaining total floor ss)

-- The loop of the rounds; none where the fuel does not suffice.
unfoldable pub rounds : ℕ → ℕ → ℕ → List Share → Option (List Share)
unfolding weight count_active round le_int sub_int
rounds zero remaining floor ss =
    if le_int remaining 0 || count_active ss == 0 then some ss else none
rounds (suc fuel) remaining floor ss =
    let r = round remaining (weight ss) floor ss in
    let rest = rounds fuel (sub_int remaining r.distributed) floor r.shares in
    if le_int remaining 0 || count_active ss == 0
    then some ss
    else if r.clamped
    then rest
    else some r.shares

-- `PlanTargets`
unfoldable pub plan_targets : ℕ → List VmNode → ℕ → ℕ → Option (List Share)
unfolding rounds shares by_name
plan_targets fuel nodes deficit floor =
    rounds fuel deficit floor (shares (ltb 0 deficit) floor (by_name nodes))

-- `Overcommit`
unfoldable pub overcommit : ℕ → ℕ → ℕ → Bool
overcommit planned host_ram reserve = ltb host_ram (planned + reserve)
