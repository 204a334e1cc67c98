-- ===== src/Balloon/Manager/Loop.antt =====
-- The rest of internal/balloon/manager.go: `Reconcile`, the settings and the ticks of the poll loop.
-- Settings are ASCII.
use talos_box.Base.{
  ℕ, zero, suc, ◌-◌, Bool, ◌&&◌, ◌||◌, Option, none, some, List, [], ◌∷◌, Bytes, codes, leb, ◌==◌,
  if◌then◌else◌, length, update,
}
use talos_box.Text.{ℤ, pos, negsuc, atoi, same, to_lower, Bytes-discrete}
use talos_box.Balloon.{VmNode, Share, plan_targets}
use talos_box.Balloon.Manager.{Sample, Answer, Guests, Manager, new_manager}
use talos_box.Balloon.Manager.Poll.{from_plan, running, reconcile_snapshot}

module _ {W : Type 0} (g : Guests W) where
  -- One node of `Reconcile`: a node that fails is forgotten.
  abbrev pub recorded_after : Manager → Bytes → ℕ → Answer → Manager
  recorded_after m name target Answer.accepted = record m {
    last = update Bytes-discrete m.last name (some target);
  }
  recorded_after m name target _ = record m { last = update Bytes-discrete m.last name none }

  unfoldable pub set_all : Manager → W → List Share → Manager × W
  set_all m w [] = (m, w)
  set_all m w (s ∷ ss) =
      let reply = g.set_target w s.node.name s.target in
      set_all (recorded_after m s.node.name s.target reply.1) reply.0 ss

  abbrev pub drop_absent : Manager → List VmNode → Manager
  drop_absent m vms = record m { last = λ name. if running vms name then m.last name else none }

  -- `Reconcile`
  unfoldable pub reconcile_once : List VmNode → ℕ → ℕ → ℕ → Manager → W → Manager × W
  unfolding set_all running
  reconcile_once vms host_free reserve floor m w =
      let targets = from_plan (plan_targets (length vms) vms (reserve - host_free) floor) in
      let done = set_all m w targets in (drop_absent (done.0) vms, done.1)

-- The white space that `strings.TrimSpace` takes off.
abbrev is_space : ℕ → Bool
is_space c = c == 32 || (leb 9 c && leb c 13)

unfoldable pub trim_left : Bytes → Bytes
trim_left [] = []
trim_left (c ∷ s) = let rest = trim_left s in if is_space c then rest else c ∷ s

abbrev onto : ℕ → Bytes → Bytes
onto c [] = if is_space c then [] else c ∷ []
onto c (d ∷ s) = c ∷ d ∷ s

unfoldable pub trim_right : Bytes → Bytes
trim_right [] = []
trim_right (c ∷ s) = onto c (trim_right s)

abbrev pub setting : Bytes → Bytes
setting raw = to_lower (trim_right (trim_left raw))

-- `DisableSetting`, without the raw value.
unfoldable pub disabled : Bytes → Bool
unfolding trim_left trim_right to_lower same
disabled raw =
    let s = setting raw in same s (codes "1") || (same s (codes "true") || same s (codes "yes"))

-- `RecognizedOff`
unfoldable pub recognized_off : Bytes → Bool
unfolding trim_left trim_right to_lower same
recognized_off raw =
    let s = setting raw in same s (codes "0") || (same s (codes "false") || same s (codes "no"))

-- The reserve of `DefaultConfig`, with TBX_BALLOON_RESERVE_MIB.
abbrev pub positive_or : ℕ → Option ℤ → ℕ
positive_or n none = n
positive_or n (some (pos zero)) = n
positive_or n (some (pos (suc k))) = suc k
positive_or n (some (negsuc k)) = n

unfoldable pub default_reserve_mib : Bytes → ℕ
unfolding atoi
default_reserve_mib raw = positive_or 6144 (atoi raw)

-- The manager that `RunWithLogger` starts with.
abbrev pub or_positive : ℕ → ℕ → ℕ
or_positive zero d = d
or_positive (suc n) d = suc n

abbrev pub configured_manager : ℕ → ℕ → Manager
configured_manager deadband interval = record new_manager {
  deadband_mib = or_positive deadband new_manager.deadband_mib;
  min_retarget_interval = or_positive interval new_manager.min_retarget_interval;
}

-- What a tick of the loop sees: whether the daemon pauses it, the guests, a reading or an error, the
-- hold, and the time.
pub record TickInput : Type 0 where
  pub paused : Bool
  pub vms : List VmNode
  pub sample : Option Sample
  pub hold_mib : ℕ
  pub now : ℕ

module _ {W : Type 0} (g : Guests W) (reserve floor : ℕ) where
  abbrev pub on_sample : TickInput → Option Sample → Manager × W → Manager × W
  on_sample i none p = p
  on_sample i (some s) p = reconcile_snapshot g i.vms s reserve floor i.hold_mib i.now (p.0) (p.1)

  -- One tick of `RunWithLogger`, and a run of them.
  unfoldable pub tick : TickInput → Manager × W → Manager × W
  unfolding reconcile_snapshot
  tick i p = if i.paused then p else on_sample i i.sample p

  unfoldable pub run_ticks : List TickInput → Manager × W → Manager × W
  unfolding tick
  run_ticks [] p = p
  run_ticks (i ∷ is) p = run_ticks is (tick i p)
