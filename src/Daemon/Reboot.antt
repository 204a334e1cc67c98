-- ===== src/Daemon/Reboot.antt =====
-- The log of node reboots, of internal/daemon/reboot.go. Times are nanoseconds, 0 for the zero time,
-- and counters are a uint64.
pub mod Stale
mod Tests
use talos_box.Base.{
  ℕ, zero, suc, ◌+◌, ◌*◌, ◌%◌, ◌^◌, Bool, true, false, not, ◌&&◌, ◌||◌, Option, none, some, List,
  [], ◌∷◌, Bytes, leb, ltb, ◌==◌, if◌then◌else◌, update,
}
use talos_box.Text.{Bytes-discrete, cut_prefix}

pub record RebootObservation : Type 0 where
  pub boot_time : ℕ
  pub rebooted_at : ℕ

pub record RebootProbe : Type 0 where
  pub key : Bytes
  pub generation : ℕ
  pub seq : ℕ

pub record RebootState : Type 0 where
  pub observation : RebootObservation
  pub generation : ℕ
  pub next_seq : ℕ
  pub applied_seq : ℕ

abbrev pub RebootLog : Type 0
RebootLog = Bytes → Option RebootState

abbrev pub no_observation : RebootObservation
no_observation = record { boot_time = 0; rebooted_at = 0 }

-- `l.nodes[key]`, with the zero value of a missing entry.
abbrev pub or_zero : Option RebootState → RebootState
or_zero none = record {
  observation = no_observation;
  generation = 0;
  next_seq = 0;
  applied_seq = 0;
}
or_zero (some s) = s

abbrev pub store : RebootLog → Bytes → RebootState → RebootLog
store l key s = update Bytes-discrete l key (some s)

-- `beginObserve`
abbrev pub begun : RebootState → RebootState
begun s = record s { next_seq = (s.next_seq + 1) % 2 ^ 64 }

abbrev pub begin_observe : RebootLog → Bytes → RebootLog × RebootProbe
begin_observe l key =
    let s = begun (or_zero (l key)) in
    (store l key s, record { key = key; generation = s.generation; seq = s.next_seq })

-- What `completeObserve` returns: the observation, the boot time before a reboot, whether there was
-- a reboot, and whether the sample was taken.
pub record Completed : Type 0 where
  pub observation : RebootObservation
  pub previous : ℕ
  pub rebooted : Bool
  pub taken : Bool

abbrev pub ignored : Completed
ignored = record { observation = no_observation; previous = 0; rebooted = false; taken = false }

abbrev pub applied : RebootState → ℕ → RebootObservation → RebootState
applied s seq o = record {
  observation = o;
  generation = s.generation;
  next_seq = s.next_seq;
  applied_seq = seq;
}

-- The state of a node after a sample that is taken, and what is returned.
abbrev pub take_sample : RebootState → ℕ → ℕ → ℕ → RebootState × Completed
take_sample s seq boot_time now =
    let previous = s.observation in
    let baseline : RebootObservation = record { boot_time = boot_time; rebooted_at = 0 } in
    let reboot : RebootObservation = record { boot_time = boot_time; rebooted_at = now } in
    if previous.boot_time == 0
    then (
      applied s seq baseline,
      record { observation = baseline; previous = 0; rebooted = false; taken = true },
    )
    else if previous.boot_time == boot_time
    then (
      applied s seq previous,
      record {
        observation = previous;
        previous = previous.boot_time;
        rebooted = false;
        taken = true;
      },
    )
    else (
      applied s seq reboot,
      record { observation = reboot; previous = previous.boot_time; rebooted = true; taken = true },
    )

abbrev pub complete_at :
    RebootLog → Option RebootState → RebootProbe → ℕ → ℕ → RebootLog × Completed
complete_at l none p boot_time now = (l, ignored)
complete_at l (some s) p boot_time now =
    if not (p.generation == s.generation) || (ltb p.seq s.applied_seq || boot_time == 0)
    then (l, ignored)
    else (
      store l p.key (take_sample s p.seq boot_time now).0,
      (take_sample s p.seq boot_time now).1,
    )

-- `completeObserve`
unfoldable pub complete_observe : RebootLog → RebootProbe → ℕ → ℕ → RebootLog × Completed
complete_observe l p boot_time now = complete_at l (l p.key) p boot_time now

-- `current`, with a notice that lasts 15 minutes.
abbrev pub current_at : Option RebootState → ℕ → Option RebootObservation
current_at none now = none
current_at (some s) now =
    let o = s.observation in
    if o.rebooted_at == 0 || leb (o.rebooted_at + 15 * 60 * 1000000000) now then none else some o

abbrev pub current : RebootLog → Bytes → ℕ → Option RebootObservation
current l key now = current_at (l key) now

abbrev pub forgotten : RebootState → RebootState
forgotten s = record {
  observation = no_observation;
  generation = (s.generation + 1) % 2 ^ 64;
  next_seq = s.next_seq;
  applied_seq = 0;
}

-- `forget`
abbrev pub forget : RebootLog → Bytes → RebootLog
forget l key = store l key (forgotten (or_zero (l key)))

abbrev pub forgotten_entry : Option RebootState → Option RebootState
forgotten_entry none = none
forgotten_entry (some s) = some (forgotten s)

-- `strings.HasPrefix`
abbrev pub has_prefix : Bytes → Bytes → Bool
has_prefix key prefix = elim (cut_prefix prefix key) [ none ↦ false | some rest ↦ true ]

-- `forgetPrefix`
abbrev pub forget_prefix : RebootLog → Bytes → RebootLog
forget_prefix l prefix = λ key. if has_prefix key prefix then forgotten_entry (l key) else l key

-- `forgetAll`
abbrev pub forget_all : RebootLog → RebootLog
forget_all l = λ key. forgotten_entry (l key)

pub data Event : Type 0 where
  begin : (key : Bytes) → Event
  complete : (probe : RebootProbe) (boot_time now : ℕ) → Event
  forget_node : (key : Bytes) → Event
  forget_cluster : (prefix : Bytes) → Event
  forget_every : Event

abbrev pub step : RebootLog → Event → RebootLog
step l (Event.begin key) = (begin_observe l key).0
step l (Event.complete p boot_time now) = (complete_observe l p boot_time now).0
step l (Event.forget_node key) = forget l key
step l (Event.forget_cluster prefix) = forget_prefix l prefix
step l Event.forget_every = forget_all l

unfoldable pub run : RebootLog → List Event → RebootLog
run l [] = l
run l (e ∷ es) = run (step l e) es
