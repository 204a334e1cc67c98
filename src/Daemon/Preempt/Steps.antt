-- ===== src/Daemon/Preempt/Steps.antt =====
-- What runs on the table of internal/daemon/preempt.go: the functions that `request` and `register`
-- have returned, each of which works once, and the calls of interrupts that come after the mutex.
use talos_box.Base.{
  ℕ, zero, suc, Bool, true, false, Option, none, some, List, [], ◌∷◌, ◌++◌, Bytes, if◌then◌else◌,
  get_elem?, set,
}
use talos_box.Daemon.Preempt.{
  Preemptions, cluster_key, announce_request, to_interrupt, release, next_id, offer, queued,
  withdraw_offer,
}

-- A call of `request`, and whether its release has run.
pub record Request : Type 0 where
  pub key : Bytes
  pub released : Bool

-- A call of `register`, and whether its removal has run.
pub record Registration (I : Type 0) : Type 0 where
  pub key : Bytes
  pub id : ℕ
  pub interrupt : I
  pub removed : Bool

-- The newest calls come first. `owed` are the interrupts that calls have read from the table and
-- have yet to run.
pub record System (I : Type 0) : Type 0 where
  pub table : Preemptions I
  pub requests : List Request
  pub registrations : List (Registration I)
  pub owed : List I
  pub fired : List I

pub data Event (I : Type 0) : Type 0 where
  request : (name : Bytes) → Event I
  register : (name : Bytes) (interrupt : I) → Event I
  run_release : (call : ℕ) → Event I
  run_remove : (call : ℕ) → Event I
  run_interrupt : (index : ℕ) → Event I

module _ {I : Type 0} where
  abbrev pub blank : System I
  blank = record {
    table = record { sequence = 0; pending = λ key. 0; interrupts = λ key. [] };
    requests = [];
    registrations = [];
    owed = [];
    fired = [];
  }

  unfoldable pub remove_at : List I → ℕ → List I
  remove_at [] i = []
  remove_at (x ∷ xs) zero = xs
  remove_at (x ∷ xs) (suc i) = x ∷ remove_at xs i

  -- The release of one request, under its sync.Once.
  abbrev pub released_once : System I → ℕ → Option Request → System I
  released_once s i none = s
  released_once s i (some r) = if r.released then s else record {
    table = release s.table r.key;
    requests = set s.requests i (record { key = r.key; released = true });
    registrations = s.registrations;
    owed = s.owed;
    fired = s.fired;
  }

  -- The removal of one registration, under its sync.Once.
  abbrev pub removed_once : System I → ℕ → Option (Registration I) → System I
  removed_once s i none = s
  removed_once s i (some r) = if r.removed then s else record {
    table = withdraw_offer s.table r.key r.id;
    requests = s.requests;
    registrations =
        set s.registrations i
          (record { key = r.key; id = r.id; interrupt = r.interrupt; removed = true });
    owed = s.owed;
    fired = s.fired;
  }

  abbrev pub fire : System I → ℕ → Option I → System I
  fire s i none = s
  fire s i (some x) = record s { owed = remove_at s.owed i; fired = x ∷ s.fired }

  abbrev pub step : System I → Event I → System I
  step s (Event.request name) = record {
    table = announce_request s.table (cluster_key name);
    requests = record { key = cluster_key name; released = false } ∷ s.requests;
    registrations = s.registrations;
    owed = to_interrupt s.table (cluster_key name) ++ s.owed;
    fired = s.fired;
  }
  step s (Event.register name interrupt) = record {
    table = offer s.table (cluster_key name) interrupt;
    requests = s.requests;
    registrations =
        record {
          key = cluster_key name;
          id = next_id s.table;
          interrupt = interrupt;
          removed = false;
        }
        ∷ s.registrations;
    owed = queued s.table (cluster_key name) interrupt ++ s.owed;
    fired = s.fired;
  }
  step s (Event.run_release i) = released_once s i (get_elem? s.requests i)
  step s (Event.run_remove i) = removed_once s i (get_elem? s.registrations i)
  step s (Event.run_interrupt i) = fire s i (get_elem? s.owed i)

  unfoldable pub run : System I → List (Event I) → System I
  run s [] = s
  run s (e ∷ es) = run (step s e) es
