-- ===== src/Bgp.antt =====
-- The reconciler of internal/bgp/reconcile.go. A Go map is a list of its entries, in an order in
-- which a loop may walk it: the theorems hold for every order. The host FIB is a parameter: its
-- state, and the calls that add and delete a host route, an add with whether it succeeded.
pub mod Reconciled
pub mod Settles
pub mod Tracked
mod Tests
use talos_box.Base.{
  Bool, true, false, not, ◌&&◌, ◌||◌, Option, none, some, List, [], ◌∷◌, ◌++◌, Bytes, if◌then◌else◌,
}
use talos_box.Text.{same}

pub record Route : Type 0 where
  pub prefix : Bytes
  pub nexthop : Bytes

unfoldable pub lookup : List Route → Bytes → Option Bytes
lookup [] prefix = none
lookup (r ∷ rs) prefix = if same r.prefix prefix then some r.nexthop else lookup rs prefix

-- `delete(m, prefix)`
unfoldable pub remove : List Route → Bytes → List Route
remove [] prefix = []
remove (r ∷ rs) prefix =
    let rest = remove rs prefix in if same r.prefix prefix then rest else r ∷ rest

-- `m[prefix] = nexthop`
abbrev pub assign : List Route → Route → List Route
assign rs r = r ∷ remove rs r.prefix

-- The map `want` of the routes that are desired: the last one of a prefix counts.
unfoldable pub want_from : List Route → List Route → List Route
unfolding remove
want_from [] want = want
want_from (r ∷ rs) want = want_from rs (assign want r)

abbrev pub is_some : Option Bytes → Bool
is_some none = false
is_some (some s) = true

abbrev pub holds : Option Bytes → Bytes → Bool
holds none nexthop = false
holds (some s) nexthop = same s nexthop

pub record Fib (F : Type 0) : Type 0 where
  pub add_host_route : F → Bytes → Bytes → F × Bool
  pub delete_host_route : F → Bytes → F

module _ {F : Type 0} (fib : Fib F) where
  -- The reconciler and the FIB, and the prefixes whose add has failed, which the error names.
  pub record State : Type 0 where
    pub table : F
    pub injected : List Route
    pub failed : List Bytes

  abbrev pub withdraw_route : State → Bytes → State
  withdraw_route s prefix = record s {
    table = fib.delete_host_route s.table prefix;
    injected = remove s.injected prefix;
  }

  -- The old route of the prefix is deleted where there is one.
  unfoldable pub withdrawn : State → Bytes → State
  unfolding lookup remove
  withdrawn s prefix = if is_some (lookup s.injected prefix) then withdraw_route s prefix else s

  abbrev pub added : State → Route → F × Bool → State
  added s r (table, true) = record s { table = table; injected = assign s.injected r }
  added s r (table, false) = record s { table = table; failed = r.prefix ∷ s.failed }

  -- One round of the first loop of `Reconcile`.
  unfoldable pub install : State → Route → State
  unfolding withdrawn
  install s r =
      if holds (lookup s.injected r.prefix) r.nexthop
      then s
      else let t = withdrawn s r.prefix in added t r (fib.add_host_route t.table r.prefix r.nexthop)

  unfoldable pub install_all : State → List Route → State
  unfolding install
  install_all s [] = s
  install_all s (r ∷ rs) = install_all (install s r) rs

  -- The second loop, over the entries that are injected when it starts.
  unfoldable pub prune : State → List Route → List Route → State
  prune s want [] = s
  prune s want (r ∷ rs) =
      if is_some (lookup want r.prefix)
      then prune s want rs
      else prune (withdraw_route s r.prefix) want rs

  -- `Reconcile`
  unfoldable pub reconcile : State → List Route → State
  unfolding install_all prune want_from
  reconcile s desired =
      let want = want_from desired [] in
      let t = install_all (record s { failed = [] }) want in prune t want t.injected

  unfoldable pub delete_all : F → List Route → F
  delete_all table [] = table
  delete_all table (r ∷ rs) = delete_all (fib.delete_host_route table r.prefix) rs

  -- `WithdrawAll`
  unfoldable pub withdraw_all : State → State
  unfolding delete_all
  withdraw_all s = record s { table = delete_all s.table s.injected; injected = [] }
