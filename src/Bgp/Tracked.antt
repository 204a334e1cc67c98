-- ===== src/Bgp/Tracked.antt =====
-- The host FIB under `Reconcile`: it follows the injected set.
use talos_box.Base.{true, false, Option, none, some, Bytes, if◌then◌else◌, ◌≡◌}
use talos_box.Text.{same}
use talos_box.Bgp.{lookup, Fib, State}

-- What the reconciler relies on of a FIB: a view of the table gives the host route of each prefix,
-- an add that succeeds sets it, one that fails leaves it, and a delete takes it away.
pub record Laws {F : Type 0} (fib : Fib F) (view : F → Bytes → Option Bytes) : Type 0 where
  pub view_added :
      (t : F) (p n q : Bytes)
      → (fib.add_host_route t p n).1 ≡ true
      → view (fib.add_host_route t p n).0 q ≡ (if same p q then some n else view t q)
  pub view_refused :
      (t : F) (p n q : Bytes)
      → (fib.add_host_route t p n).1 ≡ false
      → view (fib.add_host_route t p n).0 q ≡ view t q
  pub view_deleted :
      (t : F) (p q : Bytes)
      → view (fib.delete_host_route t p) q ≡ (if same p q then none else view t q)

-- The table has exactly the routes that are injected.
abbrev pub Tracks : {F : Type 0} (fib : Fib F) → (F → Bytes → Option Bytes) → State fib → Type 0
Tracks fib view s = (q : Bytes) → view s.table q ≡ lookup s.injected q
