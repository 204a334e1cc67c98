-- ===== src/Router/Run.antt =====
-- The router over any sequence of operations: each one is a critical section of the source.
pub mod Traces
use talos_box.Base.{ℕ, Bool, Option, List, [], ◌∷◌, Bytes}
use talos_box.Net.{Ip}
use talos_box.Router.State.{Router, add_port, remove_port}
use talos_box.Router.Routed.{learn_routed_vip, forget_routed_vip}
use talos_box.Router.Forward.{decide}

pub data Event : Type 0 where
  attach : ℕ → Event
  detach : ℕ → Event
  frame : ℕ → Bytes → Event
  announce : Bytes → Bytes → Event
  withdraw : Bytes → Event

unfoldable pub step : (Bytes → Option Ip) → Event → Router → Router
step parse_ip6 (attach subnet) r = (add_port subnet r).0
step parse_ip6 (detach n) r = remove_port n r
step parse_ip6 (frame n bytes) r = (decide n bytes r).0
step parse_ip6 (announce pre nexthop) r = learn_routed_vip parse_ip6 pre nexthop r
step parse_ip6 (withdraw pre) r = forget_routed_vip parse_ip6 pre r

unfoldable pub run : (Bytes → Option Ip) → List Event → Router → Router
unfolding step
run parse_ip6 [] r = r
run parse_ip6 (e ∷ es) r = run parse_ip6 es (step parse_ip6 e r)
