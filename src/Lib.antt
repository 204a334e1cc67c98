-- ===== src/Lib.antt =====
-- Talos Box runs Talos Linux clusters as virtual machines on one host. The daemon tbxd keeps the
-- clusters and decides what may start, a root helper connects their networks, and the tool tbx
-- talks to both. This library models the parts that decide, and leaves out those that only move
-- bytes to files, sockets and processes.
--
-- Parts and files, with the paths of the source from the repository's root:
--   Router     internal/helper/router.go, router_darwin.go, fib_routed_vip.go: the frame router
--              between the subnets of clusters. Frame, Checksum and Addr are the parsers; State
--              has the ports, the ownership tables and the learning; Forward is `route`, from the
--              parsed frame to the send; Routed are the virtual addresses announced over BGP; Run
--              is the step relation on attach, detach, frames and announcements.
--   Cluster    internal/cluster: Name is `validName`, Node the data, Reserve the address
--              reservations, Members `AddNode`, `RemoveNode` and `nextNodeName`, Create `New` with
--              sizes and subnet indexes, Intent the provisioning intent, Subnet the inspection of
--              subnets on the host and the choice of a route.
--   Pressure   internal/hostpressure: Usage the percentages, Assess the classification of a
--              reading, Provision the gate before guests start.
--   Balloon    internal/balloon/plan.go: the memory targets of running guests. Exact is the plan over
--              integers without bounds, and Agree compares the code with it. Manager has
--              the state of manager.go and the share of one guest in a poll, Manager.Poll the whole
--              poll, and Manager.Loop the settings and the ticks.
--   Bgp        internal/bgp/reconcile.go: the reconciler of learned routes with the host FIB; Tracked
--              has what is asked of the FIB.
--   Dns        internal/dns/message.go and resolver.go: Message has names, queries and questions,
--              Answer the responses, Resolve the choice of a cluster and an address.
--   Version    internal/talosversion/talosversion.go: Talos versions and their order.
--   Shell      internal/shellquote/shellquote.go: quoting, and how a POSIX shell reads a word.
--   Ring       internal/hypervisor/ring.go: the buffer behind a node's console.
--   Daemon     internal/daemon: Preempt is preempt.go, the handover between operations on one
--              cluster, with Preempt.Steps for what runs on its table; Reboot is the log of
--              reboot.go.
--   Extensions internal/extensions/extensions.go: the curated extensions, the edit distance and the
--              suggestion for a misspelt name.
--   Domain     internal/domain/domain.go: the policy on cluster domains.
--   Config     internal/config: Size has the sizes of memory and disks, File is `Parse` behind the
--              YAML decoder.
--   Mirror     internal/mirror: Digest the digest references of mirror.go and check.go, Manifest
--              manifest.go, Cached `InspectCached` of completeness.go.
--   Resolverset internal/resolverset/resolverset.go: the plan of the resolver files on macOS.
--   Base, Text and Net are what these share: tests, lists and maps, Go's strings and strconv, and
--   IPv4 addresses as text. The Tests module of a part runs it on concrete inputs.
--
-- The parts meet in data: Cluster gives out the addresses that the router calls node addresses,
-- Pressure.Provision asks for the memory that Balloon reclaims, and the reconciler adds the routes
-- that Router.Routed forwards on. Balloon.Manager applies the targets that Balloon plans, and
-- Config.File asks Domain for canonical domains and Cluster.Intent for valid intents.
--
-- Parameters stand for what is not code of the repository: the reader of IPv6 texts behind
-- net.ParseIP (`parse_ip6`), SHA-256, the calls on a host FIB (with the laws that its callers rely
-- on, in Bgp.Tracked), the table of addresses that answers a DNS query, the send function of a
-- port, the guests that balloon targets are for, and the interrupts that a lock holder registers,
-- the files of the mirror with its JSON decoder, and the interfaces and routes of the host.
--
-- State is passed explicitly. A Go map is a function on keys where it is never walked, and a list
-- of entries in any order where it is. An error is none, a flag in the state, or a list of what
-- failed; its text is left out. Integers are natural numbers. Where the source can reach a
-- wrap-around it is written out: the balloon plan and the provision gate compute on the bit
-- patterns of Go's int (Base.Ints), and sizes, generations and checksums have their modulus.
-- Counts that may fall below 0 are a ℤ. Loops are by structural recursion or on fuel: the carries
-- of a checksum need 3 rounds for any packet length, DHCP options and DNS labels as many as there
-- are bytes (fuel that runs out is an outcome of its own for DHCP options), and balloon targets as
-- many as there are nodes. The rounds of a balloon poll are bounded by the code itself, at one
-- more than there are guests, and so is the walk through cached indexes, at four levels.
--
-- Not modelled: locks (each operation is one step, and a function that runs after the lock is
-- freed is a step of its own), printed texts and telemetry, JSON and YAML, files, processes, the
-- hypervisors, Kubernetes, the downloads of images and the command line. Names are ASCII where the
-- source changes them to lower case.
pub mod Base
pub mod Text
pub mod Net
pub mod Router
pub mod Cluster
pub mod Pressure
pub mod Balloon
pub mod Bgp
pub mod Dns
pub mod Version
pub mod Shell
pub mod Ring
pub mod Daemon
pub mod Extensions
pub mod Domain
pub mod Config
pub mod Mirror
pub mod Resolverset
