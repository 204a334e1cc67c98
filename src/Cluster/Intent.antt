-- ===== src/Cluster/Intent.antt =====
-- The provisioning intent of internal/cluster/provisioning.go. A CNI and a CSI are strings; a
-- pointer to a bool that may be nil is an Option. An error is none.
pub mod Valid
use talos_box.Base.{
  Bool, true, false, not, ◌&&◌, ◌||◌, Option, none, some, List, [], ◌∷◌, Bytes, codes,
  if◌then◌else◌,
}
use talos_box.Text.{same}
use talos_box.Cluster.Reserve.{is_nil}

pub record Intent : Type 0 where
  pub cni : Bytes
  pub csi : Bytes
  pub lb : Bool
  pub bgp : Bool
  pub hubble : Bool
  pub disable_kubelet_memory_protection : Bool

pub record IntentInput : Type 0 where
  pub cni : Bytes
  pub csi : Bytes
  pub lb : Option Bool
  pub bgp : Option Bool
  pub hubble : Option Bool
  pub kubelet_memory_protection : Option Bool

abbrev pub no_intent : Intent
no_intent = record {
  cni = [];
  csi = [];
  lb = false;
  bgp = false;
  hubble = false;
  disable_kubelet_memory_protection = false;
}

abbrev pub no_input : IntentInput
no_input = record {
  cni = [];
  csi = [];
  lb = none;
  bgp = none;
  hubble = none;
  kubelet_memory_protection = none;
}

abbrev pub given : Option Bool → Bool
given none = false
given (some b) = true

abbrev pub or_else : Option Bool → Bool → Bool
or_else none b = b
or_else (some c) b = c

unfoldable pub is_cilium : Bytes → Bool
is_cilium cni = same cni (codes "cilium")

unfoldable pub known_cni : Bytes → Bool
unfolding is_cilium
known_cni cni = is_cilium cni || same cni (codes "flannel")

unfoldable pub known_csi : Bytes → Bool
known_csi csi = is_nil csi || (same csi (codes "longhorn") || same csi (codes "local-path"))

-- The intent with its defaults and the knobs that are given.
abbrev pub defaulted : IntentInput → Intent
defaulted i = record {
  cni = i.cni;
  csi = i.csi;
  lb = or_else i.lb true;
  bgp = or_else i.bgp false;
  hubble = or_else i.hubble false;
  disable_kubelet_memory_protection = not (or_else i.kubelet_memory_protection true);
}

abbrev pub any_given : IntentInput → Bool
any_given i =
    not (is_nil i.csi)
    || (given i.lb || (given i.bgp || (given i.hubble || given i.kubelet_memory_protection)))

-- The checks behind the defaults: whether one of them fails.
unfoldable pub conflicting : Intent → Bool
unfolding is_cilium
conflicting j =
    (j.bgp && not j.lb) || ((j.bgp && not (is_cilium j.cni)) || (j.hubble && not (is_cilium j.cni)))

-- `ParseProvisioningIntent`, and the method `Intent` of its input.
unfoldable pub parse_intent : IntentInput → Option Intent
unfolding known_cni known_csi conflicting
parse_intent i =
    if is_nil i.cni
    then (if any_given i then none else some no_intent)
    else if not (known_cni i.cni)
    then none
    else if not (known_csi i.csi)
    then none
    else if conflicting (defaulted i)
    then none
    else some (defaulted i)

abbrev pub full_input : Intent → IntentInput
full_input j = record {
  cni = j.cni;
  csi = j.csi;
  lb = some j.lb;
  bgp = some j.bgp;
  hubble = some j.hubble;
  kubelet_memory_protection = if j.disable_kubelet_memory_protection then some false else none;
}

-- The method `Input` of an intent.
unfoldable pub input : Intent → IntentInput
input j = if is_nil j.cni then no_input else full_input j
