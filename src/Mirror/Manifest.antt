-- ===== src/Mirror/Manifest.antt =====
-- Manifests behind the JSON decoder, of internal/mirror/manifest.go and completeness.go.
use talos_box.Base.{
  Bool, true, false, not, ◌&&◌, ◌||◌, Option, none, some, List, [], ◌∷◌, Bytes, codes, ◌==◌,
  if◌then◌else◌, ◌>>=◌, guard,
}
use talos_box.Text.{ℤ, pos, negsuc, same, cut_prefix}
use talos_box.Mirror.Digest.{checked_supported_digest, digest_found, not_empty}

-- A child manifest in an index.
pub record Child : Type 0 where
  pub digest : Bytes
  pub architecture : Bytes
  pub os : Bytes

pub record RawManifestGraph : Type 0 where
  pub schema_version : ℤ
  pub media_type : Bytes
  pub manifests : Option (List Child)
  pub config : Option Bytes
  pub layers : Option (List Bytes)

-- A missing config has no digest.
pub record CachedGraph : Type 0 where
  pub media_type : Bytes
  pub manifests : List Child
  pub config : Bytes
  pub layers : List Bytes

pub record Platform : Type 0 where
  pub os : Bytes
  pub architecture : Bytes

abbrev pub starts : Option Bytes → Bool
starts none = false
starts (some rest) = true

-- `strings.Contains`
unfoldable pub contains_text : Bytes → Bytes → Bool
unfolding cut_prefix
contains_text [] part = starts (cut_prefix part [])
contains_text (c ∷ s) part = starts (cut_prefix part (c ∷ s)) || contains_text s part

abbrev pub given_list {ℓ} : {A : Type ℓ} → Option (List A) → Bool
given_list none = false
given_list (some xs) = true

abbrev pub names_index : Bytes → Bool
names_index media_type =
    contains_text media_type (codes "index") || contains_text media_type (codes "manifest.list")

-- `manifestGraphIsIndex`
unfoldable pub manifest_graph_is_index : RawManifestGraph → Bool
unfolding contains_text
manifest_graph_is_index g =
    names_index g.media_type
    || (not (
          contains_text g.media_type (codes "image.manifest")
          || contains_text g.media_type (codes "manifest.v2"))
        && given_list g.manifests)

abbrev pub supported : Bytes → Bool
supported digest = digest_found (checked_supported_digest digest)

unfoldable pub children_supported : List Child → Bool
unfolding checked_supported_digest
children_supported [] = true
children_supported (c ∷ cs) = supported c.digest && children_supported cs

unfoldable pub layers_supported : List Bytes → Bool
unfolding checked_supported_digest
layers_supported [] = true
layers_supported (l ∷ ls) = supported l && layers_supported ls

abbrev pub valid_children : Option (List Child) → Bool
valid_children none = false
valid_children (some cs) = children_supported cs

abbrev pub valid_layers : Option (List Bytes) → Bool
valid_layers none = false
valid_layers (some ls) = layers_supported ls

abbrev pub valid_config : Option Bytes → Bool
valid_config none = false
valid_config (some digest) = not_empty digest && supported digest

abbrev pub is_two : ℤ → Bool
is_two (pos n) = n == 2
is_two (negsuc n) = false

-- `validateManifestStructure`
unfoldable pub valid_structure : RawManifestGraph → Bool
unfolding manifest_graph_is_index children_supported layers_supported checked_supported_digest
valid_structure g =
    is_two g.schema_version
    && (if manifest_graph_is_index g
        then valid_children g.manifests
        else valid_config g.config && valid_layers g.layers)

abbrev pub or_nil {ℓ} : {A : Type ℓ} → Option (List A) → List A
or_nil none = []
or_nil (some xs) = xs

-- `decodeManifestGraph`, behind `json.Unmarshal`.
unfoldable pub decode_graph : (Bytes → Option RawManifestGraph) → Bytes → Option CachedGraph
unfolding valid_structure
decode_graph json bytes = json bytes >>= λ raw. guard (valid_structure raw) (
    some record {
      media_type = raw.media_type;
      manifests = or_nil raw.manifests;
      config = or_nil raw.config;
      layers = or_nil raw.layers;
    })

abbrev pub any_child : List Child → Bool
any_child [] = false
any_child (c ∷ cs) = true

-- `isManifestIndex`
unfoldable pub is_manifest_index : CachedGraph → Bool
unfolding contains_text
is_manifest_index g = any_child g.manifests || names_index g.media_type

-- `targetOS`
abbrev pub target_os : Platform → Bytes
target_os p = if not_empty p.os then p.os else codes "linux"

abbrev pub matches_platform : Platform → Child → Bool
matches_platform p c =
    same c.architecture p.architecture && (not (not_empty c.os) || same c.os (target_os p))

-- `selectPlatformDescriptor`: the first child for the platform.
unfoldable pub select_platform : List Child → Platform → Option Child
unfolding same
select_platform [] p = none
select_platform (c ∷ cs) p = if matches_platform p c then some c else select_platform cs p
