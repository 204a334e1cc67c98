-- ===== src/Mirror/Tests.antt =====
-- An index and an image in a cache, with hashes that repeat a digit.
use talos_box.Base.{
  ℕ, ◌+◌, ◌==◌, true, false, Option, none, some, List, [], ◌∷◌, ◌++◌, Bytes, codes, replicate,
  byte_at, if◌then◌else◌, ◌≡◌, refl, ℕ_discrete,
}
use talos_box.Text.{pos, same, contains, to_lower, cut_prefix, Bytes-discrete}
use talos_box.Mirror.Digest.{
  Hashes, algorithm_shape, all_hex, at_colon, split_digest_reference, checked_supported_digest,
  canonical_reference, is_digest_reference, verify_supported_digest,
}
use talos_box.Mirror.Manifest.{
  RawManifestGraph, contains_text, manifest_graph_is_index, children_supported, layers_supported,
  valid_structure, decode_graph, is_manifest_index, select_platform,
}
use talos_box.Mirror.Cached.{
  Read, Mapped, Cache, CacheTarget, checked_cached_manifest, manifest_at, inspect_selected,
  inspect_blob, inspect_layers, inspect_blobs, inspect_root, mapped_digest, root_of, inspect_cached,
  is_complete,
}
use talos_box.Mirror.Cached.Complete.{Whole, inspect_cached-Whole}

abbrev digit : ℕ → Bytes
digit n = replicate 64 (b'0' + n)

abbrev digest : ℕ → Bytes
digest n = codes "sha256:" ++ digit n

abbrev hashes : Hashes
hashes = record { sha256 = λ s. digit (byte_at s 0); sha512 = λ s. [] }

-- The bytes 1 are an index, and 2 an image with the config 3 and the layer 4.
abbrev graphs : Bytes → Option RawManifestGraph
graphs s =
    if byte_at s 0 == 1
    then some record {
      schema_version = pos 2;
      media_type = codes "application/vnd.oci.image.index.v1+json";
      manifests = some (
          record { digest = digest 9; architecture = codes "arm64"; os = codes "linux" }
          ∷ record { digest = digest 2; architecture = codes "amd64"; os = codes "linux" }
          ∷ []);
      config = none;
      layers = none;
    }
    else if byte_at s 0 == 2
    then some record {
      schema_version = pos 2;
      media_type = codes "application/vnd.oci.image.manifest.v1+json";
      manifests = none;
      config = some (digest 3);
      layers = some (digest 4 ∷ []);
    }
    else none

-- The file of a digest holds its digit, if it is in the list.
abbrev file_of : List ℕ → Bytes → Read
file_of [] reference = Read.absent
file_of (n ∷ ns) reference =
    if same reference (digest n) then Read.loaded (n ∷ []) else file_of ns reference

abbrev cache : List ℕ → Cache
cache blobs = record {
  hashes = hashes;
  json = graphs;
  manifest_file = λ repository reference. file_of (1 ∷ 2 ∷ []) reference;
  legacy_file = λ repository reference. Read.absent;
  stored_digest = λ repository reference. [];
  blob_file = file_of blobs;
}

abbrev target : CacheTarget
target = record {
  repository = codes "siderolabs/installer";
  tag = [];
  digest = digest 1;
  platform = record { os = []; architecture = codes "amd64" };
}

is_complete-cache : is_complete (inspect_cached (cache (3 ∷ 4 ∷ [])) target true) ≡ true
unfolding inspect_cached inspect_root mapped_digest manifest_at inspect_selected inspect_blobs
    inspect_layers inspect_blob checked_cached_manifest verify_supported_digest
    checked_supported_digest canonical_reference split_digest_reference algorithm_shape all_hex
    at_colon is_digest_reference decode_graph valid_structure manifest_graph_is_index
    children_supported layers_supported contains_text is_manifest_index select_platform to_lower
    cut_prefix contains same Bytes-discrete ℕ_discrete
is_complete-cache = refl

-- Without the layer the image is not complete.
is_complete-inspect_cached : is_complete (inspect_cached (cache (3 ∷ [])) target true) ≡ false
unfolding inspect_cached inspect_root mapped_digest manifest_at inspect_selected inspect_blobs
    inspect_layers inspect_blob checked_cached_manifest verify_supported_digest
    checked_supported_digest canonical_reference split_digest_reference algorithm_shape all_hex
    at_colon is_digest_reference decode_graph valid_structure manifest_graph_is_index
    children_supported layers_supported contains_text is_manifest_index select_platform to_lower
    cut_prefix contains same Bytes-discrete ℕ_discrete
is_complete-inspect_cached = refl

inspect_cached-Whole_example :
    (d : Bytes) × (root_of (cache (3 ∷ 4 ∷ [])) target ≡ Mapped.mapped_to d)
    × Whole (cache (3 ∷ 4 ∷ [])) target true d
inspect_cached-Whole_example =
    inspect_cached-Whole (cache (3 ∷ 4 ∷ [])) target true is_complete-cache
