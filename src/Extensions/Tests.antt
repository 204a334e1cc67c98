-- ===== src/Extensions/Tests.antt =====
-- Misspelt extensions.
use talos_box.Base.{some, [], ◌∷◌, codes, length, ◌≡◌, refl, ℕ_discrete}
use talos_box.Text.{cut_prefix, same, contains, Bytes-discrete}
use talos_box.Balloon.{before}
use talos_box.Extensions.{
  curated, curated_names, ref, edit_distance, rows, columns, count_from, collect, sort_strings,
  insert_string, resolve_extensions, suggest, suggest_from,
}
use talos_box.Extensions.Distance.{Least, edit_distance-Least}
use talos_box.Extensions.Suggest.{Suggests, suggest-Suggests}

edit_distance-swapped : edit_distance (codes "gviosr") (codes "gvisor") ≡ 2
unfolding edit_distance rows columns count_from
edit_distance-swapped = refl

edit_distance-Least_example :
    Least
      (codes "gviosr")
      (codes "gvisor")
      (length (codes "gviosr"))
      (length (codes "gvisor"))
      (edit_distance (codes "gviosr") (codes "gvisor"))
edit_distance-Least_example = edit_distance-Least (codes "gviosr") (codes "gvisor")

suggest-qemu : suggest (codes "qemu") ≡ some (codes "qemu-guest-agent")
unfolding suggest suggest_from curated_names edit_distance rows columns count_from cut_prefix
suggest-qemu = refl

-- A distance of exactly 3 is still close.
suggest_at_three : suggest (codes "gvisxyz") ≡ some (codes "gvisor")
unfolding suggest suggest_from curated_names edit_distance rows columns count_from cut_prefix
suggest_at_three = refl

suggest-Suggests_example :
    Suggests (codes "gvizor") (curated_names curated) (suggest (codes "gvizor"))
suggest-Suggests_example = suggest-Suggests (codes "gvizor")

resolve_extensions-twice :
    resolve_extensions (codes "nfs-utils" ∷ codes "gvisor" ∷ codes "nfs-utils" ∷ [])
    ≡ some (codes "siderolabs/gvisor" ∷ codes "siderolabs/nfs-utils" ∷ [])
unfolding resolve_extensions collect ref sort_strings insert_string same contains before
    Bytes-discrete ℕ_discrete
resolve_extensions-twice = refl
