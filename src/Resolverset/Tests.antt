-- ===== src/Resolverset/Tests.antt =====
-- A file of the user's, a stale one and one with an old port.
use talos_box.Base.{List, [], ◌∷◌, Bytes, codes, All, ◌≡◌, refl, ℕ_discrete}
use talos_box.Text.{same, contains, cut_prefix, itoa, Bytes-discrete}
use talos_box.Balloon.{before}
use talos_box.Extensions.{insert_string, sort_strings}
use talos_box.Resolverset.{File, content_for, managed, content_of, to_create, to_remove, plan}
use talos_box.Resolverset.Untouched.{MayWrite, MayRemove, plan-untouched}

abbrev files : List File
files =
    record { name = codes "corp.test"; content = codes "nameserver 10.0.0.1" }
    ∷ record { name = codes "old.test"; content = content_for 53 }
    ∷ record { name = codes "lab.test"; content = content_for 5300 }
    ∷ []

abbrev domains : List Bytes
domains = codes "new.test" ∷ codes "lab.test" ∷ codes "corp.test" ∷ []

plan-files :
    plan domains files 53 ≡ (codes "lab.test" ∷ codes "new.test" ∷ [], codes "old.test" ∷ [])
unfolding plan to_create to_remove content_of managed content_for sort_strings insert_string before
    contains cut_prefix itoa same Bytes-discrete ℕ_discrete
plan-files = refl

plan-untouched_example :
    All (MayWrite files) (plan domains files 53).0
    × All (MayRemove domains files) (plan domains files 53).1
plan-untouched_example = plan-untouched domains files 53
