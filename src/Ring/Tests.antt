-- ===== src/Ring/Tests.antt =====
-- A buffer of three bytes that two writes fill and turn over.
use talos_box.Base.{[], ◌∷◌, ◌++◌, ◌≡◌, refl}
use talos_box.Ring.{Ring, new_ring_buffer, write, snapshot}
use talos_box.Ring.Refine.{
  WellFormed, last, capacity, snapshot-write, write-WellFormed, new_ring_buffer-WellFormed,
}

abbrev filled : Ring
filled = write (new_ring_buffer 3) (1 ∷ 2 ∷ [])

snapshot-write-write : snapshot (write filled (3 ∷ 4 ∷ [])) ≡ 2 ∷ 3 ∷ 4 ∷ []
unfolding snapshot write
snapshot-write-write = refl

filled-WellFormed : WellFormed filled
filled-WellFormed =
    (write-WellFormed (new_ring_buffer 3) (1 ∷ 2 ∷ []) (new_ring_buffer-WellFormed 3)).0

snapshot-write_example :
    snapshot (write filled (3 ∷ 4 ∷ [])) ≡ last (capacity filled) (snapshot filled ++ (3 ∷ 4 ∷ []))
snapshot-write_example = snapshot-write filled (3 ∷ 4 ∷ []) filled-WellFormed

write-WellFormed_example :
    WellFormed (write filled (3 ∷ 4 ∷ []))
    × (capacity (write filled (3 ∷ 4 ∷ [])) ≡ capacity filled)
write-WellFormed_example = write-WellFormed filled (3 ∷ 4 ∷ []) filled-WellFormed
