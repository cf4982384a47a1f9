-- ===== src/Examples/Partials.antt =====
-- A partial file of which nothing is known, and a chunk for it.
use udpcp.Base.{ℕ, ◌≡◌, ◌≢◌, ◌<◌, ◌↔◌, ◌/◌, refl, [], ◌∷◌, none, true}
use udpcp.Io.{World, returned}
use udpcp.Recv.State.{ReceiveState, accept_data, verified_body, full}
use udpcp.Recv.State.Bitmap.{bit_in-replicate}
use udpcp.Recv.State.Partial.{Bytes, Stands, offered}
use udpcp.Recv.State.Offering.{accept_data-Stands, full_iff_known}
use udpcp.Examples.Toy.{toy_sha}
use udpcp.Examples.Delivery.{fresh, fresh_world, fresh-Running}

abbrev nothing : Bytes
nothing i = none

nothing-Stands : Stands nothing fresh fresh_world
nothing-Stands = record {
  valid = fresh-Running.valid;
  no_faults = refl;
  file = fresh-Running.file;
  on_disk = fresh-Running.on_disk;
  file_size = fresh-Running.holds.file_size;
  view = λ i lt. rw (bit_in-replicate 1 (i / 2)) refl;
}

accept_data-Stands_example :
    (t : ReceiveState) × (v : World) × (accept_data toy_sha fresh 1 (3 ∷ []) fresh_world
      ≡ (returned t, v))
    × Stands (offered 2 3 nothing 1 (verified_body toy_sha fresh (3 ∷ []))) t v
accept_data-Stands_example =
    accept_data-Stands toy_sha nothing fresh 1 (3 ∷ []) fresh_world nothing-Stands

full_iff_known_example : (full fresh ≡ true) ↔ ((i : ℕ) → i < 3 → nothing i ≢ none)
full_iff_known_example = full_iff_known nothing fresh fresh_world nothing-Stands
