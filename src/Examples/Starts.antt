-- ===== src/Examples/Starts.antt =====
-- A transfer that starts.
use udpcp.Base.{◌≡◌, refl, [], none}
use udpcp.Error.{ok}
use udpcp.Io.{World, returned, now, report}
use udpcp.Io.FileOps.{create, set_len}
use udpcp.Recv.State.{new, open_state, start_state}
use udpcp.Recv.State.Valid.{IsValid}
use udpcp.Recv.State.Starting.{new-IsValid}
use udpcp.Examples.Toy.{no_files, world}
use udpcp.Examples.Inits.{payload, accepted, payload_parses, payload_bytes}

abbrev empty_disk : World
empty_disk = world no_files []

abbrev started : World
started = (open_state accepted empty_disk).1

new_returns : new payload none empty_disk ≡ (returned (ok (start_state accepted 0)), started)
unfolding new open_state create set_len now report
new_returns = rw (payload_parses, new) refl

new-IsValid_example : IsValid (start_state accepted 0)
new-IsValid_example =
    new-IsValid payload none empty_disk (start_state accepted 0) started payload_bytes new_returns
