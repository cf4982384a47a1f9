-- ===== src/Examples/Copies.antt =====
-- The INIT of a small file, and the transfer of its two chunks.
use udpcp.Base.{ℕ, ◌≡◌, ◌<◌, refl, [], ◌∷◌, none, some, arith, All, div_ceil, zero, suc, inl, inr}
use udpcp.Error.{ok}
use udpcp.Io.{World, returned, ◌>>=◌}
use udpcp.Protocol.{validate_chunk_size, verifies}
use udpcp.Recv.State.{ReceiveState, new}
use udpcp.Recv.State.Assembly.{chunk_of}
use udpcp.Recv.Finish.{complete, handle_done}
use udpcp.Send.Chunks.{data_payload}
use udpcp.Send.Handshake.{init_payload}
use udpcp.EndToEnd.Inits.{IsOffer}
use udpcp.EndToEnd.Transfer.{Running, deliver, IsFaithful, Arrives}
use udpcp.EndToEnd.Copy.{new-Running, handle_done-deliver}
use udpcp.Examples.Toy.{toy_sha, peer, no_files, world, first_bytes}
use udpcp.Examples.Delivery.{whole, fresh, fresh_world, fresh-Running, backwards}
use udpcp.Examples.Repairs.{session, plain_name}

small_file-IsOffer : IsOffer session 3 (first_bytes whole)
unfolding validate_chunk_size verifies div_ceil
small_file-IsOffer = record {
  chunk_word = omega arith;
  chunk_valid = refl;
  size_word = omega arith;
  chunks_bounded = omega arith;
  digest_size = refl;
}

abbrev empty_world : World
empty_world = world no_files []

new-Running_example :
    (s : ReceiveState) × (v : World) × (new
        (init_payload session (b'f' ∷ []) 3 (first_bytes whole))
        none
        empty_world
      ≡ (returned (ok s), v))
    × Running whole s v
    × (s.hash ≡ first_bytes whole)
    × (s.final_path ≡ b'f' ∷ [])
new-Running_example =
    new-Running toy_sha whole session (b'f' ∷ []) none (b'f' ∷ []) empty_world small_file-IsOffer
      plain_name refl

-- The hash of the file is announced.
abbrev announced : ReceiveState
announced = record fresh { hash = first_bytes whole }

announced-Running : Running whole announced fresh_world
announced-Running =
    let r = fresh-Running in
    record {
      valid = record {
        sized = record {
          chunk_positive = r.valid.sized.chunk_positive;
          size_word = r.valid.sized.size_word;
          total_chunks = r.valid.sized.total_chunks;
          total_bounded = r.valid.sized.total_bounded;
        };
        consistent = record {
          covers = r.valid.consistent.covers;
          count_right = r.valid.consistent.count_right;
          frontier_bounded = r.valid.consistent.frontier_bounded;
          frontier_above = r.valid.consistent.frontier_above;
          gap_clock = r.valid.consistent.gap_clock;
        };
      };
      no_faults = r.no_faults;
      file = r.file;
      on_disk = r.on_disk;
      holds = record {
        whole_size = r.holds.whole_size;
        file_size = r.holds.file_size;
        agrees = r.holds.agrees;
      };
    }

each-Arrives : (seq : ℕ) → seq < 2 → Arrives toy_sha whole announced seq backwards
unfolding data_payload verifies chunk_of
each-Arrives zero h = inr (inl (refl, refl))
each-Arrives (suc zero) h = inl (refl, refl)
each-Arrives (suc (suc n)) h = absurd (omega arith)

backwards-IsFaithful : All (IsFaithful toy_sha whole announced) backwards
unfolding data_payload verifies chunk_of
backwards-IsFaithful = (inl refl, (inl refl, (inl refl, tt)))

handle_done-deliver_example :
    (v : World) × ((deliver toy_sha announced backwards >>= λ t. handle_done toy_sha t peer)
        fresh_world
      ≡ (returned complete, v))
    × (v.files (b'f' ∷ []) ≡ some whole)
handle_done-deliver_example =
    handle_done-deliver toy_sha whole announced backwards peer fresh_world announced-Running refl
      backwards-IsFaithful each-Arrives
