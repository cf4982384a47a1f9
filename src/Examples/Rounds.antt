-- ===== src/Examples/Rounds.antt =====
-- A round of repair for a receiver that has nothing yet, and a sender that sends one chunk.
use udpcp.Base.{ℕ, ◌≡◌, refl, List, [], ◌∷◌, ◌++◌, none, some, true, false}
use udpcp.Error.{IoError, Result, ok}
use udpcp.Report.{SocketAddr}
use udpcp.Io.{World, Arrival, Outcome, datagram, returned}
use udpcp.Protocol.{SendConfig, version2, send_limits_default}
use udpcp.Recv.State.{ReceiveState, full}
use udpcp.Recv.Gaps.{send_nacks}
use udpcp.Send.Blast.{new}
use udpcp.Send.Run.{run_send}
use udpcp.Send.Run.Leaving.{Acknowledged}
use udpcp.Send.Run.Sending.{
  Unchanged, run_send-Unchanged, SendsOurs, run_send-SendsOurs, frame, run_send-Acknowledged,
}
use udpcp.EndToEnd.Transfer.{deliver}
use udpcp.EndToEnd.Nacks.{absorb_all}
use udpcp.EndToEnd.Rounds.{data_packets, send_nacks-Running-full}
use udpcp.Examples.Toy.{toy_sha, peer, one_file, world}
use udpcp.Examples.Delivery.{whole, fresh, fresh_world, fresh-Running}
use udpcp.Examples.Receives.{offer, chunk, done_packet, fin_ack_packet}
use udpcp.Examples.Repairs.{start-IsQueue}

send_nacks-Running-full_example :
    (ds : List (SocketAddr × List ℕ)) × (u : World) × (send_nacks fresh peer fresh_world
      ≡ (returned tt, u))
    × (u.sent ≡ [] ++ ds)
    × ((t : ReceiveState) × (v : World) × (deliver toy_sha fresh
            (data_packets toy_sha whole fresh (absorb_all peer (new 2) ds).pending)
            u
          ≡ (returned t, v))
        × (full t ≡ true)
        × (v.files t.tmp_path ≡ some whole))
unfolding new
send_nacks-Running-full_example =
    send_nacks-Running-full toy_sha whole fresh (new 2) peer peer fresh_world fresh-Running
      start-IsQueue refl

-- The receiver answers the INIT with an ACK and the DONE with a FIN.
abbrev pub answers : List (ℕ × Arrival)
answers =
    (5, datagram (2 ∷ 0 ∷ 0 ∷ 0 ∷ 0 ∷ 0 ∷ 0 ∷ []) peer)
    ∷ (5, datagram (6 ∷ 0 ∷ 0 ∷ 0 ∷ 0 ∷ 0 ∷ 0 ∷ []) peer)
    ∷ []

abbrev pub at_home : World
at_home = world (one_file (b'f' ∷ []) (1 ∷ 2 ∷ 3 ∷ [])) answers

abbrev pub small_chunks : SendConfig
small_chunks = record {
  chunk_size = 3;
  delay = none;
  version = version2;
  limits = send_limits_default;
}

abbrev pub resolved : Result (List SocketAddr) IoError
resolved = ok (peer ∷ [])

abbrev sent_home : Outcome (Unit {0}) × World
sent_home = run_send toy_sha small_chunks (b'f' ∷ []) resolved at_home

run_send-Unchanged_example : Unchanged toy_sha small_chunks (b'f' ∷ []) resolved at_home sent_home
run_send-Unchanged_example = run_send-Unchanged toy_sha small_chunks (b'f' ∷ []) resolved at_home

run_send-SendsOurs_example : SendsOurs toy_sha small_chunks (b'f' ∷ []) resolved at_home sent_home
run_send-SendsOurs_example = run_send-SendsOurs toy_sha small_chunks (b'f' ∷ []) resolved at_home

-- What the sender sends is what the receiver of Examples/Receives gets.
pub sends_file :
    (run_send toy_sha small_chunks (b'f' ∷ []) resolved at_home).1.sent
    ≡ (peer, offer) ∷ (peer, chunk) ∷ (peer, done_packet) ∷ (peer, fin_ack_packet) ∷ []
unfolding run_send udpcp.Protocol.validate_chunk_size udpcp.Send.Run.send_file
    udpcp.Io.FileOps.open_file udpcp.Base.bytes_eq udpcp.Io.FileOps.file_len udpcp.Base.div_ceil
    udpcp.Protocol.Hashing.file_hash udpcp.Io.FileOps.seek udpcp.Io.FileOps.read
    udpcp.Send.Run.connect_to udpcp.Io.bind_socket udpcp.Send.Handshake.handshake
    udpcp.Send.Handshake.try_init udpcp.Protocol.send_packet udpcp.Io.send_to udpcp.Io.now
    udpcp.Io.instant_add udpcp.Io.deadline_after udpcp.Base.to_be_bytes udpcp.Io.FileOps.contents
    udpcp.Io.report udpcp.Io.syscall udpcp.Protocol.encode_header udpcp.Protocol.verifies
    udpcp.Protocol.version_byte udpcp.Recv.Paths.file_name udpcp.Send.Blast.insert new
    udpcp.Send.Blast.range_from udpcp.Send.Blast.set_of udpcp.Send.Handshake.init_payload
    udpcp.Send.Run.announce_pass udpcp.Send.Run.first_addr udpcp.Send.Run.source_name
    udpcp.Send.Run.transfer udpcp.Send.Handshake.listen_once udpcp.Send.Handshake.is_ack
    udpcp.Io.set_read_timeout udpcp.Io.recv_from udpcp.Protocol.decode_header
    udpcp.Protocol.parse_packet udpcp.Base.from_be_bytes udpcp.Send.Chunks.send_pending
    udpcp.Send.Chunks.inbox_bytes udpcp.Send.Chunks.send_front udpcp.Send.Chunks.send_one
    udpcp.Send.Chunks.popped udpcp.Send.Chunks.advanced udpcp.Send.Chunks.pause
    udpcp.Send.Chunks.data_payload udpcp.Protocol.Hashing.read_chunk udpcp.Send.Chunks.drain_at
    udpcp.Send.Chunks.reset_count udpcp.Send.Blast.remove udpcp.Protocol.send_control
    udpcp.Send.Feedback.collect_feedback udpcp.Send.Feedback.hear udpcp.Send.Feedback.on_answer
    udpcp.Report.addr_eq udpcp.Send.Run.finish
sends_file = refl

pub home_returned : sent_home.0 ≡ returned tt
unfolding run_send udpcp.Protocol.validate_chunk_size udpcp.Send.Run.send_file
    udpcp.Io.FileOps.open_file udpcp.Base.bytes_eq udpcp.Io.FileOps.file_len udpcp.Base.div_ceil
    udpcp.Protocol.Hashing.file_hash udpcp.Io.FileOps.seek udpcp.Io.FileOps.read
    udpcp.Send.Run.connect_to udpcp.Io.bind_socket udpcp.Send.Handshake.handshake
    udpcp.Send.Handshake.try_init udpcp.Protocol.send_packet udpcp.Io.send_to udpcp.Io.now
    udpcp.Io.instant_add udpcp.Io.deadline_after udpcp.Base.to_be_bytes udpcp.Io.FileOps.contents
    udpcp.Io.report udpcp.Io.syscall udpcp.Protocol.encode_header udpcp.Protocol.verifies
    udpcp.Protocol.version_byte udpcp.Recv.Paths.file_name udpcp.Send.Blast.insert new
    udpcp.Send.Blast.range_from udpcp.Send.Blast.set_of udpcp.Send.Handshake.init_payload
    udpcp.Send.Run.announce_pass udpcp.Send.Run.first_addr udpcp.Send.Run.source_name
    udpcp.Send.Run.transfer udpcp.Send.Handshake.listen_once udpcp.Send.Handshake.is_ack
    udpcp.Io.set_read_timeout udpcp.Io.recv_from udpcp.Protocol.decode_header
    udpcp.Protocol.parse_packet udpcp.Base.from_be_bytes udpcp.Send.Chunks.send_pending
    udpcp.Send.Chunks.inbox_bytes udpcp.Send.Chunks.send_front udpcp.Send.Chunks.send_one
    udpcp.Send.Chunks.popped udpcp.Send.Chunks.advanced udpcp.Send.Chunks.pause
    udpcp.Send.Chunks.data_payload udpcp.Protocol.Hashing.read_chunk udpcp.Send.Chunks.drain_at
    udpcp.Send.Chunks.reset_count udpcp.Send.Blast.remove udpcp.Protocol.send_control
    udpcp.Send.Feedback.collect_feedback udpcp.Send.Feedback.hear udpcp.Send.Feedback.on_answer
    udpcp.Report.addr_eq udpcp.Send.Run.finish
home_returned = refl

run_send-Acknowledged_example :
    Acknowledged (frame toy_sha small_chunks (b'f' ∷ []) resolved at_home)
run_send-Acknowledged_example =
    run_send-Acknowledged toy_sha small_chunks (b'f' ∷ []) resolved at_home home_returned
