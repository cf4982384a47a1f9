-- ===== src/Examples/Receives.antt =====
-- A receiver that gets an INIT, the one chunk of the file, a DONE and a FIN_ACK.
use udpcp.Base.{
  ℕ, ◌≡◌, refl, List, [], ◌∷◌, ◌++◌, none, some, false, true, ◌≢◌, replicate, All, arith,
  from_be_bytes, div_ceil, write_at, to_be_bytes, bytes_eq,
}
use udpcp.Base.Bits.{test_bit, set_bit}
use udpcp.Io.{
  World, Arrival, datagram, failure, returned, now, recv_from, send_to, set_read_timeout,
  local_addr, report, syscall,
}
use udpcp.Error.{would_block, os, is_timeout, is_interrupted}
use udpcp.Protocol.{
  RecvConfig, recv_limits_default, validate_chunk_size, verifies, version_of, parse_packet,
  decode_header, send_control, send_packet, encode_header,
}
use udpcp.Recv.Loop.{
  receive_loop, receive_step, arm_timeout, on_recv_error, on_timeout, or_abandon, on_datagram,
  is_stranger, on_packet, on_init, send_ack, on_data, with_state, on_done_at, close_transfer, tick,
  ticked,
}
use udpcp.Recv.Loop.Keeping.{Accounted, IsBytes, receive_loop-Accounted}
use udpcp.Recv.Loop.Replying.{Answers, receive_loop-Answers}
use udpcp.Recv.Loop.Returning.{receive_loop-serves, Delivery, receive_loop-Delivery}
use udpcp.Recv.Gaps.{read_timeout, next_nack_deadline, on_idle_tick, is_due}
use udpcp.Recv.State.{
  new, open_state, with_file, with_length, begin_state, start_state, tmp_path_of, accept_data,
  verified_body, store, store_chunk, is_received, mark_received, refresh_gap_clock, has_open_gap,
  since, counted, expected_len, full,
}
use udpcp.Recv.Init.{parse_init, bounded_header, choose_path, until_nul}
use udpcp.Recv.Utf8.{from_utf8, any_control, is_control}
use udpcp.Recv.Paths.{file_name, with_file_name}
use udpcp.Recv.Finish.{handle_done, flush, finalize, checked, publish, drop_state}
use udpcp.Protocol.Hashing.{file_hash}
use udpcp.Recv.Linger.{linger, linger_step, linger_round, linger_packet}
use udpcp.Io.FileOps.{
  create, set_len, write_all_at, sync_all, open_file, seek, read, rename, remove_file, contents,
}
use udpcp.Io.Disk.{put}
use udpcp.Report.{addr_eq}
use udpcp.Examples.Toy.{toy_sha, peer, no_files, world}

abbrev digest : List ℕ
digest = 1 ∷ 2 ∷ 3 ∷ replicate {A = ℕ} 29 0

abbrev pub offer : List ℕ
offer =
    1
    ∷ 0
    ∷ 0
    ∷ 0
    ∷ 0
    ∷ 0
    ∷ 47
    ∷ 2
    ∷ 0
    ∷ 0
    ∷ 0
    ∷ 0
    ∷ 0
    ∷ 0
    ∷ 0
    ∷ 3
    ∷ 0
    ∷ 0
    ∷ 0
    ∷ 3
    ∷ (digest ++ b'f' ∷ 0 ∷ [])

abbrev pub chunk : List ℕ
chunk = 3 ∷ 0 ∷ 0 ∷ 0 ∷ 0 ∷ 0 ∷ 35 ∷ (digest ++ 1 ∷ 2 ∷ 3 ∷ [])

abbrev pub done_packet : List ℕ
done_packet = 4 ∷ 0 ∷ 0 ∷ 0 ∷ 1 ∷ 0 ∷ 0 ∷ []

abbrev pub fin_ack_packet : List ℕ
fin_ack_packet = 7 ∷ 0 ∷ 0 ∷ 0 ∷ 0 ∷ 0 ∷ 0 ∷ []

abbrev pub arrivals : List (ℕ × Arrival)
arrivals =
    (5, datagram offer peer)
    ∷ (5, failure (record { kind = would_block; reason = os 11 }))
    ∷ (5, datagram chunk peer)
    ∷ (5, datagram done_packet peer)
    ∷ (5, datagram fin_ack_packet peer)
    ∷ []

abbrev pub once : RecvConfig
once = record { serve = false; linger_timeout = 1000; limits = recv_limits_default }

abbrev pub network : World
network = world no_files arrivals

pub arrivals-IsBytes : All IsBytes arrivals
arrivals-IsBytes = (omega arith, (tt, (omega arith, (omega arith, (omega arith, tt)))))

receive_loop-Accounted_example :
    Accounted toy_sha none network (receive_loop toy_sha none once network)
receive_loop-Accounted_example =
    receive_loop-Accounted toy_sha none once network refl arrivals-IsBytes

abbrev for_ever : RecvConfig
for_ever = record { serve = true; linger_timeout = 1000; limits = recv_limits_default }

receive_loop-serves_example : (receive_loop toy_sha none for_ever network).0 ≢ returned tt
receive_loop-serves_example =
    receive_loop-serves toy_sha none for_ever network refl refl arrivals-IsBytes

-- The file arrives, and the loop ends.
pub file_arrives :
    ((receive_loop toy_sha none once network).1.files (b'f' ∷ []) ≡ some (1 ∷ 2 ∷ 3 ∷ []))
    × ((receive_loop toy_sha none once network).0 ≡ returned tt)
unfolding receive_loop receive_step arm_timeout read_timeout next_nack_deadline on_recv_error
    on_timeout or_abandon on_datagram is_stranger on_packet on_init send_ack on_data with_state
    on_done_at close_transfer tick ticked on_idle_tick is_due new open_state with_file with_length
    begin_state start_state tmp_path_of parse_init from_be_bytes div_ceil bounded_header
    validate_chunk_size verifies version_of choose_path from_utf8 file_name any_control is_control
    until_nul with_file_name accept_data verified_body store store_chunk is_received mark_received
    refresh_gap_clock has_open_gap since counted expected_len full test_bit set_bit handle_done
    flush finalize checked publish drop_state udpcp.Recv.Finish.unwinding file_hash linger
    linger_step linger_round linger_packet parse_packet decode_header send_control send_packet
    encode_header to_be_bytes now recv_from send_to set_read_timeout udpcp.Io.instant_add
    udpcp.Io.deadline_after local_addr report syscall create set_len write_all_at sync_all open_file
    seek read rename remove_file contents put bytes_eq addr_eq is_timeout is_interrupted write_at
file_arrives = (refl, refl)

receive_loop-Delivery_example :
    Delivery toy_sha none network (receive_loop toy_sha none once network).1.files
receive_loop-Delivery_example =
    receive_loop-Delivery toy_sha none once network refl arrivals-IsBytes file_arrives.1

-- It answers the INIT with an ACK and the DONE with a FIN.
pub receiver_sends :
    (receive_loop toy_sha none once network).1.sent
    ≡ (peer, 2 ∷ 0 ∷ 0 ∷ 0 ∷ 0 ∷ 0 ∷ 0 ∷ []) ∷ (peer, 6 ∷ 0 ∷ 0 ∷ 0 ∷ 0 ∷ 0 ∷ 0 ∷ []) ∷ []
unfolding receive_loop receive_step arm_timeout read_timeout next_nack_deadline on_recv_error
    on_timeout or_abandon on_datagram is_stranger on_packet on_init send_ack on_data with_state
    on_done_at close_transfer tick ticked on_idle_tick is_due new open_state with_file with_length
    begin_state start_state tmp_path_of parse_init from_be_bytes div_ceil bounded_header
    validate_chunk_size verifies version_of choose_path from_utf8 file_name any_control is_control
    until_nul with_file_name accept_data verified_body store store_chunk is_received mark_received
    refresh_gap_clock has_open_gap since counted expected_len full test_bit set_bit handle_done
    flush finalize checked publish drop_state udpcp.Recv.Finish.unwinding file_hash linger
    linger_step linger_round linger_packet parse_packet decode_header send_control send_packet
    encode_header to_be_bytes now recv_from send_to set_read_timeout udpcp.Io.instant_add
    udpcp.Io.deadline_after local_addr report syscall create set_len write_all_at sync_all open_file
    seek read rename remove_file contents put bytes_eq addr_eq is_timeout is_interrupted write_at
receiver_sends = refl

receive_loop-Answers_example : Answers network.sent (receive_loop toy_sha none once network).1.sent
receive_loop-Answers_example = receive_loop-Answers toy_sha none once network refl arrivals-IsBytes
