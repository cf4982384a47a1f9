-- ===== src/Send/Run.antt =====
-- `connect_to` and `run_send` of lib/send.rs.
pub mod Leaving
pub mod Sending
use udpcp.Base.{
  ℕ, zero, suc, ◌%◌, List, [], ◌∷◌, none, some, ltb, if◌then◌else◌, length, div_ceil, u32_mod,
}
use udpcp.Error.{
  Result, ok, err, IoError, invalid_input, other, unresolved, bad_chunk_size, file_too_large,
  gave_up,
}
use udpcp.Report.{SocketAddr, sending, pass_started, completed}
use udpcp.Io.{Io, pure, raise, out_of_fuel, ◌>>=◌, ◌>>◌, ignore, now, report, or_raise, bind_socket}
use udpcp.Io.Disk.{FilePath}
use udpcp.Io.FileOps.{File, open_file, file_len}
use udpcp.Protocol.{SendConfig, fin_ack, done, validate_chunk_size, max_total_chunks, send_control}
use udpcp.Protocol.Hashing.{Sha256, file_hash}
use udpcp.Recv.Paths.{file_name}
use udpcp.Send.Session.{SendSession}
use udpcp.Send.Handshake.{handshake}
use udpcp.Send.Blast.{Blast, new, enqueue}
use udpcp.Send.Chunks.{send_pending}
use udpcp.Send.Feedback.{complete, retransmit, collect_feedback}

unfoldable pub first_addr : List SocketAddr → Io SocketAddr
first_addr [] = raise (record { kind = invalid_input; reason = unresolved })
first_addr (addr ∷ rest) = bind_socket >> pure addr

-- What the resolver answers for the target is given.
unfoldable pub connect_to : Result (List SocketAddr) IoError → Io SocketAddr
unfolding first_addr
connect_to resolved = or_raise resolved >>= first_addr

-- Best-effort FIN_ACK.
unfoldable pub finish : SocketAddr → Io (Unit {0})
finish receiver_addr = ignore (send_control receiver_addr fin_ack 0) >> report completed

unfoldable pub announce_pass : ℕ → Blast → Io (Unit {0})
announce_pass pass b = elim b.pending [
  | [] ↦ pure tt
  | x ∷ rest ↦ report (pass_started pass (length (x ∷ rest)))
]

unfoldable pub give_up : ℕ → Io (Unit {0})
give_up passes = raise (record { kind = other; reason = gave_up passes })

unfoldable pub source_name : FilePath → FilePath
source_name file = elim (file_name file) [ none ↦ file | some n ↦ n ]

module _ (sha : Sha256) where
  -- The passes from number `pass` on: blast, DONE, feedback.
  pub passes_loop : ℕ → SendSession → SocketAddr → ℕ → File → Blast → ℕ → Io (Unit {0})
  passes_loop zero s receiver_addr start f b pass = out_of_fuel
  passes_loop (suc fuel) s receiver_addr start f b pass =
      send_pending sha s f b receiver_addr start >>= λ (f', b', saw_fin).
      let answer =
        send_control s.target done s.total_chunks
        >> (collect_feedback receiver_addr s.limits >>= λ feedback. elim feedback [
          | complete ↦ finish receiver_addr
          | retransmit missing ↦
              let again =
                let b'' = enqueue b' missing in
                announce_pass (suc pass) b''
                >> passes_loop fuel s receiver_addr start f' b'' (suc pass) in
              if ltb s.limits.retransmit_passes (suc pass)
              then give_up s.limits.retransmit_passes
              else again
        ]) in
      if saw_fin then finish receiver_addr else answer

  unfoldable pub transfer : SendSession → SocketAddr → File → Io (Unit {0})
  unfolding passes_loop
  transfer s receiver_addr f = do
    let b = new s.total_chunks
    start ← now
    announce_pass 1 b
    passes_loop (suc s.limits.retransmit_passes) s receiver_addr start f b 1

  unfoldable pub send_file :
      SendConfig → FilePath → Result (List SocketAddr) IoError → Io (Unit {0})
  send_file cfg file resolved = open_file file >>= λ f. file_len file >>= λ size.
      let total_u64 = div_ceil size cfg.chunk_size in
      if ltb max_total_chunks total_u64
      then raise
          (record { kind = invalid_input; reason = file_too_large total_u64 max_total_chunks })
      else (file_hash sha f >>= λ (hash, f'). connect_to resolved >>= λ addr.
          let s : SendSession = record {
            target = addr;
            chunk_size = cfg.chunk_size;
            total_chunks = total_u64 % u32_mod;
            delay = cfg.delay;
            version = cfg.version;
            limits = cfg.limits;
          } in
          handshake s (source_name file) size hash >>= λ receiver_addr.
          report (sending (source_name file) size s.total_chunks) >> transfer s receiver_addr f')

  unfoldable pub run_send : SendConfig → FilePath → Result (List SocketAddr) IoError → Io (Unit {0})
  run_send cfg file resolved = elim (validate_chunk_size cfg.chunk_size cfg.version) [
    | err limit ↦ raise (record { kind = invalid_input; reason = bad_chunk_size limit })
    | ok _ ↦ send_file cfg file resolved
  ]
