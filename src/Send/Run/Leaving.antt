-- ===== src/Send/Run/Leaving.antt =====
-- `run_send` as a whole: fuel enough, the files as they were, the packets of its session
-- are sent, and it returns after an ACK and a FIN.
mod Passes
use udpcp.Base.{
  ℕ, zero, suc, ◌+◌, ◌≤◌, ◌<◌, ◌≡◌, refl, ◌∙◌, inl, inr, List, [], ◌∷◌, Bool, true, false,
  Bool-cases, length, ◌%◌, u32_mod, ltb, arith, if◌then◌else◌, div_ceil, ltb-false→le,
}
use udpcp.Error.{IoError, Result, ok, err}
use udpcp.Report.{SocketAddr, sending}
use udpcp.Send.Handshake.{handshake}
use udpcp.Io.{◌>>=◌, ◌>>◌, or_raise, report}
use udpcp.Io.Disk.{FilePath}
use udpcp.Io.FileOps.{File}
use udpcp.Io.Leaves.{
  Frame, Inbox, Leaves, Stays, known-Leaves, pure-Leaves, before-Leaves, after-Leaves, pure-Stays,
  raise-Stays, >>=-Stays, >>=-Leaves, Stays-Leaves, after_stay-Leaves, raise-Leaves,
}
use udpcp.Io.Leaves.Reading.{content, open_file-Leaves, file_len-Leaves, file_hash-Leaves}
use udpcp.Io.Leaves.Calls.{now-Stays, report-Stays, ignore-Stays, bind_socket-Stays}
use udpcp.Protocol.{SendConfig, done, fin_ack, validate_chunk_size, max_total_chunks, send_control}
use udpcp.Protocol.Hashing.{Sha256}
use udpcp.Send.Session.{SendSession}
use udpcp.Send.Blast.{Blast, new, enqueue}
use udpcp.Send.Feedback.{Feedback, complete, retransmit, collect_feedback}
use udpcp.Send.Feedback.Leaving.{Answered, collect_feedback-Leaves}
use udpcp.Send.Handshake.Leaving.{AckFrom, handshake-Leaves}
use udpcp.Send.Chunks.Leaving.{PassedBy, send_control-Stays, send_pending-Leaves}
use udpcp.Send.Blast.Absorbing.{Chunks, FinFrom, enqueue-Chunks, new-Chunks}
use udpcp.Send.Packets.{Allows, our_init, our_done, our_fin_ack, control_bytes}
use udpcp.Send.Run.{
  first_addr, connect_to, finish, announce_pass, give_up, passes_loop, transfer, send_file,
  run_send, source_name,
}
use udpcp.Send.Run.Leaving.Passes.{transfer-Leaves}

-- The session of a call.
abbrev pub session : SendConfig → SocketAddr → ℕ → SendSession
session cfg addr size = record {
  target = addr;
  chunk_size = cfg.chunk_size;
  total_chunks = div_ceil size cfg.chunk_size % u32_mod;
  delay = cfg.delay;
  version = cfg.version;
  limits = cfg.limits;
}

module _ (F : Frame) where
  pub connect_to-Leaves :
      (P : Inbox → Type 0) (resolved : Result (List SocketAddr) IoError)
      → Leaves F P
          (connect_to resolved)
          (λ addr i. P i × ((rest : List SocketAddr) × (resolved ≡ ok (addr ∷ rest))))
  unfolding connect_to first_addr
  connect_to-Leaves P (err e) = raise-Leaves F P e _
  connect_to-Leaves P (ok []) = raise-Leaves F P _ _
  connect_to-Leaves P (ok (addr ∷ rest)) =
      after_stay-Leaves F (bind_socket-Stays F) λ _. pure-Leaves F P addr _ λ i p. (p, (rest, refl))

  -- A receiver has acknowledged the INIT and ended the transfer.
  pub record Acknowledged : Type 0 where
    pub receiver_addr : SocketAddr
    pub acknowledged : AckFrom F receiver_addr
    pub ended : FinFrom F receiver_addr

  -- The frame permits the packets of any session that the resolver's answer leads to.
  abbrev pub Permits : Sha256 → SendConfig → FilePath → Result (List SocketAddr) IoError → Type 0
  Permits sha cfg file resolved =
      (addr : SocketAddr) (rest : List SocketAddr)
      → resolved ≡ ok (addr ∷ rest)
      → Allows sha (session cfg addr (length (content F file))) (content F file) F
          (source_name file)

  module _ (sha : Sha256) (cfg : SendConfig) (file : FilePath)
      (resolved : Result (List SocketAddr) IoError) (ours : Permits sha cfg file resolved)
      (waits : cfg.limits.retransmit_timeout ≡ F.wait) where
    -- What follows once the address is known.
    session_sent-Leaves :
        (addr : SocketAddr) (f : File)
        → (let size = length (content F file) in
            Allows sha (session cfg addr size) (content F file) F (source_name file)
            → f.path ≡ file
            → Leaves F
                (λ i. Unit)
                (handshake
                    (session cfg addr size)
                    (source_name file)
                    size
                    (sha.digest (content F file))
                  >>= λ receiver_addr.
                      report (sending (source_name file) size (session cfg addr size).total_chunks)
                      >> transfer sha (session cfg addr size) receiver_addr f)
                (λ u i. Acknowledged))
    session_sent-Leaves addr f each here =
        >>=-Leaves F
          (handshake-Leaves F _ (source_name file) _ _ (each.each addr _ (our_init refl refl))
            waits)
          λ receiver_addr.
            before-Leaves F _ (λ i. Unit × AckFrom F receiver_addr) _ (λ i acked. (tt, acked))
              (known-Leaves F (λ i. Unit) (AckFrom F receiver_addr) _
                λ acked. after_stay-Leaves F (report-Stays F _) λ _.
                  after-Leaves F
                    (λ u i fin_came. record {
                      receiver_addr = receiver_addr;
                      acknowledged = acked;
                      ended = fin_came;
                    })
                    (transfer-Leaves F sha _ file (source_name file) each receiver_addr f here))

    send_file-Leaves : Leaves F (λ i. Unit) (send_file sha cfg file resolved) (λ u i. Acknowledged)
    unfolding send_file
    send_file-Leaves = >>=-Leaves F (open_file-Leaves F _ file) λ f. known-Leaves F _ _ _ λ here.
        >>=-Leaves F (file_len-Leaves F _ file) λ size. known-Leaves F _ _ _ λ sized.
          elim (Bool-cases (ltb max_total_chunks (div_ceil size cfg.chunk_size))) [
            | inl large ↦ rw large (raise-Leaves F _ _ _)
            | inr fits ↦ rw fits (
                >>=-Leaves F (file_hash-Leaves F _ sha f) λ (hash, f').
                  known-Leaves F _ _ _ λ (hashed, same).
                    >>=-Leaves F (connect_to-Leaves _ resolved) λ addr.
                      known-Leaves F _ _ _ λ (rest, found).
                        rw (sized, hashed, here)
                          (session_sent-Leaves addr f' (ours addr rest found) (same ∙ here)))
          ]

    pub run_send-Leaves :
        Leaves F (λ i. Unit) (run_send sha cfg file resolved) (λ u i. Acknowledged)
    unfolding run_send
    run_send-Leaves = at (validate_chunk_size cfg.chunk_size cfg.version) refl
      where
        at :
            (r : Result (Unit {0}) ℕ)
            → validate_chunk_size cfg.chunk_size cfg.version ≡ r
            → Leaves F (λ i. Unit) (run_send sha cfg file resolved) (λ u i. Acknowledged)
        at (err limit) e = rw (e, run_send) (raise-Leaves F _ _ _)
        at (ok u) e = rw (e, run_send) send_file-Leaves
