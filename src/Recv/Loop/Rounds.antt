-- ===== src/Recv/Loop/Rounds.antt =====
-- The rounds of `receive_loop` keep what is kept, and end.
use udpcp.Base.{
  ℕ, zero, suc, ◌≡◌, refl, inl, inr, List, Option, none, some, Bool-cases, length, arith,
}
use udpcp.Error.{IoError, is_timeout, is_interrupted}
use udpcp.Report.{SocketAddr, listening}
use udpcp.Io.{pure, ◌>>=◌, ◌>>◌, now, local_addr, report}
use udpcp.Io.Disk.{FilePath, Files}
use udpcp.Io.Runs.{Setting, SafeTo, >>=-Safe}
use udpcp.Io.Runs.Calls.{now-Safe, report-Safe, local_addr-Safe}
use udpcp.Io.Runs.Cases.{recv-Runs}
use udpcp.Io.Runs.Rounds.{Round, Runs-Round, >>=-Round, loop-Safe, counted-Safe}
use udpcp.Protocol.{
  RecvConfig, PacketType, PacketHeader, init, ack, data_chunk, done, nack, fin, fin_ack,
  parse_packet,
}
use udpcp.Protocol.Hashing.{Sha256}
use udpcp.Recv.Loop.{
  Locals, on_packet, on_datagram, on_recv_error, is_stranger, receive_step, receive_rounds,
  receive_loop,
}
use udpcp.Recv.Loop.Handlers.{Fine, Over, leave-Safe, on_timeout-Safe, arm_timeout-Safe}
use udpcp.Recv.Loop.Packets.{
  Receives, Next, go_on-Safe, then-Safe, on_init-Safe, on_data-Safe, on_done_at-Safe,
}

module _ (S : Setting) (sha : Sha256) (cfg : RecvConfig) (out : Option FilePath) where
  -- Only a receiver that does not serve returns, and it has delivered a file.
  abbrev pub OneShot : Unit {0} → Files → Type 0
  OneShot u = Over S sha cfg

  module _ (rx : Receives S sha out) (n : ℕ) (l : Locals) (fine : Fine S sha l) where
    on_packet-Safe :
        (from : SocketAddr) (d : List ℕ) (h : PacketHeader) (end : ℕ)
        → S.Told d
        → parse_packet d (length d) ≡ some (h, end)
        → SafeTo S n (on_packet sha cfg out l from d h end) (Next S sha cfg out)
    unfolding on_packet
    on_packet-Safe from d h end told parsed = at h.packet_type refl
      where
        at :
            (t : PacketType)
            → h.packet_type ≡ t
            → SafeTo S n (on_packet sha cfg out l from d h end) (Next S sha cfg out)
        at init e =
            rw (e, on_packet)
              (then-Safe S sha cfg out n (
                on_init-Safe S sha cfg out n l fine from _
                  λ i start accepted. rx.starts d h end i start told parsed e accepted))
        at ack e = rw (e, on_packet) (go_on-Safe S sha cfg out n l fine)
        at data_chunk e =
            rw (e, on_packet)
              (then-Safe S sha cfg out n (on_data-Safe S sha cfg out n l fine h.seq _))
        at done e =
            rw (e, on_packet) (on_done_at-Safe S sha cfg out n l fine l.sender l.state fine.ours)
        at nack e = rw (e, on_packet) (go_on-Safe S sha cfg out n l fine)
        at fin e = rw (e, on_packet) (go_on-Safe S sha cfg out n l fine)
        at fin_ack e = rw (e, on_packet) (go_on-Safe S sha cfg out n l fine)

  module _ (rx : Receives S sha out) (n : ℕ) (l : Locals) (fine : Fine S sha l) where
    parsed-Safe :
        (from : SocketAddr) (d : List ℕ) (t : ℕ) (p : Option (PacketHeader × ℕ))
        → S.Told d
        → parse_packet d (length d) ≡ p
        → SafeTo S n
            (let l' = record l { last_data_at = t } in
              elim p [
                | none ↦ pure (some l')
                | some (h, end) ↦ on_packet sha cfg out l' from d h end
              ])
            (Next S sha cfg out)
    parsed-Safe from d t none told e = go_on-Safe S sha cfg out n _ (record { ours = fine.ours })
    parsed-Safe from d t (some (h, end)) told e =
        on_packet-Safe rx n _ (record { ours = fine.ours }) from d h end told e

    on_datagram-Safe :
        (d : List ℕ) (from : SocketAddr)
        → S.Told d
        → SafeTo S n (on_datagram sha cfg out l d from) (Next S sha cfg out)
    unfolding on_datagram
    on_datagram-Safe d from told = elim (Bool-cases (is_stranger l.sender from)) [
      | inl other ↦ rw other (go_on-Safe S sha cfg out n l fine)
      | inr same ↦ rw same (
          >>=-Safe S (now-Safe S n)
            λ t _. parsed-Safe from d t (parse_packet d (length d)) told refl)
    ]

    on_recv_error-Safe : (e : IoError) → SafeTo S n (on_recv_error sha cfg l e) (Next S sha cfg out)
    unfolding on_recv_error
    on_recv_error-Safe e = elim (Bool-cases (is_timeout e)) [
      | inl late ↦ rw late (then-Safe S sha cfg out n (on_timeout-Safe S n sha cfg l fine))
      | inr other ↦ rw other (elim (Bool-cases (is_interrupted e)) [
        | inl again ↦ rw again (go_on-Safe S sha cfg out n l fine)
        | inr broken ↦ rw broken (leave-Safe S n sha cfg l fine e (Next S sha cfg out))
      ])
    ]

    receive_step-Round : Round S (Over S sha cfg) n (receive_step sha cfg out l) (Fine S sha)
    unfolding receive_step
    receive_step-Round = >>=-Round S _ (arm_timeout-Safe S (suc n) sha cfg l fine) λ _ _.
        Runs-Round S _
          (recv-Runs S _ (λ d from told. on_datagram-Safe d from told) on_recv_error-Safe)

  module _ (rx : Receives S sha out) where
    receive_rounds-Safe :
        (fuel : ℕ) (l : Locals)
        → Fine S sha l
        → SafeTo S fuel (receive_rounds sha fuel cfg out l) OneShot
    unfolding receive_rounds
    receive_rounds-Safe zero l fine = record { at = λ w h. absurd (omega (arith, h.few)) }
    receive_rounds-Safe (suc fuel) l fine =
        loop-Safe S _ OneShot _ (receive_step-Round rx fuel l fine) (λ w h z. (h, z))
          λ l' f. receive_rounds-Safe fuel l' f

    pub receive_loop-Safe : (n : ℕ) → SafeTo S n (receive_loop sha out cfg) OneShot
    unfolding receive_loop
    receive_loop-Safe n =
        counted-Safe S n
          (λ fuel. local_addr >>= λ addr.
            report (listening addr)
            >> (now >>= λ t.
                receive_rounds sha fuel cfg out
                  (record { state = none; sender = none; last_data_at = t; last_nack_at = none })))
          OneShot
          λ fuel. >>=-Safe S (local_addr-Safe S fuel) λ addr _.
            >>=-Safe S (report-Safe S fuel _) λ _ _.
              >>=-Safe S (now-Safe S fuel) λ t _. receive_rounds-Safe fuel _ (record { ours = tt })
