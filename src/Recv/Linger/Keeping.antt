-- ===== src/Recv/Linger/Keeping.antt =====
-- `linger` keeps what is kept, and ends.
use udpcp.Base.{
  ℕ, zero, suc, inl, inr, Option, none, some, List, leb, length, Bool-cases, arith, if◌then◌else◌,
}
use udpcp.Error.{IoError, is_interrupted}
use udpcp.Report.{SocketAddr, addr_eq}
use udpcp.Io.{◌>>=◌, ◌>>◌, pure, ignore, deadline_after}
use udpcp.Io.Runs.{Setting, Safe, Any, weaken-RunsTo, pure-Safe, >>=-Safe}
use udpcp.Io.Runs.Calls.{
  Sendable, ignore-Safe, now-Safe, deadline_after-Safe, set_read_timeout-Safe,
}
use udpcp.Io.Runs.Cases.{recv-Runs}
use udpcp.Io.Runs.Rounds.{
  Round, IfSome, any_some, stop-Round, Runs-Round, >>=-Round, loop-Safe, counted-Safe,
}
use udpcp.Protocol.{
  PacketType, PacketHeader, init, ack, data_chunk, done, nack, fin, fin_ack, send_control,
  parse_packet,
}
use udpcp.Recv.Gaps.Sending.{send_fin-Safe}
use udpcp.Protocol.Replies.{fin_bytes}
use udpcp.Recv.Linger.{linger_packet, linger_round, linger_step, linger_loop, linger}

module _ (S : Setting) (sender : SocketAddr) (timeout : ℕ)
    (allowed : Sendable S sender fin_bytes) where
  module _ (n : ℕ) (deadline : ℕ) where
    linger_type-Safe :
        (t : PacketType)
        → Safe S n
            (elim t [
              | fin_ack ↦ pure none
              | done ↦
                  ignore (send_control sender fin 0)
                  >> (deadline_after timeout >>= λ d. pure (some d))
              | _ ↦ pure (some deadline)
            ])
            Any
    linger_type-Safe init = pure-Safe S n _ Any tt
    linger_type-Safe ack = pure-Safe S n _ Any tt
    linger_type-Safe data_chunk = pure-Safe S n _ Any tt
    linger_type-Safe done =
        >>=-Safe S (ignore-Safe S n _ Any (send_fin-Safe S n sender allowed))
          λ _ _. >>=-Safe S (deadline_after-Safe S n timeout) λ d _. pure-Safe S n _ Any tt
    linger_type-Safe nack = pure-Safe S n _ Any tt
    linger_type-Safe fin = pure-Safe S n _ Any tt
    linger_type-Safe fin_ack = pure-Safe S n _ Any tt

    linger_packet-Safe :
        (p : Option (PacketHeader × ℕ)) → Safe S n (linger_packet sender timeout deadline p) Any
    unfolding linger_packet
    linger_packet-Safe none = pure-Safe S n _ Any tt
    linger_packet-Safe (some (h, end)) = linger_type-Safe h.packet_type

    linger_datagram-Safe :
        (d : List ℕ) (from : SocketAddr)
        → Safe S n
            (if addr_eq from sender
              then linger_packet sender timeout deadline (parse_packet d (length d))
              else pure (some deadline))
            Any
    linger_datagram-Safe d from = elim (Bool-cases (addr_eq from sender)) [
      | inl same ↦ rw same (linger_packet-Safe (parse_packet d (length d)))
      | inr other ↦ rw other (pure-Safe S n _ Any tt)
    ]

    linger_error-Safe :
        (e : IoError) → Safe S n (if is_interrupted e then pure (some deadline) else pure none) Any
    linger_error-Safe e = elim (Bool-cases (is_interrupted e)) [
      | inl again ↦ rw again (pure-Safe S n _ Any tt)
      | inr over ↦ rw over (pure-Safe S n _ Any tt)
    ]

  module _ (n : ℕ) (deadline : ℕ) where
    linger_round-Round :
        (t : ℕ) → Round S (λ files. Unit) n (linger_round sender timeout deadline t) Any
    unfolding linger_round
    linger_round-Round t =
        >>=-Round S (λ files. Unit) (set_read_timeout-Safe S (suc n) _)
          λ _ _.
            Runs-Round S (λ files. Unit)
              (weaken-RunsTo S (λ o files. Unit) (IfSome S (λ files. Unit) Any)
                (any_some S (λ files. Unit) λ f. tt)
                (recv-Runs S _ (λ d from _. linger_datagram-Safe n deadline d from)
                  (linger_error-Safe n deadline)))

    linger_step-Round : Round S (λ files. Unit) n (linger_step sender timeout deadline) Any
    unfolding linger_step
    linger_step-Round = >>=-Round S (λ files. Unit) (now-Safe S (suc n)) at
      where
        at :
            (t : ℕ)
            → Unit {0}
            → Round S
                (λ files. Unit)
                n
                (if leb deadline t then pure none else linger_round sender timeout deadline t)
                Any
        at t _ = elim (Bool-cases (leb deadline t)) [
          | inl late ↦ rw late (stop-Round S (λ files. Unit) n Any λ f. tt)
          | inr early ↦ rw early (linger_round-Round t)
        ]

  linger_loop-Safe :
      (fuel : ℕ) (deadline : ℕ) → Safe S fuel (linger_loop fuel sender timeout deadline) Any
  unfolding linger_loop
  linger_loop-Safe zero deadline = record { at = λ w h. absurd (omega (arith, h.few)) }
  linger_loop-Safe (suc fuel) deadline =
      loop-Safe S (λ files. Unit) (λ u files. Unit) _ (linger_step-Round fuel deadline)
        (λ w h _. (h, tt)) λ deadline' _. linger_loop-Safe fuel deadline'

  pub linger-Safe : (n : ℕ) → Safe S n (linger sender timeout) Any
  unfolding linger
  linger-Safe n =
      counted-Safe S n (λ fuel. deadline_after timeout >>= λ d. linger_loop fuel sender timeout d)
        (λ u files. Unit)
        λ fuel. >>=-Safe S (deadline_after-Safe S fuel timeout) λ d _. linger_loop-Safe fuel d
