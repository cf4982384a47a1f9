-- ===== src/Send/Handshake.antt =====
-- `SendSession::handshake` of lib/send.rs: INIT packets until an ACK comes.
pub mod Leaving
use udpcp.Base.{
  ℕ, zero, suc, ◌-◌, ◌%◌, List, [], ◌∷◌, ◌++◌, Option, none, some, Bool, true, false, leb,
  if◌then◌else◌, length, to_be_bytes, u16_mod,
}
use udpcp.Error.{ok, err, is_timeout, is_interrupted, timed_out, handshake_timeout}
use udpcp.Report.{SocketAddr}
use udpcp.Io.{
  deadline_after, Io, pure, raise, out_of_fuel, ◌>>=◌, ◌>>◌, attempt, now, recv_from,
  set_read_timeout,
}
use udpcp.Protocol.{PacketHeader, init, ack, version_byte, decode_header, send_packet}
use udpcp.Send.Session.{SendSession}

-- The fields at their offsets, the name, and its NUL.
unfoldable pub init_payload : SendSession → List ℕ → ℕ → List ℕ → List ℕ
init_payload s name size hash =
    version_byte s.version
    ∷ (to_be_bytes 8 size ++ (to_be_bytes 4 s.chunk_size ++ (hash ++ (name ++ 0 ∷ []))))

unfoldable pub is_ack : Option PacketHeader → Bool
is_ack none = false
is_ack (some h) = elim h.packet_type [ ack ↦ true | _ ↦ false ]

-- What one receive of an attempt comes to: an ACK's sender, the end of the attempt, or neither.
pub data Heard : Type 0 where
  acked : SocketAddr → Heard
  timeout junk : Heard

unfoldable pub listen_once : ℕ → Io Heard
unfolding is_ack
listen_once wait =
    set_read_timeout (some wait)
    >> (attempt recv_from >>= λ r. elim r [
      | ok (d, from) ↦ if is_ack (decode_header d) then pure (acked from) else pure junk
      | err e ↦
          if is_timeout e then pure timeout else (if is_interrupted e then pure junk else raise e)
    ])

pub wait_ack : ℕ → ℕ → Io (Option SocketAddr)
wait_ack zero attempt_deadline = out_of_fuel
wait_ack (suc fuel) attempt_deadline = now >>= λ t.
    let listen = listen_once (attempt_deadline - t) >>= λ heard. elim heard [
      | acked from ↦ pure (some from)
      | timeout ↦ pure none
      | junk ↦ wait_ack fuel attempt_deadline
    ] in
    if leb attempt_deadline t then pure none else listen

-- One attempt: an INIT, and the wait for its ACK. Each junk packet is taken from the inbox.
unfoldable pub try_init : SendSession → List ℕ → Io (Option SocketAddr)
unfolding wait_ack
try_init s payload = do
  send_packet s.target
      (record { packet_type = init; seq = 0; payload_len = length payload % u16_mod }) payload
  deadline ← deadline_after s.limits.retransmit_timeout
  λ w. wait_ack (suc (length w.inbox)) deadline w

pub attempts : ℕ → SendSession → List ℕ → Io SocketAddr
attempts zero s payload = raise (record { kind = timed_out; reason = handshake_timeout })
attempts (suc n) s payload = try_init s payload >>= λ answer. elim answer [
  | some from ↦ pure from
  | none ↦ attempts n s payload
]

unfoldable pub handshake : SendSession → List ℕ → ℕ → List ℕ → Io SocketAddr
unfolding attempts
handshake s name size hash = attempts s.limits.handshake_attempts s (init_payload s name size hash)
