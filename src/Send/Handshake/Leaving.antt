-- ===== src/Send/Handshake/Leaving.antt =====
-- The handshake: its fuel is enough whatever arrives, it sends the INIT only, and an ACK has come
-- where it returns.
use udpcp.Base.{
  ℕ, zero, suc, ◌-◌, ◌<◌, ◌≡◌, refl, sym, ◌∙◌, ap, inl, inr, List, Option, none, some, true, false,
  false≢true, Bool-cases, leb, length, arith, if◌then◌else◌,
}
use udpcp.Error.{IoError, Result, ok, err, is_timeout, is_interrupted}
use udpcp.Report.{SocketAddr}
use udpcp.Io.{pure, raise}
use udpcp.Io.Leaves.{
  Frame, Inbox, Leaves, >>=-Leaves, after_stay-Leaves, before-Leaves, pure-Leaves, raise-Leaves,
  counted-Leaves,
}
use udpcp.Io.Leaves.Calls.{
  Took, attempt-recv_from-Leaves, now-Stays, deadline_after-Stays, set_read_timeout-Stays,
}
use udpcp.Protocol.{
  PacketHeader, PacketType, init, ack, data_chunk, done, nack, fin, fin_ack, decode_header,
}
use udpcp.Send.Session.{SendSession}
use udpcp.Send.Packets.{packet_bytes}
use udpcp.Send.Handshake.{
  Heard, acked, timeout, junk, is_ack, init_payload, listen_once, wait_ack, try_init, attempts,
  handshake,
}
use udpcp.Send.Chunks.Leaving.{send_packet-Stays}

abbrev pub Fewer : ℕ → Inbox → Type 0
Fewer n i = length i < n

-- An ACK has come from `addr`.
pub record AckFrom (F : Frame) (addr : SocketAddr) : Type 0 where
  pub packet : List ℕ
  pub came : F.Told packet addr
  pub header : PacketHeader
  pub parsed : decode_header packet ≡ some header
  pub acks : header.packet_type ≡ ack

-- What `is_ack` tells of a packet.
is_ack-inv :
    (o : Option PacketHeader)
    → is_ack o ≡ true
    → (h : PacketHeader) × (o ≡ some h) × (h.packet_type ≡ ack)
unfolding is_ack
is_ack-inv none e = absurd (false≢true e)
is_ack-inv (some h) e = at h.packet_type refl
  where
    at :
        (t : PacketType)
        → h.packet_type ≡ t
        → (k : PacketHeader) × (some h ≡ some k) × (k.packet_type ≡ ack)
    at ack p = (h, refl, p)
    at init p = absurd (false≢true (rw (p, is_ack) at e))
    at data_chunk p = absurd (false≢true (rw (p, is_ack) at e))
    at done p = absurd (false≢true (rw (p, is_ack) at e))
    at nack p = absurd (false≢true (rw (p, is_ack) at e))
    at fin p = absurd (false≢true (rw (p, is_ack) at e))
    at fin_ack p = absurd (false≢true (rw (p, is_ack) at e))

module _ (F : Frame) where
  -- Junk has taken an arrival.
  abbrev Listened : ℕ → Heard → Inbox → Type 0
  Listened n (acked from) i = AckFrom F from
  Listened n timeout i = Unit
  Listened n junk i = Fewer n i

  -- What an attempt returns.
  abbrev Tried : Option SocketAddr → Inbox → Type 0
  Tried (some from) i = AckFrom F from
  Tried none i = Unit

  from_ack :
      (d : List ℕ) (from : SocketAddr)
      → F.Told d from
      → (h : PacketHeader) × (decode_header d ≡ some h) × (h.packet_type ≡ ack)
      → AckFrom F from
  from_ack d from told (h, parsed, acks) = record {
    packet = d;
    came = told;
    header = h;
    parsed = parsed;
    acks = acks;
  }

  junk-Fewer :
      (n : ℕ) (e : IoError) (i : Inbox)
      → is_timeout e ≡ false
      → Took F (Fewer (suc n)) (err e) i
      → Fewer n i
  unfolding is_timeout
  junk-Fewer n e i late (inl (t, h)) = omega arith
  junk-Fewer n e i late (inr (same, h)) = absurd (false≢true (sym late ∙ ap is_timeout same))

  error-Leaves :
      (n : ℕ) (e : IoError)
      → Leaves F
          (Took F (Fewer (suc n)) (err e))
          (if is_timeout e then pure timeout else (if is_interrupted e then pure junk else raise e))
          (Listened n)
  error-Leaves n e = elim (Bool-cases (is_timeout e)) [
    | inl late ↦ rw late (pure-Leaves F _ timeout (Listened n) λ i h. tt)
    | inr other ↦ rw other (elim (Bool-cases (is_interrupted e)) [
      | inl again ↦ rw again (pure-Leaves F _ junk (Listened n) λ i h. junk-Fewer n e i other h)
      | inr broken ↦ rw broken (raise-Leaves F _ e (Listened n))
    ])
  ]

  listen_once-Leaves : (n wait : ℕ) → Leaves F (Fewer (suc n)) (listen_once wait) (Listened n)
  unfolding listen_once
  listen_once-Leaves n wait =
      after_stay-Leaves F (set_read_timeout-Stays F (some wait))
        λ _. >>=-Leaves F (attempt-recv_from-Leaves F _) at
    where
      at :
          (r : Result (List ℕ × SocketAddr) IoError)
          → Leaves F
              (Took F (Fewer (suc n)) r)
              (elim r [
                | ok (d, from) ↦ if is_ack (decode_header d) then pure (acked from) else pure junk
                | err e ↦
                    if is_timeout e
                    then pure timeout
                    else (if is_interrupted e then pure junk else raise e)
              ])
              (Listened n)
      at (err e) = error-Leaves n e
      at (ok (d, from)) = elim (Bool-cases (is_ack (decode_header d))) [
        | inl heard ↦ rw heard (
            pure-Leaves F _ (acked from) (Listened n)
              λ i (told, h). from_ack d from told (is_ack-inv (decode_header d) heard))
        | inr other ↦ rw other (pure-Leaves F _ junk (Listened n) λ i (told, (t, h)). omega arith)
      ]

  heard-Leaves :
      (fuel deadline : ℕ)
      → Leaves F (Fewer fuel) (wait_ack fuel deadline) Tried
      → (h : Heard)
      → Leaves F
          (Listened fuel h)
          (elim h [
            | acked from ↦ pure (some from)
            | timeout ↦ pure none
            | junk ↦ wait_ack fuel deadline
          ])
          Tried
  heard-Leaves fuel deadline next (acked from) = pure-Leaves F _ (some from) Tried λ i h. h
  heard-Leaves fuel deadline next timeout = pure-Leaves F _ none Tried λ i h. tt
  heard-Leaves fuel deadline next junk = next

  wait_ack-Leaves : (fuel deadline : ℕ) → Leaves F (Fewer fuel) (wait_ack fuel deadline) Tried
  unfolding wait_ack
  wait_ack-Leaves zero deadline = record { at = λ w e h. absurd (omega arith) }
  wait_ack-Leaves (suc fuel) deadline = after_stay-Leaves F (now-Stays F) λ t.
      elim (Bool-cases (leb deadline t)) [
        | inl late ↦ rw late (pure-Leaves F _ none Tried λ i h. tt)
        | inr early ↦ rw early (
            >>=-Leaves F (listen_once-Leaves fuel (deadline - t))
              (heard-Leaves fuel deadline (wait_ack-Leaves fuel deadline)))
      ]

  module _ (s : SendSession) (payload : List ℕ)
      (ours : F.Good (s.target, packet_bytes init 0 payload))
      (waits : s.limits.retransmit_timeout ≡ F.wait) where
    try_init-Leaves : Leaves F (λ i. Unit) (try_init s payload) Tried
    unfolding try_init
    try_init-Leaves = after_stay-Leaves F (send_packet-Stays F s.target _ payload ours) λ _.
        after_stay-Leaves F (deadline_after-Stays F _ waits) λ deadline.
          counted-Leaves F (λ i. suc (length i)) (λ fuel. wait_ack fuel deadline) (λ i. Unit) Tried
            λ i _.
              before-Leaves F _ (Fewer (suc (length i))) Tried (λ j e. rw e (omega arith))
                (wait_ack-Leaves (suc (length i)) _)

    attempts-Leaves : (n : ℕ) → Leaves F (λ i. Unit) (attempts n s payload) (λ a i. AckFrom F a)
    unfolding attempts
    attempts-Leaves zero = raise-Leaves F _ _ _
    attempts-Leaves (suc n) = >>=-Leaves F try_init-Leaves (at (attempts-Leaves n))
      where
        at :
            Leaves F (λ i. Unit) (attempts n s payload) (λ a i. AckFrom F a)
            → (o : Option SocketAddr)
            → Leaves F
                (Tried o)
                (elim o [ some from ↦ pure from | none ↦ attempts n s payload ])
                (λ a i. AckFrom F a)
        at next (some from) = pure-Leaves F _ from (λ a i. AckFrom F a) λ i h. h
        at next none = next

  pub handshake-Leaves :
      (s : SendSession) (name : List ℕ) (size : ℕ) (hash : List ℕ)
      → F.Good (s.target, packet_bytes init 0 (init_payload s name size hash))
      → s.limits.retransmit_timeout ≡ F.wait
      → Leaves F (λ i. Unit) (handshake s name size hash) (λ a i. AckFrom F a)
  unfolding handshake
  handshake-Leaves s name size hash ours waits =
      attempts-Leaves s (init_payload s name size hash) ours waits s.limits.handshake_attempts
