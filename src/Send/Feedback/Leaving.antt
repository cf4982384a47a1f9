-- ===== src/Send/Feedback/Leaving.antt =====
-- The feedback after a pass: the fuel is enough whatever arrives, and a FIN has come from the receiver
-- where it says so.
use udpcp.Base.{
  slice, ℕ, zero, suc, ◌≡◌, refl, inl, inr, List, [], Option, none, some, Bool-cases, length, arith,
  if◌then◌else◌,
}
use udpcp.Error.{IoError, Result, ok, err, is_timeout}
use udpcp.Report.{SocketAddr, addr_eq}
use udpcp.Io.{
  World, Outcome, continue, returned, raised, waiting, panicked, exhausted, pure, raise, ◌>>=◌,
  ◌>>◌, set_read_timeout,
}
use udpcp.Io.Leaves.{
  Frame, Kept, told-Leaves, known-Leaves, Inbox, Leaves, Stays, pure-Stays, >>=-Stays, >>=-Leaves,
  after_stay-Leaves, before-Leaves, pure-Leaves, raise-Leaves, counted-Leaves,
}
use udpcp.Io.Leaves.Calls.{Took, attempt-recv_from-Leaves, set_read_timeout-Stays}
use udpcp.Protocol.{
  SendLimits, PacketType, PacketHeader, init, ack, data_chunk, done, nack, fin, fin_ack,
  parse_packet, decode_nack_payload, header_size,
}
use udpcp.Send.Feedback.{
  Feedback, complete, retransmit, dedup, on_answer, hear, collect_loop, collect_feedback,
}
use udpcp.Send.Blast.Absorbing.{FinFrom}
use udpcp.Send.Handshake.Leaving.{Fewer}

-- An action that ends in a pure value returns nothing else.
then_pure :
    {A B : Type 0} (r : Outcome A × World) (a b : B) (v : World)
    → continue r.0 (λ _. pure a) r.1 ≡ (returned b, v)
    → a ≡ b
then_pure (returned x, u) a b v e = cc
then_pure (raised x, u) a b v e = cc
then_pure (waiting, u) a b v e = cc
then_pure (panicked why, u) a b v e = cc
then_pure (exhausted, u) a b v e = cc

module _ (F : Frame) (limits : SendLimits) where
  on_answer-Stays :
      (missing d : List ℕ) (p : Option (PacketHeader × ℕ)) → Stays F (on_answer limits missing d p)
  unfolding on_answer
  on_answer-Stays missing d none = pure-Stays F (some missing)
  on_answer-Stays missing d (some (h, end)) = at h.packet_type
    where
      at :
          (t : PacketType)
          → Stays F (on_answer limits missing d (some (record h { packet_type = t }, end)))
      at init = pure-Stays F (some missing)
      at ack = pure-Stays F (some missing)
      at data_chunk = pure-Stays F (some missing)
      at done = pure-Stays F (some missing)
      at nack =
          >>=-Stays F (set_read_timeout-Stays F (some limits.nack_collection_timeout))
            λ _. pure-Stays F _
      at fin = pure-Stays F {A = Option (List ℕ)} none
      at fin_ack = pure-Stays F (some missing)

  module _ (receiver_addr : SocketAddr) where
    hear-Stays :
        (missing d : List ℕ) (from : SocketAddr)
        → Stays F (hear receiver_addr limits missing d from)
    unfolding hear
    hear-Stays missing d from = elim (Bool-cases (addr_eq from receiver_addr)) [
      | inl same ↦ rw same (on_answer-Stays missing d (parse_packet d (length d)))
      | inr other ↦ rw other (pure-Stays F (some missing))
    ]

    -- What is known where the feedback is in.
    abbrev pub Answered : Feedback → Inbox → Type 0
    Answered complete i = FinFrom F receiver_addr
    Answered (retransmit missing) i = Unit

    -- What is known after one answer: a FIN, where none is missing.
    abbrev Hears : Option (List ℕ) → Type 0
    Hears none = FinFrom F receiver_addr
    Hears (some missing) = Unit

    on_answer_fin :
        (missing d : List ℕ) (p : Option (PacketHeader × ℕ)) (w v : World)
        → on_answer limits missing d p w ≡ (returned none, v)
        → (h : PacketHeader) × (end : ℕ) × (p ≡ some (h, end)) × (h.packet_type ≡ fin)
    unfolding on_answer
    on_answer_fin missing d none w v e = cc
    on_answer_fin missing d (some (h, end)) w v e = (h, end, refl, at h.packet_type refl)
      where
        at : (t : PacketType) → h.packet_type ≡ t → h.packet_type ≡ fin
        at init q = cc (rw (q, on_answer) at e)
        at ack q = cc (rw (q, on_answer) at e)
        at data_chunk q = cc (rw (q, on_answer) at e)
        at done q = cc (rw (q, on_answer) at e)
        at nack q =
            let answer = decode_nack_payload h.seq (slice header_size end d) missing in
            cc (
              then_pure (set_read_timeout (some limits.nack_collection_timeout) w) (some answer)
                none v (rw (q, on_answer) at e))
        at fin q = q
        at fin_ack q = cc (rw (q, on_answer) at e)

    hear_fin :
        (missing d : List ℕ) (from : SocketAddr) (w v : World)
        → F.Told d from
        → hear receiver_addr limits missing d from w ≡ (returned none, v)
        → FinFrom F receiver_addr
    unfolding hear
    hear_fin missing d from w v told e = elim (Bool-cases (addr_eq from receiver_addr)) [
      | inl same ↦
          let (h, end, parsed, is_fin) =
            on_answer_fin missing d (parse_packet d (length d)) w v (rw (same, hear) at e) in
          record {
            packet = d;
            from = from;
            came = told;
            same_addr = same;
            header = h;
            end = end;
            parsed = parsed;
            is_fin = is_fin;
          }
      | inr other ↦ cc (rw (other, hear) at e)
    ]

    hear-Leaves :
        (P : Inbox → Type 0) (missing d : List ℕ) (from : SocketAddr)
        → F.Told d from
        → Leaves F P (hear receiver_addr limits missing d from) (λ o i. P i × Hears o)
    hear-Leaves P missing d from told = told-Leaves F P Hears (hear-Stays missing d from) at
      where
        at :
            (w v : World) (o : Option (List ℕ))
            → Kept F w
            → hear receiver_addr limits missing d from w ≡ (returned o, v)
            → Hears o
        at w v none h e = hear_fin missing d from w v told e
        at w v (some missing') h e = tt

    abbrev Goes : ℕ → Type 0
    Goes fuel =
        (missing : List ℕ)
        → Leaves F (Fewer fuel) (collect_loop fuel receiver_addr limits missing) Answered

    heard-Leaves :
        (fuel : ℕ)
        → Goes fuel
        → (o : Option (List ℕ))
        → Leaves F
            (λ i. Fewer fuel i × Hears o)
            (elim o [
              | none ↦ pure complete
              | some missing' ↦ collect_loop fuel receiver_addr limits missing'
            ])
            Answered
    heard-Leaves fuel next none = pure-Leaves F _ complete Answered λ i h. h.1
    heard-Leaves fuel next (some missing) =
        before-Leaves F _ (Fewer fuel) Answered (λ i h. h.0) (next missing)

    received-Leaves :
        (fuel : ℕ) (missing : List ℕ)
        → Goes fuel
        → (r : Result (List ℕ × SocketAddr) IoError)
        → Leaves F
            (Took F (Fewer (suc fuel)) r)
            (elim r [
              | err e ↦ if is_timeout e then pure (retransmit (dedup missing)) else raise e
              | ok (d, from) ↦ hear receiver_addr limits missing d from >>= λ next. elim next [
                | none ↦ pure complete
                | some missing' ↦ collect_loop fuel receiver_addr limits missing'
              ]
            ])
            Answered
    received-Leaves fuel missing next (err e) = elim (Bool-cases (is_timeout e)) [
      | inl late ↦ rw late (pure-Leaves F _ (retransmit (dedup missing)) Answered λ i h. tt)
      | inr bad ↦ rw bad (raise-Leaves F _ e Answered)
    ]
    received-Leaves fuel missing next (ok (d, from)) =
        before-Leaves F _ (λ i. Fewer fuel i × F.Told d from) Answered
          (λ i (told, (t, h)). (omega arith, told))
          (known-Leaves F (Fewer fuel) (F.Told d from) Answered λ told.
            >>=-Leaves F (hear-Leaves (Fewer fuel) missing d from told) (heard-Leaves fuel next))

    collect_loop-Leaves : (fuel : ℕ) → Goes fuel
    unfolding collect_loop
    collect_loop-Leaves zero missing = record { at = λ w e h. absurd (omega arith) }
    collect_loop-Leaves (suc fuel) missing =
        >>=-Leaves F (attempt-recv_from-Leaves F _)
          (received-Leaves fuel missing (collect_loop-Leaves fuel))

    pub collect_feedback-Leaves :
        Leaves F (λ i. Unit) (collect_feedback receiver_addr limits) Answered
    unfolding collect_feedback
    collect_feedback-Leaves =
        counted-Leaves F (λ i. suc (length i))
          (λ fuel.
            set_read_timeout (some limits.retransmit_timeout)
            >> collect_loop fuel receiver_addr limits [])
          (λ i. Unit) Answered
          λ i _.
            before-Leaves F _ (Fewer (suc (length i))) Answered (λ j e. rw e (omega arith))
              (after_stay-Leaves F (set_read_timeout-Stays F _)
                λ _. collect_loop-Leaves (suc (length i)) [])
