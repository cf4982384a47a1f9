-- ===== src/Send/Blast/Absorbing.antt =====
-- What one datagram of the receiver's does to the queue: how much it grows, that it holds chunks of the
-- file, and when it is a FIN.
use udpcp.Base.{
  All, All-append, ◌≡◌, refl, ℕ, zero, suc, ◌+◌, ◌-◌, ◌≤◌, ◌<◌, inl, inr, List, [], ◌∷◌, Option,
  none, some, true, not, ◌&&◌, Bool-cases, length, length-append, length-take, length-drop, slice,
  take, drop, arith,
}
use udpcp.Report.{SocketAddr, addr_eq}
use udpcp.Io.Leaves.{Frame}
use udpcp.Protocol.{
  PacketType, PacketHeader, init, ack, data_chunk, done, nack, fin, fin_ack, parse_packet,
  header_size, be_words, decode_nack_payload,
}
use udpcp.Send.Blast.{Blast, push_new, enqueue, chunk_exists, on_feedback, absorb, range_from, new}

length-be_words : (bs : List ℕ) → length (be_words bs) ≤ length bs
unfolding be_words
length-be_words [] = omega arith
length-be_words (a ∷ []) = omega arith
length-be_words (a ∷ b ∷ []) = omega arith
length-be_words (a ∷ b ∷ c ∷ []) = omega arith
length-be_words (a ∷ b ∷ c ∷ d ∷ rest) = omega (arith, length-be_words rest)

length-push_new : (b : Blast) (seq : ℕ) → length (push_new b seq).pending ≤ length b.pending + 1
unfolding push_new
length-push_new b seq = elim (Bool-cases (chunk_exists b seq && not (b.queued seq))) [
  | inl fresh ↦ rw fresh (omega (arith, length-append b.pending (seq ∷ [])))
  | inr known ↦ rw known (omega arith)
]

length-enqueue :
    (b : Blast) (missing : List ℕ)
    → length (enqueue b missing).pending ≤ length b.pending + length missing
unfolding enqueue
length-enqueue b [] = omega arith
length-enqueue b (seq ∷ missing) =
    omega (arith, length-push_new b seq, length-enqueue (push_new b seq) missing)

length-on_feedback :
    (b : Blast) (d : List ℕ) (p : Option (PacketHeader × ℕ))
    → length (on_feedback b d p).0.pending ≤ length b.pending + length d
unfolding on_feedback decode_nack_payload
length-on_feedback b d none = omega arith
length-on_feedback b d (some (h, end)) = at h.packet_type
  where
    at :
        (t : PacketType)
        → length (on_feedback b d (some (record h { packet_type = t }, end))).0.pending
          ≤ length b.pending + length d
    at init = omega arith
    at ack = omega arith
    at data_chunk = omega arith
    at done = omega arith
    at nack =
        let words : List ℕ = be_words (slice header_size end d) in
        omega (
          arith,
          length-enqueue b (take h.seq words),
          length-take h.seq words,
          length-be_words (slice header_size end d),
          length-take (end - header_size) (drop header_size d),
          length-drop header_size d,
        )
    at fin = omega arith
    at fin_ack = omega arith

pub length-absorb :
    (receiver_addr : SocketAddr) (b : Blast) (d : List ℕ) (from : SocketAddr)
    → length (absorb receiver_addr b d from).0.pending ≤ length b.pending + length d
unfolding absorb
length-absorb receiver_addr b d from = elim (Bool-cases (addr_eq from receiver_addr)) [
  | inl same ↦ rw same (length-on_feedback b d (parse_packet d (length d)))
  | inr other ↦ rw other (omega arith)
]

-- The queue holds chunks of a file of `n` chunks.
pub record Chunks (n : ℕ) (b : Blast) : Type 0 where
  pub same_total : b.total_chunks ≡ n
  pub exist : All (λ k. k < n) b.pending

range_from-All : (k n m : ℕ) → k + n ≤ m → All (λ j. j < m) (range_from k n)
unfolding range_from
range_from-All k zero m h = tt
range_from-All k (suc n) m h = (omega arith, range_from-All (suc k) n m (omega arith))

pub new-Chunks : (n : ℕ) → Chunks n (new n)
unfolding new
new-Chunks n = record { same_total = refl; exist = range_from-All 0 n n (omega arith) }

push_new-Chunks : (n : ℕ) (b : Blast) (seq : ℕ) → Chunks n b → Chunks n (push_new b seq)
unfolding push_new chunk_exists
push_new-Chunks n b seq v = elim (Bool-cases (chunk_exists b seq && not (b.queued seq))) [
  | inl fresh ↦
      let lt : seq < n = ground (arith, v.same_total) in
      rw fresh (record {
        same_total = v.same_total;
        exist = All-append (λ k. k < n) b.pending (seq ∷ []) v.exist (lt, tt);
      })
  | inr known ↦ rw known v
]

pub enqueue-Chunks :
    (n : ℕ) (b : Blast) (missing : List ℕ) → Chunks n b → Chunks n (enqueue b missing)
unfolding enqueue
enqueue-Chunks n b [] v = v
enqueue-Chunks n b (seq ∷ missing) v =
    enqueue-Chunks n (push_new b seq) missing (push_new-Chunks n b seq v)

on_feedback-Chunks :
    (n : ℕ) (b : Blast) (d : List ℕ) (p : Option (PacketHeader × ℕ))
    → Chunks n b
    → Chunks n (on_feedback b d p).0
unfolding on_feedback
on_feedback-Chunks n b d none v = v
on_feedback-Chunks n b d (some (h, end)) v = at h.packet_type
  where
    at : (t : PacketType) → Chunks n (on_feedback b d (some (record h { packet_type = t }, end))).0
    at init = v
    at ack = v
    at data_chunk = v
    at done = v
    at nack = enqueue-Chunks n b _ v
    at fin = v
    at fin_ack = v

pub absorb-Chunks :
    (n : ℕ) (addr : SocketAddr) (b : Blast) (d : List ℕ) (from : SocketAddr)
    → Chunks n b
    → Chunks n (absorb addr b d from).0
unfolding absorb
absorb-Chunks n addr b d from v = elim (Bool-cases (addr_eq from addr)) [
  | inl same ↦ rw same (on_feedback-Chunks n b d (parse_packet d (length d)) v)
  | inr other ↦ rw other v
]

-- A FIN of the receiver's has come.
pub record FinFrom (F : Frame) (addr : SocketAddr) : Type 0 where
  pub packet : List ℕ
  pub from : SocketAddr
  pub came : F.Told packet from
  pub same_addr : addr_eq from addr ≡ true
  pub header : PacketHeader
  pub end : ℕ
  pub parsed : parse_packet packet (length packet) ≡ some (header, end)
  pub is_fin : header.packet_type ≡ fin

on_feedback_fin :
    (b : Blast) (d : List ℕ) (p : Option (PacketHeader × ℕ))
    → (on_feedback b d p).1 ≡ true
    → (h : PacketHeader) × (end : ℕ) × (p ≡ some (h, end)) × (h.packet_type ≡ fin)
unfolding on_feedback
on_feedback_fin b d none e = cc
on_feedback_fin b d (some (h, end)) e = (h, end, refl, at h.packet_type refl)
  where
    at : (t : PacketType) → h.packet_type ≡ t → h.packet_type ≡ fin
    at init q = cc (rw (q, on_feedback) at e)
    at ack q = cc (rw (q, on_feedback) at e)
    at data_chunk q = cc (rw (q, on_feedback) at e)
    at done q = cc (rw (q, on_feedback) at e)
    at nack q = cc (rw (q, on_feedback) at e)
    at fin q = q
    at fin_ack q = cc (rw (q, on_feedback) at e)

pub absorb_fin :
    (F : Frame) (addr : SocketAddr) (b : Blast) (d : List ℕ) (from : SocketAddr)
    → F.Told d from
    → (absorb addr b d from).1 ≡ true
    → FinFrom F addr
unfolding absorb
absorb_fin F addr b d from told e = elim (Bool-cases (addr_eq from addr)) [
  | inl same ↦
      let (h, end, parsed, is_fin) =
        on_feedback_fin b d (parse_packet d (length d)) (rw (same, absorb) at e) in
      record {
        packet = d;
        from = from;
        came = told;
        same_addr = same;
        header = h;
        end = end;
        parsed = parsed;
        is_fin = is_fin;
      }
  | inr other ↦ cc (rw (other, absorb) at e)
]
