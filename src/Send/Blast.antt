-- ===== src/Send/Blast.antt =====
-- `Blast` of lib/send.rs: the queue of chunks to send, and the feedback drained in between.
pub mod Queue
pub mod Turnover
pub mod Absorbing
pub mod Leaving
use udpcp.Base.{
  ℕ, zero, suc, List, [], ◌∷◌, ◌++◌, Option, none, some, Bool, true, false, not, ◌&&◌, ◌||◌, ltb,
  ◌==◌, if◌then◌else◌, length, slice,
}
use udpcp.Error.{ok, err, is_would_block}
use udpcp.Report.{SocketAddr, addr_eq}
use udpcp.Io.{Io, pure, raise, out_of_fuel, ◌>>=◌, ◌>>◌, attempt, recv_from, set_nonblocking}
use udpcp.Protocol.{PacketHeader, fin, nack, parse_packet, header_size, decode_nack_payload}

-- The buffers of the struct hold what a call passes on at once, and are values here. The hash set
-- is its membership test.
pub record Blast : Type 0 where
  pub pending : List ℕ
  pub queued : ℕ → Bool
  pub total_chunks : ℕ
  pub progress_done : ℕ

unfoldable pub insert : ℕ → (ℕ → Bool) → ℕ → Bool
insert seq q k = seq == k || q k

unfoldable pub remove : ℕ → (ℕ → Bool) → ℕ → Bool
remove seq q k = not (seq == k) && q k

unfoldable pub set_of : List ℕ → ℕ → Bool
unfolding insert
set_of [] = λ k. false
set_of (x ∷ xs) = insert x (set_of xs)

-- `seq..seq + n`
unfoldable pub range_from : ℕ → ℕ → List ℕ
range_from seq zero = []
range_from seq (suc n) = seq ∷ range_from (suc seq) n

unfoldable pub new : ℕ → Blast
unfolding range_from set_of
new total_chunks =
    let pending = range_from 0 total_chunks in
    record {
      pending = pending;
      queued = set_of pending;
      total_chunks = total_chunks;
      progress_done = 0;
    }

unfoldable pub chunk_exists : Blast → ℕ → Bool
chunk_exists b seq = ltb seq b.total_chunks

-- One round of `enqueue`: `queued.insert` answers whether the chunk was not there yet.
unfoldable pub push_new : Blast → ℕ → Blast
unfolding chunk_exists insert
push_new b seq =
    if chunk_exists b seq && not (b.queued seq)
    then record b { pending = b.pending ++ seq ∷ []; queued = insert seq b.queued }
    else b

unfoldable pub enqueue : Blast → List ℕ → Blast
enqueue b [] = b
enqueue b (seq ∷ missing) = enqueue (push_new b seq) missing

-- A packet of the receiver's: the blast with what a NACK adds, and whether it is a FIN.
unfoldable pub on_feedback : Blast → List ℕ → Option (PacketHeader × ℕ) → Blast × Bool
on_feedback b d none = (b, false)
on_feedback b d (some (h, payload_end)) = elim h.packet_type [
  | fin ↦ (b, true)
  | nack ↦ (enqueue b (decode_nack_payload h.seq (slice header_size payload_end d) []), false)
  | _ ↦ (b, false)
]

unfoldable pub absorb : SocketAddr → Blast → List ℕ → SocketAddr → Blast × Bool
unfolding on_feedback
absorb receiver_addr b d from =
    if addr_eq from receiver_addr then on_feedback b d (parse_packet d (length d)) else (b, false)

pub drain_loop : ℕ → SocketAddr → Blast → Io (Blast × Bool)
drain_loop zero receiver_addr b = out_of_fuel
drain_loop (suc fuel) receiver_addr b = attempt recv_from >>= λ r. elim r [
  | err e ↦ if is_would_block e then pure (b, false) else (set_nonblocking false >> raise e)
  | ok (d, from) ↦
      let (b', saw_fin) = absorb receiver_addr b d from in
      let more = drain_loop fuel receiver_addr b' in if saw_fin then pure (b', true) else more
]

-- All that has arrived is read without blocking; whether a FIN was seen.
unfoldable pub drain_feedback : SocketAddr → Blast → Io (Blast × Bool)
unfolding drain_loop
drain_feedback receiver_addr b w =
    (do
      set_nonblocking true
      r ← drain_loop (suc (length w.inbox)) receiver_addr b
      set_nonblocking false
      pure r)
      w
