-- ===== src/EndToEnd/Repair.antt =====
-- A NACK round: what the receiver misses is what the sender queues again.
use udpcp.Base.{
  All-of_In, ℕ, ◌<◌, ◌≡◌, refl, ◌↔◌, ◌⊎◌, inl, inr, List, [], ◌∷◌, ◌++◌, false, length, In, All,
  arith,
}
use udpcp.Report.{TransferEvent, SocketAddr, missing_chunks}
use udpcp.Io.{World, returned, report}
use udpcp.Recv.State.{ReceiveState}
use udpcp.Recv.State.Bitmap.{bit_in}
use udpcp.Recv.State.Valid.{IsValid}
use udpcp.Recv.Gaps.{send_nacks}
use udpcp.Recv.Gaps.Missing.{collect_missing-exact}
use udpcp.Protocol.Nacks.{IsU32}
use udpcp.Send.Blast.{Blast}
use udpcp.Send.Blast.Queue.{IsQueue, enqueue-IsQueue}
use udpcp.EndToEnd.Nacks.{FitsUdp, absorb_all, absorb_all-emit_nacks}

-- The queue holds what it held and the chunks that the receiver misses.
pub record Repaired (s : ReceiveState) (b c : Blast) : Type 0 where
  pub queue : IsQueue c
  pub same_total : c.total_chunks ≡ b.total_chunks
  pub members :
      (k : ℕ) → In k c.pending ↔ (In k b.pending ⊎ ((k < s.total) × (bit_in s.received k ≡ false)))

-- The same with the world that it leaves.
pub send_nacks-Repaired :
    (s : ReceiveState) (b : Blast) (receiver_addr addr : SocketAddr) (w : World)
    → IsValid s
    → IsQueue b
    → b.total_chunks ≡ s.total
    → w.faults ≡ []
    → (ds : List (SocketAddr × List ℕ)) × (events : List TransferEvent) × (send_nacks s addr w
        ≡ (returned tt, record w { events = events; sent = w.sent ++ ds }))
      × All FitsUdp ds
      × Repaired s b (absorb_all receiver_addr b ds)
unfolding send_nacks report
send_nacks-Repaired s b receiver_addr addr w v q total h =
    let (xs, e, exact) = collect_missing-exact s s.total v in
    let words : All IsU32 xs =
      All-of_In IsU32 xs
        (λ x i. let (a, a', f) = (exact x).0 i in omega (arith, v.sized.total_bounded)) in
    let (ds, sends, fits, arrive) =
      absorb_all-emit_nacks receiver_addr addr b xs
        (record w { events = w.events ++ missing_chunks (length xs) ∷ [] }) h words in
    let (queue, same, members) = enqueue-IsQueue b xs q in
    (
      ds,
      w.events ++ missing_chunks (length xs) ∷ [],
      rw (e, sends, send_nacks) refl,
      fits,
      rw arrive (record {
        queue = queue;
        same_total = same;
        members = λ k.
            let (split, join) = members k in
            let (found, listed) = exact k in
            (
              λ i. elim (split i) [
                | inl old ↦ inl old
                | inr (lt, m) ↦ let (a, a', f) = found m in inr (a, f)
              ],
              λ c. elim c [
                | inl old ↦ join (inl old)
                | inr (lt, f) ↦ join (inr (omega (arith, total), listed (lt, lt, f)))
              ],
            );
      }),
    )

-- When a valid receiver answers a DONE with NACKs, in a world without faults, it returns after
-- sending datagrams that each fit UDP; and when these reach a sender with as many chunks and its
-- queue in order, the queue is in order afterwards and holds what it held and exactly the chunks
-- that the receiver has not received.
pub absorb_all-send_nacks :
    (s : ReceiveState) (b : Blast) (receiver_addr addr : SocketAddr) (w : World)
    → IsValid s
    → IsQueue b
    → b.total_chunks ≡ s.total
    → w.faults ≡ []
    → (ds : List (SocketAddr × List ℕ)) × (v : World) × (send_nacks s addr w ≡ (returned tt, v))
      × (v.sent ≡ w.sent ++ ds)
      × All FitsUdp ds
      × Repaired s b (absorb_all receiver_addr b ds)
absorb_all-send_nacks s b receiver_addr addr w v q total h =
    let (ds, events, sends, fits, repaired) =
      send_nacks-Repaired s b receiver_addr addr w v q total h in
    (ds, record w { events = events; sent = w.sent ++ ds }, sends, refl, fits, repaired)
