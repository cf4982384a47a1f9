-- ===== src/EndToEnd/Nacks.antt =====
-- The NACK packets of lib/recv.rs at the sender's queue in lib/send.rs.
use udpcp.Base.{
  ℕ, ◌+◌, ◌≤◌, ◌%◌, ◌≡◌, refl, sym, ap, ◌∙◌, List, [], ◌∷◌, ◌++◌, append_assoc, append-nil, ◌-◌,
  ==_refl, All-split, Bool, true, false, length, length-append, slice, drop_front, take_all, All,
  arith, u16_mod, u32_mod,
}
use udpcp.Report.{SocketAddr, v4, v6, addr_eq}
use udpcp.Io.{World, returned, send_to, syscall}
use udpcp.Protocol.{
  PacketHeader, nack, encode_header, encode_nack_payload, max_nacks_per_packet, max_udp_payload,
  send_packet, header_size,
}
use udpcp.Protocol.RoundTrip.{IsHeader, parse_packet-encode, length-encode_header}
use udpcp.Protocol.Nacks.{IsU32, length-encode_nack_payload, decode-encode_nack_payload}
use udpcp.Recv.Gaps.{send_batch, send_batches, emit_nacks, chunks}
use udpcp.Recv.Gaps.Batches.{flatten, IsBatch, chunks_lem}
use udpcp.Send.Blast.{Blast, enqueue, push_new, absorb, on_feedback}

-- The header of the NACK for a batch.
abbrev pub nack_header : List ℕ → PacketHeader
nack_header batch = record {
  packet_type = nack;
  seq = length batch;
  payload_len = length (encode_nack_payload batch);
}

-- The datagram for a batch.
unfoldable pub nack_datagram : List ℕ → List ℕ
nack_datagram batch = encode_header (nack_header batch) ++ encode_nack_payload batch

abbrev pub datagrams : SocketAddr → List (List ℕ) → List (SocketAddr × List ℕ)
datagrams addr [] = []
datagrams addr (b ∷ bs) = (addr, nack_datagram b) ∷ datagrams addr bs

send_to_quiet :
    (addr : SocketAddr) (d : List ℕ) (w : World)
    → w.faults ≡ []
    → send_to addr d w ≡ (returned tt, record w { sent = w.sent ++ (addr, d) ∷ [] })
unfolding send_to syscall
send_to_quiet addr d w h = rw h refl

nack_header-IsHeader :
    (batch : List ℕ) → length batch ≤ max_nacks_per_packet → IsHeader (nack_header batch)
nack_header-IsHeader batch h = record {
  seq_fits = omega arith;
  len_fits = omega (arith, length-encode_nack_payload batch);
}

send_batch_quiet :
    (addr : SocketAddr) (batch : List ℕ) (w : World)
    → w.faults ≡ []
    → length batch ≤ max_nacks_per_packet
    → send_batch addr batch w
      ≡ (returned tt, record w { sent = w.sent ++ (addr, nack_datagram batch) ∷ [] })
unfolding send_batch send_packet nack_datagram
send_batch_quiet addr batch w h fits =
    let v = nack_header-IsHeader batch fits in
    let a : length batch % u32_mod ≡ length batch = omega (arith, v.seq_fits) in
    let b : length (encode_nack_payload batch) % u16_mod ≡ length (encode_nack_payload batch) =
      omega (arith, v.len_fits) in
    rw (a, b) (send_to_quiet addr (nack_datagram batch) w h)

send_batches_quiet :
    (addr : SocketAddr) (bs : List (List ℕ)) (w : World)
    → w.faults ≡ []
    → All (IsBatch max_nacks_per_packet) bs
    → send_batches addr bs w ≡ (returned tt, record w { sent = w.sent ++ datagrams addr bs })
unfolding send_batches
send_batches_quiet addr [] w h a = rw (append-nil w.sent) refl
send_batches_quiet addr (b ∷ bs) w h (k, a) =
    rw
      (
        send_batch_quiet addr b w h k.1,
        send_batches_quiet addr bs (record w { sent = w.sent ++ (addr, nack_datagram b) ∷ [] }) h a,
        append_assoc w.sent ((addr, nack_datagram b) ∷ []) (datagrams addr bs),
      )
      refl

-- The sender takes in the datagrams of the receiver's, one after another.
abbrev pub absorb_all : SocketAddr → Blast → List (SocketAddr × List ℕ) → Blast
absorb_all receiver_addr b [] = b
absorb_all receiver_addr b ((to, d) ∷ ds) =
    absorb_all receiver_addr (absorb receiver_addr b d receiver_addr).0 ds

pub enqueue-append : (b : Blast) (xs ys : List ℕ) → enqueue b (xs ++ ys) ≡ enqueue (enqueue b xs) ys
unfolding enqueue
enqueue-append b [] ys = refl
enqueue-append b (x ∷ xs) ys = enqueue-append (push_new b x) xs ys

pub addr_eq_refl : (a : SocketAddr) → addr_eq a a ≡ true
unfolding addr_eq
addr_eq_refl (v4 a p) = rw (==_refl a, ==_refl p)
addr_eq_refl (v6 a p) = rw (==_refl a, ==_refl p)

-- The sender enqueues exactly the numbers of a batch.
pub absorb-nack_datagram :
    (receiver_addr : SocketAddr) (b : Blast) (batch : List ℕ)
    → All IsU32 batch
    → length batch ≤ max_nacks_per_packet
    → absorb receiver_addr b (nack_datagram batch) receiver_addr ≡ (enqueue b batch, false)
unfolding absorb on_feedback nack_datagram
absorb-nack_datagram receiver_addr b batch u fits =
    let parsed =
      parse_packet-encode (nack_header batch) (encode_nack_payload batch)
        (nack_header-IsHeader batch fits) (omega arith) in
    rw (addr_eq_refl receiver_addr, parsed, body, decode-encode_nack_payload batch [] u) refl
  where
    n : ℕ
    n = length (encode_nack_payload batch)

    body :
        slice header_size
          (header_size + n)
          (encode_header (nack_header batch) ++ encode_nack_payload batch)
        ≡ encode_nack_payload batch
    body =
        let e : header_size + n - header_size ≡ n = omega arith in
        rw
          (
            drop_front (encode_header (nack_header batch)) (encode_nack_payload batch) 7
                (sym (length-encode_header (nack_header batch))),
            e,
          )
          (take_all n (encode_nack_payload batch) (omega arith))

absorb_all-datagrams :
    (receiver_addr addr : SocketAddr) (b : Blast) (bs : List (List ℕ))
    → All (IsBatch max_nacks_per_packet) bs
    → All IsU32 (flatten bs)
    → absorb_all receiver_addr b (datagrams addr bs) ≡ enqueue b (flatten bs)
unfolding flatten enqueue
absorb_all-datagrams receiver_addr addr b [] a u = refl
absorb_all-datagrams receiver_addr addr b (x ∷ bs) (k, a) u =
    let (ux, us) = All-split IsU32 x (flatten bs) u in
    ap (λ (c : Blast × Bool). absorb_all receiver_addr c.0 (datagrams addr bs))
      (absorb-nack_datagram receiver_addr b x ux k.1)
    ∙ absorb_all-datagrams receiver_addr addr (enqueue b x) bs a us
    ∙ sym (enqueue-append b x (flatten bs))

-- Every datagram fits UDP.
abbrev pub FitsUdp : SocketAddr × List ℕ → Type 0
FitsUdp p = length p.1 ≤ max_udp_payload

datagrams-FitsUdp :
    (addr : SocketAddr) (bs : List (List ℕ))
    → All (IsBatch max_nacks_per_packet) bs
    → All FitsUdp (datagrams addr bs)
unfolding nack_datagram
datagrams-FitsUdp addr [] a = tt
datagrams-FitsUdp addr (x ∷ bs) (k, a) = (
  omega (
    arith,
    length-append (encode_header (nack_header x)) (encode_nack_payload x),
    length-encode_header (nack_header x),
    length-encode_nack_payload x,
    k.1,
  ),
  datagrams-FitsUdp addr bs a,
)

-- In a world without faults `emit_nacks` sends datagrams that each fit UDP, and when they reach the
-- sender in this order they put into its queue what `enqueue` of the whole list of missing chunks,
-- numbers of 32 bits, does: no number is lost or changed by the split into packets.
pub absorb_all-emit_nacks :
    (receiver_addr addr : SocketAddr) (b : Blast) (missing : List ℕ) (w : World)
    → w.faults ≡ []
    → All IsU32 missing
    → (ds : List (SocketAddr × List ℕ)) × (emit_nacks addr missing w
        ≡ (returned tt, record w { sent = w.sent ++ ds }))
      × All FitsUdp ds
      × (absorb_all receiver_addr b ds ≡ enqueue b missing)
unfolding emit_nacks
absorb_all-emit_nacks receiver_addr addr b missing w h u =
    let (e, a) = chunks_lem max_nacks_per_packet missing (omega arith) in
    let bs = chunks max_nacks_per_packet missing in
    (
      datagrams addr bs,
      send_batches_quiet addr bs w h a,
      datagrams-FitsUdp addr bs a,
      absorb_all-datagrams receiver_addr addr b bs a (rw e u) ∙ ap (enqueue b) e,
    )
