-- ===== src/EndToEnd/Session.antt =====
-- What a receiver makes of the datagrams of one `run_send`, in any order, with any of them lost or
-- repeated.
use udpcp.Base.{
  ℕ, ◌+◌, ◌%◌, ◌<◌, ◌≡◌, sym, ◌∙◌, ap, List, [], ◌∷◌, ◌++◌, Option, some, All, All-take, All-drop,
  IsByte, arith, length, length-append, slice, drop, take_front, take_all, ◌-◌, drop_front,
  to_be_bytes, u16_mod, u32_mod,
}
use udpcp.Error.{ok}
use udpcp.Report.{SocketAddr}
use udpcp.Io.Disk.{FilePath}
use udpcp.Protocol.{
  PacketType, init, data_chunk, done, fin_ack, PacketHeader, encode_header, parse_packet,
  header_size,
}
use udpcp.Protocol.Hashing.{Sha256}
use udpcp.Protocol.RoundTrip.{parse_packet_header, length-encode_header}
use udpcp.Recv.Init.{InitHeader, parse_init, choose_path}
use udpcp.Recv.Init.Accepts.{Accepted, parse_init-Accepted}
use udpcp.Send.Session.{SendSession}
use udpcp.Send.Handshake.{init_payload}
use udpcp.Send.Packets.{
  IsOurs, our_init, our_chunk, our_done, our_fin_ack, packet_bytes, control_bytes,
}

pub length-init_payload :
    (s : SendSession) (name : List ℕ) (size : ℕ) (hash : List ℕ)
    → length (init_payload s name size hash) ≡ 14 + length hash + length name
unfolding init_payload to_be_bytes
length-init_payload s name size hash =
    omega (arith, length-append hash (name ++ 0 ∷ []), length-append name (0 ∷ []))

the_header :
    (payload d : List ℕ) (h : PacketHeader) (end : ℕ) (t : PacketType) (seq : ℕ)
    → d ≡ packet_bytes t seq payload
    → parse_packet d (length d) ≡ some (h, end)
    → seq < u32_mod
    → (h.packet_type ≡ t) × (end ≡ header_size + length payload % u16_mod)
the_header payload d h end t seq same parsed lt =
    let sent : PacketHeader = record {
      packet_type = t;
      seq = seq;
      payload_len = length payload % u16_mod;
    } in
    let (p, q) =
      parse_packet_header h sent payload end (record { seq_fits = lt; len_fits = omega arith })
        (rw same at parsed) in
    (ap (λ (k : PacketHeader). k.packet_type) p, q)

the_control :
    (d : List ℕ) (h : PacketHeader) (end : ℕ) (t : PacketType) (seq : ℕ)
    → d ≡ control_bytes t seq
    → parse_packet d (length d) ≡ some (h, end)
    → seq < u32_mod
    → (h.packet_type ≡ t) × (end ≡ header_size + 0)
the_control d h end t seq same parsed lt = the_header [] d h end t seq same parsed lt

-- The payload of a packet.
sent_payload :
    (h : PacketHeader) (payload : List ℕ)
    → slice header_size (header_size + length payload) (encode_header h ++ payload) ≡ payload
sent_payload h payload =
    let behind : drop 7 (encode_header h ++ payload) ≡ payload =
      drop_front (encode_header h) payload 7 (sym (length-encode_header h)) in
    rw behind (take_all (7 + length payload - 7) payload (omega arith))

module _ (sha : Sha256) (s : SendSession) (whole name : List ℕ) where
  abbrev payload : List ℕ
  payload = init_payload s name (length whole) (sha.digest whole)

  hash_sent : slice 13 45 payload ≡ sha.digest whole
  hash_sent =
      unfold init_payload to_be_bytes in
      take_front (sha.digest whole) (name ++ 0 ∷ []) 32 (sym (sha.length-digest whole))

  name_sent : drop 45 payload ≡ name ++ 0 ∷ []
  name_sent =
      unfold init_payload to_be_bytes in
      drop_front (sha.digest whole) (name ++ 0 ∷ []) 32 (sym (sha.length-digest whole))

  -- What an accepted INIT of the session says.
  pub record Says (out : Option FilePath) (i : InitHeader) : Type 0 where
    pub hash_right : i.hash ≡ sha.digest whole
    pub path_right : choose_path (name ++ 0 ∷ []) out ≡ ok i.final_path

  Accepted-Says : (out : Option FilePath) (i : InitHeader) → Accepted payload out i → Says out i
  Accepted-Says out i a = record {
    hash_right = a.hash_field ∙ hash_sent;
    path_right = rw name_sent at a.path_chosen;
  }

  module _ (short : 46 + length name < u16_mod) (chunks : s.total_chunks < u32_mod) where
    payload_fits : length payload % u16_mod ≡ length payload
    payload_fits = omega (
      arith,
      length-init_payload s name (length whole) (sha.digest whole),
      sha.length-digest whole,
    )

    -- Nothing else that the session sends is an INIT.
    pub IsOurs-Says :
        (out : Option FilePath) (a : SocketAddr) (d : List ℕ) (h : PacketHeader) (end : ℕ)
        (i : InitHeader)
        → IsOurs sha s whole name a d
        → All IsByte d
        → parse_packet d (length d) ≡ some (h, end)
        → h.packet_type ≡ init
        → parse_init (slice header_size end d) out ≡ ok i
        → Says out i
    IsOurs-Says out a d h end i (our_init to same) bytes parsed is_init accepted =
        let read = the_header payload d h end init 0 same parsed (omega arith) in
        let read_payload : slice header_size end d ≡ payload =
          rw (same, read.1, payload_fits) (sent_payload _ payload) in
        Accepted-Says out i (
          parse_init-Accepted payload out i
            (rw (← read_payload) (All-take IsByte _ _ (All-drop IsByte header_size d bytes)))
            (rw read_payload at accepted))
    IsOurs-Says out a d h end i (our_chunk seq lt to same) bytes parsed is_init accepted =
        cc
          ((the_header _ d h end data_chunk seq same parsed (omega (arith, lt, chunks))).0, is_init)
    IsOurs-Says out a d h end i (our_done to same) bytes parsed is_init accepted =
        cc ((the_control d h end done s.total_chunks same parsed chunks).0, is_init)
    IsOurs-Says out a d h end i (our_fin_ack same) bytes parsed is_init accepted =
        cc ((the_control d h end fin_ack 0 same parsed (omega arith)).0, is_init)
