-- ===== src/Protocol/RoundTrip.antt =====
-- Headers and packets through the wire: what is sent is parsed back, and nothing else is accepted.
use udpcp.Base.{
  ℕ, ◌+◌, ◌≤◌, ◌<◌, ◌≡◌, refl, sym, ap, ◌∙◌, List, [], ◌∷◌, ◌++◌, Option, none, some, length,
  length-append, take, take_all, arith, to_be_bytes, from_be_bytes, IsByte, u16_mod, u32_mod, All,
}
use mathlib.Core.Option.{some-injective}
use udpcp.Base.Words.{length-to_be_bytes, from-to_be_bytes, from_be_bytes-lt}
use udpcp.Protocol.{
  PacketType, init, ProtocolVersion, version1, version2, PacketHeader, packet_type_byte,
  packet_type_of, version_byte, version_of, encode_header, decode_header, parse_packet, with_type,
  in_bounds, header_size,
}

pub packet_type_of-byte : (t : PacketType) → packet_type_of (packet_type_byte t) ≡ some t
unfolding packet_type_of packet_type_byte
packet_type_of-byte init = refl
packet_type_of-byte _ = refl

pub version_of-byte : (v : ProtocolVersion) → version_of (version_byte v) ≡ some v
unfolding version_of version_byte
version_of-byte version1 = refl
version_of-byte version2 = refl

-- A header whose fields fit their widths.
pub record IsHeader (h : PacketHeader) : Type 0 where
  pub seq_fits : h.seq < u32_mod
  pub len_fits : h.payload_len < u16_mod

pub length-encode_header : (h : PacketHeader) → length (encode_header h) ≡ header_size
unfolding encode_header
length-encode_header h = omega (
  arith,
  length-append (to_be_bytes 4 h.seq) (to_be_bytes 2 h.payload_len),
  length-to_be_bytes 4 h.seq,
  length-to_be_bytes 2 h.payload_len,
)

pub decode-encode_header :
    (h : PacketHeader) (rest : List ℕ)
    → IsHeader h
    → decode_header (encode_header h ++ rest) ≡ some h
unfolding encode_header decode_header to_be_bytes
decode-encode_header h rest v = rw (
  packet_type_of-byte h.packet_type,
  from-to_be_bytes 4 h.seq v.seq_fits,
  from-to_be_bytes 2 h.payload_len v.len_fits,
)

-- A packet whose header fields fit their widths and whose payload is there is parsed to its header
-- and the end of its payload, whatever follows the payload.
pub parse_packet-encode :
    (h : PacketHeader) (rest : List ℕ)
    → IsHeader h
    → h.payload_len ≤ length rest
    → let d = encode_header h ++ rest in
      parse_packet d (length d) ≡ some (h, header_size + h.payload_len)
unfolding parse_packet
parse_packet-encode h rest v fits =
    rw
      (
        take_all (length (encode_header h ++ rest)) (encode_header h ++ rest) (omega arith),
        decode-encode_header h rest v,
      )
      (ground (arith, length-append (encode_header h) rest, length-encode_header h))

packet_type_of-inv : (b : ℕ) (t : PacketType) → packet_type_of b ≡ some t → packet_type_byte t ≡ b
unfolding packet_type_of packet_type_byte
packet_type_of-inv b t e = ground arith

with_type-inv :
    (o : Option PacketType) (seq len : ℕ) (h : PacketHeader)
    → with_type o seq len ≡ some h
    → (t : PacketType) × (o ≡ some t)
      × (h ≡ record { packet_type = t; seq = seq; payload_len = len })
unfolding with_type
with_type-inv none seq len h e = cc
with_type-inv (some t) seq len h e = (t, refl, cc)

four_bytes :
    (a b c d : ℕ)
    → IsByte a
    → IsByte b
    → IsByte c
    → IsByte d
    → to_be_bytes 4 (from_be_bytes (a ∷ b ∷ c ∷ d ∷ [])) ≡ a ∷ b ∷ c ∷ d ∷ []
unfolding to_be_bytes from_be_bytes
four_bytes a b c d ha hb hc hd = ground arith

two_bytes :
    (a b : ℕ) → IsByte a → IsByte b → to_be_bytes 2 (from_be_bytes (a ∷ b ∷ [])) ≡ a ∷ b ∷ []
unfolding to_be_bytes from_be_bytes
two_bytes a b ha hb = ground arith

-- What `decode_header` accepts starts with the encoding of its result.
pub decode_header-inv :
    (d : List ℕ) (h : PacketHeader)
    → All IsByte d
    → decode_header d ≡ some h
    → (rest : List ℕ) × (d ≡ encode_header h ++ rest) × IsHeader h
unfolding decode_header encode_header
decode_header-inv (t ∷ s0 ∷ s1 ∷ s2 ∷ s3 ∷ l0 ∷ l1 ∷ rest) h
      (bt, (b0, (b1, (b2, (b3, (c0, (c1, _))))))) e =
    let (t', p, q) = with_type-inv (packet_type_of t) _ _ h e in
    (
      rest,
      rw (q, packet_type_of-inv t t' p, four_bytes s0 s1 s2 s3 b0 b1 b2 b3, two_bytes l0 l1 c0 c1),
      rw q (record {
        seq_fits = from_be_bytes-lt (s0 ∷ s1 ∷ s2 ∷ s3 ∷ []) (b0, (b1, (b2, (b3, tt))));
        len_fits = from_be_bytes-lt (l0 ∷ l1 ∷ []) (c0, (c1, tt));
      }),
    )
decode_header-inv [] h b e = cc
decode_header-inv (_ ∷ []) h b e = cc
decode_header-inv (_ ∷ _ ∷ []) h b e = cc
decode_header-inv (_ ∷ _ ∷ _ ∷ []) h b e = cc
decode_header-inv (_ ∷ _ ∷ _ ∷ _ ∷ []) h b e = cc
decode_header-inv (_ ∷ _ ∷ _ ∷ _ ∷ _ ∷ []) h b e = cc
decode_header-inv (_ ∷ _ ∷ _ ∷ _ ∷ _ ∷ _ ∷ []) h b e = cc

in_bounds-inv :
    (n : ℕ) (o : Option PacketHeader) (h : PacketHeader) (payload_end : ℕ)
    → in_bounds n o ≡ some (h, payload_end)
    → (o ≡ some h) × (payload_end ≡ header_size + h.payload_len) × (payload_end ≤ n)
unfolding in_bounds
in_bounds-inv n none h payload_end e = cc
in_bounds-inv n (some h') h payload_end e = ground arith

-- Whatever the bytes, the payload that `parse_packet` names lies inside the datagram.
pub parse_packet_bounds :
    (d : List ℕ) (h : PacketHeader) (payload_end : ℕ)
    → parse_packet d (length d) ≡ some (h, payload_end)
    → (payload_end ≡ header_size + h.payload_len) × (payload_end ≤ length d)
unfolding parse_packet
parse_packet_bounds d h payload_end e =
    let (_, p, q) = in_bounds-inv _ (decode_header (take (length d) d)) h payload_end e in (p, q)

-- Behind an encoded header, that header is parsed if anything is.
pub parse_packet_header :
    (h h' : PacketHeader) (rest : List ℕ) (payload_end : ℕ)
    → IsHeader h'
    → let d = encode_header h' ++ rest in
      parse_packet d (length d) ≡ some (h, payload_end)
      → (h ≡ h') × (payload_end ≡ header_size + h'.payload_len)
unfolding parse_packet
parse_packet_header h h' rest payload_end v e =
    let d : List ℕ = encode_header h' ++ rest in
    let (p, q, _) = in_bounds-inv _ (decode_header (take (length d) d)) h payload_end e in
    let same : h ≡ h' =
      let decoded = rw (take_all (length d) d (omega arith)) at p in
      cc (decoded, decode-encode_header h' rest v) in
    (same, q ∙ ap (λ (k : PacketHeader). header_size + k.payload_len) same)

decode_header_type :
    (h k : PacketHeader) (rest : List ℕ)
    → decode_header (encode_header h ++ rest) ≡ some k
    → k.packet_type ≡ h.packet_type
unfolding encode_header decode_header to_be_bytes
decode_header_type h k rest e =
    let (t, p, q) = with_type-inv _ _ _ k e in
    ap (λ (x : PacketHeader). x.packet_type) q
    ∙ some-injective _ _ (sym p ∙ packet_type_of-byte h.packet_type)

-- Behind an encoded header, a packet of its type is parsed if anything is.
pub parse_packet_type :
    (h h' : PacketHeader) (rest : List ℕ) (payload_end : ℕ)
    → let d = encode_header h' ++ rest in
      parse_packet d (length d) ≡ some (h, payload_end) → h.packet_type ≡ h'.packet_type
unfolding parse_packet
parse_packet_type h h' rest payload_end e =
    let d : List ℕ = encode_header h' ++ rest in
    let (p, _, _) = in_bounds-inv _ (decode_header (take (length d) d)) h payload_end e in
    let decoded : decode_header d ≡ some h = rw (take_all (length d) d (omega arith)) at p in
    decode_header_type h' h rest decoded

-- Of a datagram of bytes `parse_packet` accepts nothing but the encoding of its result with the
-- whole payload behind it.
pub parse_packet-inv :
    (d : List ℕ) (h : PacketHeader) (payload_end : ℕ)
    → All IsByte d
    → parse_packet d (length d) ≡ some (h, payload_end)
    → (rest : List ℕ) × (d ≡ encode_header h ++ rest)
      × IsHeader h
      × (h.payload_len ≤ length rest)
      × (payload_end ≡ header_size + h.payload_len)
unfolding parse_packet
parse_packet-inv d h payload_end b e =
    let (p, q, r) = in_bounds-inv _ (decode_header (take (length d) d)) h payload_end e in
    let (rest, s, v) = decode_header-inv d h b (rw (take_all (length d) d (omega arith)) at p) in
    (
      rest,
      s,
      v,
      omega (
        arith,
        ap (length {A = ℕ}) s,
        length-append (encode_header h) rest,
        length-encode_header h,
      ),
      q,
    )
