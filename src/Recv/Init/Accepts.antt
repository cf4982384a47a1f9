-- ===== src/Recv/Init/Accepts.antt =====
-- What an accepted INIT guarantees.
use udpcp.Base.{
  ℕ, ◌+◌, ◌%◌, ◌^◌, ◌≤◌, ◌<◌, ◌≡◌, refl, subst, List, Option, ltb, length, take, drop, slice,
  All-take, All-drop, length-take, length-drop, from_be_bytes, div_ceil, u32_mod, All, IsByte,
  arith, Bool-cases, inl, inr, ltb-false→le,
}
use udpcp.Base.Words.{from_be_bytes-lt}
use udpcp.Error.{Result, ok, err, InitError}
use udpcp.Io.Disk.{FilePath}
use udpcp.Protocol.{
  ProtocolVersion, validate_chunk_size, max_total_chunks, name_offset, max_udp_payload,
}
use udpcp.Protocol.ChunkSize.{validate_chunk_size_iff, overhead}
use udpcp.Recv.Init.{
  InitHeader, parse_init, parse_fields, parse_version, check_chunk_size, bounded_header,
  choose_path, ◌>>=◌,
}
use udpcp.Recv.State.Valid.{IsInit}

-- The steps of a successful parse.
steps_ok :
    {A B : Type 0} {f : A → Result B InitError} {b : B} (r : Result A InitError)
    → (r >>= f) ≡ ok b
    → (x : A) × (f x ≡ ok b) × (r ≡ ok x)
steps_ok (err reason) e = cc
steps_ok (ok x) e = (x, e, refl)

-- What is known of an accepted INIT payload.
pub record Accepted (payload : List ℕ) (out : Option FilePath) (h : InitHeader) : Type 0 where
  pub long_enough : name_offset ≤ length payload
  pub init : IsInit h
  pub chunk_fits : h.chunk_size + overhead h.version ≤ max_udp_payload
  pub size_field : h.size ≡ from_be_bytes (slice 1 9 payload)
  pub chunk_field : h.chunk_size ≡ from_be_bytes (slice 9 13 payload)
  pub hash_field : h.hash ≡ slice 13 45 payload
  pub path_chosen : choose_path (drop name_offset payload) out ≡ ok h.final_path

check_chunk_size-inv :
    (c : ℕ) (v : ProtocolVersion)
    → check_chunk_size c v ≡ ok tt
    → (0 < c) × (c + overhead v ≤ max_udp_payload)
unfolding check_chunk_size
check_chunk_size-inv c v e = at (validate_chunk_size c v) refl
  where
    at :
        (r : Result (Unit {0}) ℕ)
        → validate_chunk_size c v ≡ r
        → (0 < c) × (c + overhead v ≤ max_udp_payload)
    at (ok u) p = (validate_chunk_size_iff c v).0 p
    at (err limit) p = cc (rw (p, check_chunk_size) at e)

field_word :
    (n k : ℕ) (payload : List ℕ)
    → All IsByte payload
    → n + k ≤ length payload
    → from_be_bytes (take k (drop n payload)) < 256 ^ k
field_word n k payload b h =
    let long : length (take k (drop n payload)) ≡ k =
      omega (arith, length-take k (drop n payload), length-drop n payload) in
    subst (λ (m : ℕ). from_be_bytes (take k (drop n payload)) < 256 ^ m) long
      (from_be_bytes-lt (take k (drop n payload))
        (All-take IsByte k (drop n payload) (All-drop IsByte n payload b)))

bounded_header-inv :
    (version : ProtocolVersion) (size chunk_size : ℕ) (hash names : List ℕ) (out : Option FilePath)
    (h : InitHeader)
    → bounded_header version size chunk_size hash names out ≡ ok h
    → (path : FilePath) × (choose_path names out ≡ ok path)
      × (div_ceil size chunk_size ≤ max_total_chunks)
      × (h ≡ record {
        version = version;
        size = size;
        chunk_size = chunk_size;
        total = div_ceil size chunk_size % u32_mod;
        hash = hash;
        final_path = path;
      })
unfolding bounded_header
bounded_header-inv version size chunk_size hash names out h e =
    elim (Bool-cases (ltb max_total_chunks (div_ceil size chunk_size))) [
      | inl big ↦ cc (rw (big, bounded_header) at e)
      | inr small ↦
          let (path, q, p) = steps_ok (choose_path names out) (rw (small, bounded_header) at e) in
          (path, p, ltb-false→le _ _ small, cc q)
    ]

header-Accepted :
    (payload : List ℕ) (out : Option FilePath) (h : InitHeader) (version : ProtocolVersion)
    (size chunk_size : ℕ)
    → All IsByte payload
    → name_offset ≤ length payload
    → size ≡ from_be_bytes (slice 1 9 payload)
    → chunk_size ≡ from_be_bytes (slice 9 13 payload)
    → (0 < chunk_size) × (chunk_size + overhead version ≤ max_udp_payload)
    → bounded_header version size chunk_size (slice 13 45 payload) (drop 45 payload) out ≡ ok h
    → Accepted payload out h
header-Accepted payload out h version size chunk_size b long sf cf (positive, fits) e =
    let (path, p, bound, q) =
      bounded_header-inv version size chunk_size (slice 13 45 payload) (drop 45 payload) out h e in
    rw q (record {
      long_enough = long;
      init = record {
        chunk_positive = positive;
        size_word = rw sf (field_word 1 8 payload b (omega arith));
        total_chunks = omega arith;
        total_bounded = omega arith;
      };
      chunk_fits = fits;
      size_field = sf;
      chunk_field = cf;
      hash_field = refl;
      path_chosen = p;
    })

-- An INIT of bytes that is accepted is long enough, its chunk size is positive and fits the version, its size
-- is a u64, its chunk count is the size divided by the chunk size, rounded up and at most 2^24, its
-- numbers and its hash are those at their offsets, and its path was chosen from the name or the
-- override.
pub parse_init-Accepted :
    (payload : List ℕ) (out : Option FilePath) (h : InitHeader)
    → All IsByte payload
    → parse_init payload out ≡ ok h
    → Accepted payload out h
unfolding parse_init parse_fields
parse_init-Accepted payload out h b e = elim (Bool-cases (ltb (length payload) name_offset)) [
  | inl short ↦ cc (rw (short, parse_init) at e)
  | inr long ↦
      let (version, ev, pv) = steps_ok (parse_version payload) (rw (long, parse_init) at e) in
      let (u, ec, pc) =
        steps_ok (check_chunk_size (from_be_bytes (slice 9 13 payload)) version) ev in
      header-Accepted payload out h version _ _ b (ltb-false→le _ _ long) refl refl
        (check_chunk_size-inv _ version pc) ec
]
