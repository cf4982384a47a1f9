-- ===== src/Recv/State.antt =====
-- `ReceiveState` of lib/recv.rs: the bitmap of received chunks, and the handling of one DATA packet.
pub mod Naming
pub mod Bitmap
pub mod Counting
pub mod Storing
pub mod Valid
pub mod Assembly
pub mod Starting
pub mod Keeping
pub mod Partial
pub mod Offering
use udpcp.Base.{
  ℕ, zero, suc, ◌+◌, ◌-◌, ◌*◌, ◌/◌, ◌%◌, ◌^◌, min, max, List, [], ◌∷◌, ◌++◌, Option, none, some,
  Bool, true, false, ltb, leb, ◌==◌, if◌then◌else◌, length, take, drop, set, get_elem?, replicate,
  bytes_eq, div_ceil, u32_mod, u64_mod,
}
use udpcp.Base.Bits.{test_bit, set_bit}
use udpcp.Error.{IoError, Result, ok, err, InitError, create_failed, set_len_failed}
use udpcp.Report.{receiving, progress}
use udpcp.Io.{Io, pure, ◌>>=◌, ◌>>◌, attempt, or_panic, now, report}
use udpcp.Io.Disk.{FilePath}
use udpcp.Io.FileOps.{create, set_len, write_all_at}
use udpcp.Protocol.{ProtocolVersion, verifies, bitmap_bits_per_word, sha256_digest_size}
use udpcp.Protocol.Hashing.{Sha256}
use udpcp.Recv.Paths.{file_name, with_file_name}
use udpcp.Recv.Init.{InitHeader, parse_init}

-- The open file is the one at `tmp_path`.
pub record ReceiveState : Type 0 where
  pub tmp_path : FilePath
  pub final_path : FilePath
  pub received : List ℕ
  pub total : ℕ
  pub size : ℕ
  pub chunk_size : ℕ
  pub hash : List ℕ
  pub count : ℕ
  pub start : ℕ
  pub version : ProtocolVersion
  pub frontier : ℕ
  pub oldest_gap_at : Option ℕ

or_empty : Option (List ℕ) → List ℕ
or_empty none = []
or_empty (some n) = n

-- The sibling `<name>.tmp`.
unfoldable pub tmp_path_of : FilePath → FilePath
unfolding or_empty
tmp_path_of p = with_file_name p (or_empty (file_name p) ++ b'.' ∷ b't' ∷ b'm' ∷ b'p' ∷ [])

unfoldable pub start_state : InitHeader → ℕ → ReceiveState
start_state h start = record {
  tmp_path = tmp_path_of h.final_path;
  final_path = h.final_path;
  received = replicate (div_ceil h.total bitmap_bits_per_word) 0;
  total = h.total;
  size = h.size;
  chunk_size = h.chunk_size;
  hash = h.hash;
  count = 0;
  start = start;
  version = h.version;
  frontier = 0;
  oldest_gap_at = none;
}

unfoldable pub begin_state : InitHeader → Io (Result ReceiveState InitError)
unfolding start_state
begin_state h = do
  report (receiving h.final_path h.size h.total h.chunk_size)
  start ← now
  pure (ok (start_state h start))

-- When `set_len` fails the file stays: there is no state yet whose `drop` would remove it.
unfoldable pub with_length :
    InitHeader → Result (Unit {0}) IoError → Io (Result ReceiveState InitError)
unfolding begin_state
with_length h (err e) = pure (err (set_len_failed (tmp_path_of h.final_path) e))
with_length h (ok _) = begin_state h

unfoldable pub with_file :
    InitHeader → Result (Unit {0}) IoError → Io (Result ReceiveState InitError)
unfolding with_length
with_file h (err e) = pure (err (create_failed (tmp_path_of h.final_path) e))
with_file h (ok _) = attempt (set_len (tmp_path_of h.final_path) h.size) >>= with_length h

-- The temporary file is made and given its length.
unfoldable pub open_state : InitHeader → Io (Result ReceiveState InitError)
unfolding with_file
open_state h = attempt (create (tmp_path_of h.final_path)) >>= with_file h

unfoldable pub new : List ℕ → Option FilePath → Io (Result ReceiveState InitError)
unfolding open_state
new payload out = elim (parse_init payload out) [ err e ↦ pure (err e) | ok h ↦ open_state h ]

-- `none` is an index out of bounds, a panic.
unfoldable pub is_received : ReceiveState → ℕ → Option Bool
is_received s seq = elim (get_elem? s.received (seq / bitmap_bits_per_word)) [
  | none ↦ none
  | some w ↦ some (test_bit w (seq % bitmap_bits_per_word))
]

unfoldable pub mark_received : ReceiveState → ℕ → Option ReceiveState
mark_received s seq =
    let i = seq / bitmap_bits_per_word in
    elim (get_elem? s.received i) [
      | none ↦ none
      | some w ↦
          some (record s { received = set s.received i (set_bit w (seq % bitmap_bits_per_word)) })
    ]

unfoldable pub full : ReceiveState → Bool
full s = s.count == s.total

unfoldable pub has_open_gap : ReceiveState → Bool
has_open_gap s = ltb s.count s.frontier

-- `oldest_gap_at.unwrap_or_else(Instant::now)`
unfoldable pub since : Option ℕ → Io ℕ
since none = now
since (some t) = pure t

unfoldable pub refresh_gap_clock : ReceiveState → Io ReceiveState
unfolding has_open_gap since
refresh_gap_clock s =
    if has_open_gap s
    then since s.oldest_gap_at >>= (λ t. pure (record s { oldest_gap_at = some t }))
    else pure (record s { oldest_gap_at = none })

-- The bytes that chunk `seq` must have. In `self.size - offset` the machine word wraps.
unfoldable pub expected_len : ReceiveState → ℕ → ℕ
expected_len s seq = min ((s.size + u64_mod - seq * s.chunk_size) % u64_mod) s.chunk_size

-- `count` and `frontier` after a chunk is stored.
unfoldable pub counted : ReceiveState → ℕ → ReceiveState
counted s seq = record s {
  count = (s.count + 1) % u32_mod;
  frontier = max s.frontier ((seq + 1) % u32_mod);
}

-- The chunk goes to the file, then into the bitmap and the counters.
unfoldable pub store_chunk : ReceiveState → ℕ → List ℕ → Io ReceiveState
store_chunk s seq data' = do
  write_all_at s.tmp_path data' (seq * s.chunk_size)
  marked ← or_panic (mark_received s seq)
  s' ← refresh_gap_clock (counted marked seq)
  t ← now
  report (progress s'.count s'.total s'.chunk_size (t - s'.start))
  pure s'

unfoldable pub store : ReceiveState → ℕ → List ℕ → Io ReceiveState
store s seq data' =
    if leb s.total seq
    then pure s
    else (or_panic (is_received s seq) >>= λ known.
        if known
        then pure s
        else (if length data' == expected_len s seq then store_chunk s seq data' else pure s))

module _ (sha : Sha256) where
  open sha use {digest}

  -- The chunk of a DATA packet, unless its hash is missing or does not match.
  unfoldable pub verified_body : ReceiveState → List ℕ → Option (List ℕ)
  verified_body s payload =
      if verifies s.version
      then (if ltb (length payload) sha256_digest_size
          then none
          else (let body = drop sha256_digest_size payload in
              if bytes_eq (digest body) (take sha256_digest_size payload) then some body else none))
      else some payload

  unfoldable pub accept_data : ReceiveState → ℕ → List ℕ → Io ReceiveState
  accept_data s seq payload = elim (verified_body s payload) [
    | some body ↦ store s seq body
    | none ↦ pure s
  ]
