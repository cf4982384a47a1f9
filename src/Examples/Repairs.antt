-- ===== src/Examples/Repairs.antt =====
-- The offer of a file, a NACK round, and the end of a transfer.
use udpcp.Base.{
  ℕ, ◌<◌, ◌≡◌, ◌≢◌, refl, ◌↔◌, ◌⊎◌, List, [], ◌∷◌, ◌++◌, none, some, replicate, In, All, arith,
  div_ceil, bytes_eq,
}
use udpcp.Error.{ok, IoError}
use udpcp.Report.{SocketAddr}
use udpcp.Io.{World, returned, raised}
use udpcp.Io.Disk.{FilePath, put}
use udpcp.Protocol.{version2, validate_chunk_size, verifies, send_limits_default}
use udpcp.Recv.Utf8.{from_utf8, any_control, is_control}
use udpcp.Recv.Paths.{file_name}
use udpcp.Recv.Init.{parse_init, choose_path, until_nul}
use udpcp.Recv.Gaps.{send_nacks}
use udpcp.Recv.Finish.{flush}
use udpcp.Recv.Finish.Safety.{flush-safe}
use udpcp.Send.Session.{SendSession}
use udpcp.Send.Handshake.{init_payload}
use udpcp.Send.Blast.{new, enqueue, range_from}
use udpcp.Send.Blast.Queue.{IsQueue, enqueue-IsQueue}
use udpcp.Send.Blast.Turnover.{new-IsQueue}
use udpcp.EndToEnd.Inits.{IsOffer, parse_init-init_payload}
use udpcp.EndToEnd.Nacks.{FitsUdp, absorb_all}
use udpcp.EndToEnd.Repair.{Repaired, absorb_all-send_nacks}
use udpcp.Examples.Toy.{toy_sha, peer}
use udpcp.Examples.Delivery.{fresh, fresh-IsValid, fresh_world, tmp}

abbrev pub session : SendSession
session = record {
  target = peer;
  chunk_size = 2;
  total_chunks = 2;
  delay = none;
  version = version2;
  limits = send_limits_default;
}

abbrev digest_bytes : List ℕ
digest_bytes = replicate {A = ℕ} 32 7

session-IsOffer : IsOffer session 3 digest_bytes
unfolding validate_chunk_size verifies div_ceil
session-IsOffer = record {
  chunk_word = omega arith;
  chunk_valid = refl;
  size_word = omega arith;
  chunks_bounded = omega arith;
  digest_size = refl;
}

pub plain_name : choose_path (b'f' ∷ 0 ∷ []) none ≡ ok (b'f' ∷ [])
unfolding choose_path from_utf8 file_name any_control is_control until_nul
plain_name = refl

parse_init-init_payload_example :
    parse_init (init_payload session (b'f' ∷ []) 3 digest_bytes) none
    ≡ ok (record {
      version = version2;
      size = 3;
      chunk_size = 2;
      total = 2;
      hash = digest_bytes;
      final_path = b'f' ∷ [];
    })
unfolding div_ceil
parse_init-init_payload_example =
    parse_init-init_payload session (b'f' ∷ []) 3 digest_bytes none (b'f' ∷ []) session-IsOffer
      plain_name

pub start-IsQueue : IsQueue (new 2)
start-IsQueue = let (q, _) = new-IsQueue 2 in q

absorb_all-send_nacks_example :
    (ds : List (SocketAddr × List ℕ)) × (v : World) × (send_nacks fresh peer fresh_world
      ≡ (returned tt, v))
    × (v.sent ≡ [] ++ ds)
    × All FitsUdp ds
    × Repaired fresh (new 2) (absorb_all peer (new 2) ds)
unfolding new
absorb_all-send_nacks_example =
    absorb_all-send_nacks fresh (new 2) peer peer fresh_world fresh-IsValid start-IsQueue refl refl

enqueue-IsQueue_example :
    IsQueue (enqueue (new 2) (1 ∷ 5 ∷ []))
    × ((enqueue (new 2) (1 ∷ 5 ∷ [])).total_chunks ≡ 2)
    × ((k : ℕ)
        → In k (enqueue (new 2) (1 ∷ 5 ∷ [])).pending
          ↔ (In k (0 ∷ 1 ∷ []) ⊎ ((k < 2) × In k (1 ∷ 5 ∷ []))))
unfolding new range_from
enqueue-IsQueue_example = enqueue-IsQueue (new 2) (1 ∷ 5 ∷ []) start-IsQueue

tmp_there : fresh_world.files tmp ≡ some (0 ∷ 0 ∷ 0 ∷ [])
unfolding bytes_eq
tmp_there = refl

flush-safe_example :
    ((e : IoError) × (v : World) × (flush toy_sha fresh fresh_world ≡ (raised e, v))
      × ((p : FilePath) → p ≢ tmp → v.files p ≡ fresh_world.files p)
      × (fresh_world.faults ≡ [] → (v.files tmp ≡ none) × (toy_sha.digest (0 ∷ 0 ∷ 0 ∷ []) ≢ [])))
    ⊎ ((v : World) × (flush toy_sha fresh fresh_world ≡ (returned tt, v))
        × (toy_sha.digest (0 ∷ 0 ∷ 0 ∷ []) ≡ [])
        × (v.files ≡ put (b'f' ∷ []) (some (0 ∷ 0 ∷ 0 ∷ [])) (put tmp none fresh_world.files)))
flush-safe_example = flush-safe toy_sha fresh (0 ∷ 0 ∷ 0 ∷ []) fresh_world tmp_there
