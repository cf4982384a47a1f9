-- ===== src/Examples/Delivery.antt =====
-- A file of three bytes in chunks of two, delivered backwards with a repetition.
use udpcp.Base.{
  ℕ, ◌↔◌, In, false, zero, suc, ◌≡◌, ◌<◌, refl, sym, All, List, [], ◌∷◌, some, none, ◌⊎◌, inl, inr,
  true, arith, bytes_eq, div_ceil,
}
use udpcp.Error.{IoError}
use udpcp.Io.{World, returned, raised}
use udpcp.Protocol.{version1, verifies}
use udpcp.Recv.State.{ReceiveState, full, store}
use udpcp.Recv.State.Storing.{StoreCases, store-cases}
use udpcp.Recv.Gaps.{collect_missing}
use udpcp.Recv.Gaps.Missing.{collect_missing-exact}
use udpcp.Recv.State.Bitmap.{bit_in, bit_in-replicate}
use udpcp.Recv.State.Counting.{count_none}
use udpcp.Recv.State.Valid.{IsValid}
use udpcp.Recv.State.Assembly.{chunk_of, store-IsValid}
use udpcp.Send.Chunks.{data_payload}
use udpcp.EndToEnd.Transfer.{Running, deliver, deliver_complete, Arrives, IsFaithful}
use udpcp.Examples.Toy.{toy_sha, world, one_file}

abbrev pub whole : List ℕ
whole = 1 ∷ 2 ∷ 3 ∷ []

abbrev pub tmp : List ℕ
tmp = b'f' ∷ b'.' ∷ b't' ∷ b'm' ∷ b'p' ∷ []

abbrev pub fresh : ReceiveState
fresh = record {
  tmp_path = tmp;
  final_path = b'f' ∷ [];
  received = 0 ∷ [];
  total = 2;
  size = 3;
  chunk_size = 2;
  hash = [];
  count = 0;
  start = 0;
  version = version1;
  frontier = 0;
  oldest_gap_at = none;
}

abbrev pub fresh_world : World
fresh_world = world (one_file tmp (0 ∷ 0 ∷ 0 ∷ [])) []

none_received : (j : ℕ) → bit_in (0 ∷ []) j ≡ true → ⊥
none_received j e = cc (bit_in-replicate 1 j)

pub fresh-IsValid : IsValid fresh
unfolding div_ceil
fresh-IsValid = record {
  sized = record {
    chunk_positive = omega arith;
    size_word = omega arith;
    total_chunks = refl;
    total_bounded = omega arith;
  };
  consistent = record {
    covers = refl;
    count_right = sym (count_none (bit_in (0 ∷ [])) 2 (bit_in-replicate 1));
    frontier_bounded = omega arith;
    frontier_above = λ j e. absurd (none_received j e);
    gap_clock = refl;
  };
}

pub fresh-Running : Running whole fresh fresh_world
unfolding bytes_eq
fresh-Running = record {
  valid = fresh-IsValid;
  no_faults = refl;
  file = 0 ∷ 0 ∷ 0 ∷ [];
  on_disk = refl;
  holds = record {
    whole_size = refl;
    file_size = refl;
    agrees = λ i lt e. absurd (none_received _ e);
  };
}

abbrev pub backwards : List (ℕ × List ℕ)
backwards = (1, 3 ∷ []) ∷ (0, 1 ∷ 2 ∷ []) ∷ (1, 3 ∷ []) ∷ []

each_one : (seq : ℕ) → seq < 2 → Arrives toy_sha whole fresh seq backwards
unfolding data_payload verifies chunk_of
each_one zero h = inr (inl (refl, refl))
each_one (suc zero) h = inl (refl, refl)
each_one (suc (suc n)) h = absurd (omega arith)

packets_ok : All (IsFaithful toy_sha whole fresh) backwards
unfolding data_payload verifies chunk_of
packets_ok = (inl refl, (inl refl, (inl refl, tt)))

deliver_complete_example :
    (t : ReceiveState) × (v : World) × (deliver toy_sha fresh backwards fresh_world
      ≡ (returned t, v))
    × (full t ≡ true)
    × (v.files t.tmp_path ≡ some whole)
deliver_complete_example =
    deliver_complete toy_sha whole fresh backwards fresh_world fresh-Running packets_ok each_one

store-cases_example : StoreCases fresh 1 (3 ∷ []) fresh_world (store fresh 1 (3 ∷ []) fresh_world)
store-cases_example = store-cases fresh 1 (3 ∷ []) fresh_world fresh-IsValid

store-IsValid_example :
    ((e : IoError) × (v : World) × (store fresh 1 (3 ∷ []) fresh_world ≡ (raised e, v)))
    ⊎ ((t : ReceiveState) × (v : World) × (store fresh 1 (3 ∷ []) fresh_world ≡ (returned t, v))
        × IsValid t)
store-IsValid_example = store-IsValid fresh 1 (3 ∷ []) fresh_world fresh-IsValid

collect_missing-exact_example :
    (xs : List ℕ) × (collect_missing fresh 2 ≡ some xs)
    × ((x : ℕ) → In x xs ↔ ((x < 2) × (x < 2) × (bit_in (0 ∷ []) x ≡ false)))
collect_missing-exact_example = collect_missing-exact fresh 2 fresh-IsValid
