-- ===== src/Recv/State/Offering.antt =====
-- `accept_data` does to a partial file what its specification says.
use udpcp.Base.{
  ℕ, ◌*◌, ◌/◌, ◌↔◌, ◌<◌, ◌≡◌, ◌≢◌, refl, ◌∙◌, inl, inr, List, [], Option, none, some, true, ==_iff,
  get_elem?_in, length-write_at, arith, write_at, Bool-cases,
}
use udpcp.Base.Words.{div-lt-div_ceil}
use udpcp.Io.{World, returned}
use udpcp.Io.Disk.{put_self}
use udpcp.Protocol.Hashing.{Sha256}
use udpcp.Recv.State.{ReceiveState, full, store, accept_data, verified_body}
use udpcp.Recv.State.Bitmap.{bit_in}
use udpcp.Recv.State.Counting.{count_below, count_below_full, count_below_all}
use udpcp.Recv.State.Valid.{expected_len_lem}
use udpcp.Recv.State.Storing.{store-cases, stored_state}
use udpcp.Recv.State.Assembly.{stored_state-IsValid}
use udpcp.Recv.State.Partial.{
  Bytes, offered, Stands, Stands-unfit, below, at_chunk, outside, first_byte, unfit_known,
  unfit_length, stored_view,
}

store-Stands :
    (p : Bytes) (s : ReceiveState) (w : World) (seq : ℕ) (d : List ℕ) (h : Stands p s w)
    → (t : ReceiveState) × (v : World) × (store s seq d w ≡ (returned t, v))
      × Stands (offered s.chunk_size s.size p seq (some d)) t v
store-Stands p s w seq d h = elim (store-cases s seq d w h.valid) [
  | inl (e, inl beyond) ↦ (s, w, e, Stands-unfit p s w seq d h (outside p s w seq d h beyond))
  | inl (e, inr (inl known)) ↦
      (s, w, e, Stands-unfit p s w seq d h (unfit_known p s w seq d h known))
  | inl (e, inr (inr wrong)) ↦
      (s, w, e, Stands-unfit p s w seq d h (unfit_length p s w seq d h wrong))
  | inr (lt, f, long, inl (e, fs, q, faulty)) ↦ absurd (faulty h.no_faults)
  | inr (lt, f, long, inr (words, g, v, q, st, files, _, _, faults)) ↦
      let (_, _, fits) = expected_len_lem s seq h.valid.sized lt in
      (
        stored_state s seq words g,
        v,
        q,
        record {
          valid = stored_state-IsValid s seq words g h.valid lt f st;
          no_faults = faults h.no_faults;
          file = write_at h.file (seq * s.chunk_size) d;
          on_disk = rw (files, put_self, h.on_disk);
          file_size =
              length-write_at h.file (seq * s.chunk_size) d (omega (arith, long, fits, h.file_size))
              ∙ h.file_size;
          view = stored_view p s w seq d h words g lt f long st;
        },
      )
]

-- In a world without faults `accept_data` does what the specification of a DATA packet says, for
-- any payload: when the state and the temporary file stand for a partial file, it returns, and the
-- new ones stand for the partial file with the offered bytes, the chunk's bytes if the payload is
-- one that passes the check of its hash.
pub accept_data-Stands :
    (sha : Sha256) (p : Bytes) (s : ReceiveState) (seq : ℕ) (payload : List ℕ) (w : World)
    → Stands p s w
    → (t : ReceiveState) × (v : World) × (accept_data sha s seq payload w ≡ (returned t, v))
      × Stands (offered s.chunk_size s.size p seq (verified_body sha s payload)) t v
unfolding accept_data
accept_data-Stands sha p s seq payload w h = at (verified_body sha s payload) refl
  where
    at :
        (body : Option (List ℕ))
        → verified_body sha s payload ≡ body
        → (t : ReceiveState) × (v : World) × (accept_data sha s seq payload w ≡ (returned t, v))
          × Stands (offered s.chunk_size s.size p seq (verified_body sha s payload)) t v
    at none e = rw (e, accept_data) (s, w, refl, h)
    at (some body) e = rw (e, accept_data) (store-Stands p s w seq body h)

-- A state that stands for a partial file is full exactly when every byte of the file is known.
pub full_iff_known :
    (p : Bytes) (s : ReceiveState) (w : World)
    → Stands p s w
    → (full s ≡ true) ↔ ((i : ℕ) → i < s.size → p i ≢ none)
unfolding full
full_iff_known p s w h = (
  λ e i lt unknown.
      let known : bit_in s.received (i / s.chunk_size) ≡ true =
        count_below_full (bit_in s.received) s.total (i / s.chunk_size)
          (omega (arith, h.valid.consistent.count_right, (==_iff s.count s.total).0 e))
          (omega (
            arith,
            h.valid.sized.total_chunks,
            div-lt-div_ceil i s.size s.chunk_size h.valid.sized.chunk_positive lt,
          )) in
      let (b, q) = get_elem?_in h.file i (omega (arith, h.file_size)) in
      let there : p i ≡ some b = rw (h.view i lt, known) q in cc,
  λ all.
      let every : count_below (bit_in s.received) s.total ≡ s.total =
        count_below_all (bit_in s.received) s.total λ seq lt.
          elim (Bool-cases (bit_in s.received seq)) [
            | inl known ↦ known
            | inr f ↦
                let inside : seq * s.chunk_size < s.size = (below p s w seq [] h).0 lt in
                absurd (
                  all (seq * s.chunk_size) inside
                    (rw (first_byte p s w seq [] h inside, at_chunk p s w seq [] h, f) refl))
          ] in
      (==_iff s.count s.total).1 (omega (arith, every, h.valid.consistent.count_right)),
)
