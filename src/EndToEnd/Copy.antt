-- ===== src/EndToEnd/Copy.antt =====
-- A whole transfer at the receiver: the INIT, the DATA packets and the DONE.
use udpcp.Base.{
  ℕ, ◌-◌, ◌%◌, ◌<◌, ◌≡◌, refl, sym, ◌∙◌, inl, inr, List, [], ◌∷◌, ◌++◌, Option, some, false≢true,
  All, arith, length, take, replicate, length-append, length-take, length-replicate, div_ceil,
  u32_mod,
}
use udpcp.Error.{ok}
use udpcp.Report.{SocketAddr, receiving}
use udpcp.Io.{World, returned, ◌>>=◌, report, syscall}
use udpcp.Io.Disk.{FilePath, put, put_self}
use udpcp.Io.FileOps.{create, set_len, resized}
use udpcp.Io.Clock.{now-cases}
use udpcp.Protocol.ChunkSize.{validate_chunk_size_iff}
use udpcp.Protocol.Hashing.{Sha256}
use udpcp.Recv.Init.{InitHeader, choose_path}
use udpcp.Recv.State.{
  ReceiveState, start_state, begin_state, with_length, with_file, open_state, new, tmp_path_of,
}
use udpcp.Recv.State.Bitmap.{bit_in-replicate}
use udpcp.Recv.State.Valid.{IsInit, start_state-IsValid}
use udpcp.Recv.Finish.{complete, handle_done}
use udpcp.Recv.Finish.Safety.{flush-safe}
use udpcp.Send.Session.{SendSession}
use udpcp.Send.Handshake.{init_payload}
use udpcp.EndToEnd.Inits.{IsOffer, parse_init-init_payload}
use udpcp.EndToEnd.Transfer.{Running, Running-full, deliver, deliver-Running, IsFaithful, Arrives}

create_ok :
    (p : FilePath) (w : World)
    → w.faults ≡ []
    → create p w ≡ (returned tt, record w { files = put p (some []) w.files })
unfolding create syscall
create_ok p w h = rw (h, create)

set_len_ok :
    (p : FilePath) (n : ℕ) (c : List ℕ) (w : World)
    → w.faults ≡ []
    → w.files p ≡ some c
    → set_len p n w ≡ (returned tt, record w { files = put p (some (resized n c)) w.files })
unfolding set_len syscall
set_len_ok p n c w h e = rw (h, e, set_len)

length-resized : (n : ℕ) → length (resized n []) ≡ n
length-resized n = omega (
  arith,
  length-append (take {A = ℕ} n []) (replicate {A = ℕ} (n - 0) 0),
  length-take {A = ℕ} n [],
  length-replicate {A = ℕ} (n - 0) 0,
)

module _ (i : InitHeader) (w : World) (h : w.faults ≡ []) where
  abbrev tmp : FilePath
  tmp = tmp_path_of i.final_path

  abbrev created : World
  created = record w { files = put tmp (some []) w.files }

  abbrev sized : World
  sized = record created { files = put tmp (some (resized i.size [])) created.files }

  open_state_ok :
      (start : ℕ) × (v : World) × (open_state i w ≡ (returned (ok (start_state i start)), v))
      × (v.faults ≡ [])
      × (v.files ≡ sized.files)
  unfolding open_state with_file with_length begin_state report
  open_state_ok =
      let reported = (report (receiving i.final_path i.size i.total i.chunk_size) sized).1 in
      let (start, r, p, _) = now-cases reported in
      (
        start,
        record reported { clock = start; ticks = r },
        rw
            (
              create_ok tmp w h,
              set_len_ok tmp i.size [] created h (put_self tmp (some []) w.files),
              p,
            )
            refl,
        h,
        refl,
      )

module _ (sha : Sha256) where
  open sha use {digest}

  -- In a world without faults the receiver accepts the INIT that the sender makes for a file that
  -- it has checked and a name or an override that gives a path: `new` returns a state for that path
  -- and the hash of the file, with a transfer of the file under way.
  pub new-Running :
      (whole : List ℕ) (session : SendSession) (name : List ℕ) (out : Option FilePath)
      (path : FilePath) (w : World)
      → IsOffer session (length whole) (digest whole)
      → choose_path (name ++ 0 ∷ []) out ≡ ok path
      → w.faults ≡ []
      → (s : ReceiveState) × (v : World) × (new
            (init_payload session name (length whole) (digest whole))
            out
            w
          ≡ (returned (ok s), v))
        × Running whole s v
        × (s.hash ≡ digest whole)
        × (s.final_path ≡ path)
  unfolding new start_state
  new-Running whole session name out path w o e h =
      let i : InitHeader = record {
        version = session.version;
        size = length whole;
        chunk_size = session.chunk_size;
        total = div_ceil (length whole) session.chunk_size % u32_mod;
        hash = digest whole;
        final_path = path;
      } in
      let parsed =
        parse_init-init_payload session name (length whole) (digest whole) out path o e in
      let (positive, _) =
        (validate_chunk_size_iff session.chunk_size session.version).0 o.chunk_valid in
      let total : div_ceil (length whole) session.chunk_size % u32_mod
          ≡ div_ceil (length whole) session.chunk_size =
        omega (arith, o.chunks_bounded) in
      let valid : IsInit i = record {
        chunk_positive = positive;
        size_word = o.size_word;
        total_chunks = total;
        total_bounded = omega (arith, o.chunks_bounded, total);
      } in
      let (start, v, p, calm, files) = open_state_ok i w h in
      let file : List ℕ = resized (length whole) [] in
      (
        start_state i start,
        v,
        rw (parsed, p, new) refl,
        record {
          valid = start_state-IsValid i start valid;
          no_faults = calm;
          file = file;
          on_disk = rw files (put_self _ (some file) _);
          holds = record {
            whole_size = refl;
            file_size = length-resized (length whole);
            agrees = λ k lt known. absurd (false≢true (sym (bit_in-replicate _ _) ∙ known));
          };
        },
        refl,
        refl,
      )

  -- In a world without faults, for a transfer of a file with the announced hash: once every chunk
  -- has arrived undamaged, among repetitions and damaged packets in any order, the DONE is answered
  -- as complete and the final path holds the sender's file.
  pub handle_done-deliver :
      (whole : List ℕ) (s : ReceiveState) (packets : List (ℕ × List ℕ)) (addr : SocketAddr)
      (w : World)
      → Running whole s w
      → s.hash ≡ digest whole
      → All (IsFaithful sha whole s) packets
      → ((seq : ℕ) → seq < s.total → Arrives sha whole s seq packets)
      → (v : World) × ((deliver sha s packets >>= λ t. handle_done sha t addr) w
          ≡ (returned complete, v))
        × (v.files s.final_path ≡ some whole)
  unfolding handle_done
  handle_done-deliver whole s packets addr w r announced faithful arrives =
      let (t, x, q, run, grow, known) = deliver-Running sha whole s packets w r faithful in
      let (done, on_disk) = Running-full sha whole t x run λ seq h.
        let h' : seq < s.total = omega (arith, grow.same_total) in known seq h' (arrives seq h') in
      elim (flush-safe sha t whole x on_disk) [
        | inl (e, v, p, _, clean) ↦
            absurd ((clean run.no_faults).1 (sym (grow.same_hash ∙ announced)))
        | inr (v, p, right, files) ↦ (
          v,
          rw (q, done, p, handle_done) refl,
          rw (files, sym grow.same_final) (put_self t.final_path (some whole) _),
        )
      ]
