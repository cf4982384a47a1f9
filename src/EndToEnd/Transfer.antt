-- ===== src/EndToEnd/Transfer.antt =====
-- DATA packets in any order, some of them lost, repeated or damaged, assemble the file.
use udpcp.Base.{
  ℕ, ◌*◌, ◌<◌, ◌≡◌, ◌≢◌, refl, ap, ◌∙◌, ◌⊎◌, inl, inr, List, [], ◌∷◌, some, true, ==_iff, length,
  take, drop, length-take, length-drop, arith, All, write_at,
}
use udpcp.Io.{World, returned, Io, pure, ◌>>=◌}
use udpcp.Io.Disk.{put_self}
use udpcp.Protocol.{version2}
use udpcp.Protocol.Hashing.{Sha256}
use udpcp.Recv.State.{ReceiveState, store, accept_data, full, expected_len}
use udpcp.Recv.State.Bitmap.{bit_in}
use udpcp.Recv.State.Counting.{count_below, count_below_all}
use udpcp.Recv.State.Valid.{IsValid, expected_len_lem}
use udpcp.Recv.State.Storing.{store-cases, stored_state}
use udpcp.Recv.State.Assembly.{Holds, chunk_of, stored_state-IsValid, write_at-Holds, full-eq}
use udpcp.Send.Chunks.{data_payload}
use udpcp.EndToEnd.Packets.{verified_body-data_payload, verified_body_damaged}

-- A transfer of `whole` under way in a world where no call fails.
pub record Running (whole : List ℕ) (s : ReceiveState) (w : World) : Type 0 where
  pub valid : IsValid s
  pub no_faults : w.faults ≡ []
  pub file : List ℕ
  pub on_disk : w.files s.tmp_path ≡ some file
  pub holds : Holds whole s file

-- The parameters stay and no chunk is forgotten.
pub record Grows (s t : ReceiveState) : Type 0 where
  pub same_version : t.version ≡ s.version
  pub same_chunk_size : t.chunk_size ≡ s.chunk_size
  pub same_total : t.total ≡ s.total
  pub same_hash : t.hash ≡ s.hash
  pub same_final : t.final_path ≡ s.final_path
  pub no_loss : (j : ℕ) → bit_in s.received j ≡ true → bit_in t.received j ≡ true

Grows-refl : (s : ReceiveState) → Grows s s
Grows-refl s = record {
  same_version = refl;
  same_chunk_size = refl;
  same_total = refl;
  same_hash = refl;
  same_final = refl;
  no_loss = λ j h. h;
}

Grows-trans : {s t u : ReceiveState} → Grows s t → Grows t u → Grows s u
Grows-trans p q = record {
  same_version = q.same_version ∙ p.same_version;
  same_chunk_size = q.same_chunk_size ∙ p.same_chunk_size;
  same_total = q.same_total ∙ p.same_total;
  same_hash = q.same_hash ∙ p.same_hash;
  same_final = q.same_final ∙ p.same_final;
  no_loss = λ j h. q.no_loss j (p.no_loss j h);
}

-- A chunk cut from the file has the length that the receiver expects.
pub length-chunk_of :
    (whole : List ℕ) (s : ReceiveState) (seq : ℕ)
    → IsValid s
    → length whole ≡ s.size
    → seq < s.total
    → length (chunk_of whole s.chunk_size seq) ≡ expected_len s seq
unfolding chunk_of
length-chunk_of whole s seq v e h = omega (
  arith,
  expected_len_lem s seq v.sized h,
  length-take s.chunk_size (drop (seq * s.chunk_size) whole),
  length-drop (seq * s.chunk_size) whole,
)

-- Storing the right chunk succeeds, and the chunk is there afterwards.
pub store-chunk_of :
    (whole : List ℕ) (s : ReceiveState) (seq : ℕ) (w : World)
    → Running whole s w
    → (t : ReceiveState) × (v : World) × (store s seq (chunk_of whole s.chunk_size seq) w
        ≡ (returned t, v))
      × Running whole t v
      × Grows s t
      × (seq < s.total → bit_in t.received seq ≡ true)
store-chunk_of whole s seq w r = elim (store-cases s seq d w r.valid) [
  | inl (e, inl beyond) ↦ (s, w, e, r, Grows-refl s, λ h. absurd (omega arith))
  | inl (e, inr (inl known)) ↦ (s, w, e, r, Grows-refl s, λ _. known)
  | inl (e, inr (inr wrong)) ↦ (
    s,
    w,
    e,
    r,
    Grows-refl s,
    λ h. absurd (wrong (length-chunk_of whole s seq r.valid r.holds.whole_size h)),
  )
  | inr (h, f, long, inl (e, fs, p, faulty)) ↦ absurd (faulty r.no_faults)
  | inr (h, f, long, inr (words, g, v, p, st, files, sent, inbox, faults)) ↦ (
    stored_state s seq words g,
    v,
    p,
    record {
      valid = stored_state-IsValid s seq words g r.valid h f st;
      no_faults = faults r.no_faults;
      file = write_at r.file (seq * s.chunk_size) d;
      on_disk = rw (files, put_self, r.on_disk);
      holds = write_at-Holds whole r.file s seq words g r.valid r.holds h long st;
    },
    record {
      same_version = refl;
      same_chunk_size = refl;
      same_total = refl;
      same_hash = refl;
      same_final = refl;
      no_loss = λ j e. ground (arith, st.one_more j);
    },
    λ _. ground (arith, st.one_more seq),
  )
]
  where
    d : List ℕ
    d = chunk_of whole s.chunk_size seq

module _ (sha : Sha256) where
  open sha use {digest}

  -- The DATA packets that reach the receiver, in the order of their arrival.
  pub deliver : ReceiveState → List (ℕ × List ℕ) → Io ReceiveState
  deliver s [] = pure s
  deliver s ((seq, payload) ∷ packets) = accept_data sha s seq payload >>= λ t. deliver t packets

  -- The payload that `send_one` makes of chunk `seq`.
  abbrev pub payload_of : List ℕ → ReceiveState → ℕ → List ℕ
  payload_of whole s seq = data_payload sha s.version (chunk_of whole s.chunk_size seq)

  -- A packet is as sent, or damaged so that its hash tells.
  abbrev pub IsFaithful : List ℕ → ReceiveState → ℕ × List ℕ → Type 0
  IsFaithful whole s p =
      (p.1 ≡ payload_of whole s p.0)
      ⊎ ((s.version ≡ version2) × (digest (drop 32 p.1) ≢ take 32 p.1))

  -- Chunk `seq` arrives at least once undamaged.
  abbrev pub Arrives : List ℕ → ReceiveState → ℕ → List (ℕ × List ℕ) → Type 0
  Arrives whole s seq [] = ⊥
  Arrives whole s seq (p ∷ packets) =
      ((p.0 ≡ seq) × (p.1 ≡ payload_of whole s seq)) ⊎ Arrives whole s seq packets

  accept_faithful :
      (whole : List ℕ) (s : ReceiveState) (p : ℕ × List ℕ) (w : World)
      → Running whole s w
      → IsFaithful whole s p
      → (t : ReceiveState) × (v : World) × (accept_data sha s p.0 p.1 w ≡ (returned t, v))
        × Running whole t v
        × Grows s t
        × (p.1 ≡ payload_of whole s p.0 → p.0 < s.total → bit_in t.received p.0 ≡ true)
  unfolding accept_data
  accept_faithful whole s (seq, payload) w r (inl e) =
      let (t, v, q, run, grow, known) = store-chunk_of whole s seq w r in
      (
        t,
        v,
        rw (e, verified_body-data_payload sha s (chunk_of whole s.chunk_size seq), accept_data) q,
        run,
        grow,
        λ _ h. known h,
      )
  accept_faithful whole s (seq, payload) w r (inr (two, damaged)) =
      let dropped = verified_body_damaged sha s payload two damaged in
      (
        s,
        w,
        rw (dropped, accept_data),
        r,
        Grows-refl s,
        λ e h. cc (dropped, e, verified_body-data_payload sha s (chunk_of whole s.chunk_size seq)),
      )

  IsFaithful-Grows :
      (whole : List ℕ) (s t : ReceiveState) (ps : List (ℕ × List ℕ))
      → Grows s t
      → All (IsFaithful whole s) ps
      → All (IsFaithful whole t) ps
  IsFaithful-Grows whole s t ps g h = rw (g.same_version, g.same_chunk_size) h

  Arrives-Grows :
      (whole : List ℕ) (s t : ReceiveState) (seq : ℕ) (ps : List (ℕ × List ℕ))
      → Grows s t
      → Arrives whole s seq ps
      → Arrives whole t seq ps
  Arrives-Grows whole s t seq ps g h = rw (g.same_version, g.same_chunk_size) h

  -- After the packets every chunk that arrived undamaged is stored.
  pub deliver-Running :
      (whole : List ℕ) (s : ReceiveState) (packets : List (ℕ × List ℕ)) (w : World)
      → Running whole s w
      → All (IsFaithful whole s) packets
      → (t : ReceiveState) × (v : World) × (deliver s packets w ≡ (returned t, v))
        × Running whole t v
        × Grows s t
        × ((seq : ℕ) → seq < s.total → Arrives whole s seq packets → bit_in t.received seq ≡ true)
  unfolding deliver
  deliver-Running whole s [] w r f = (s, w, refl, r, Grows-refl s, λ seq h a. absurd a)
  deliver-Running whole s (p ∷ packets) w r (f, fs) =
      let (t, v, q, run, grow, known) = accept_faithful whole s p w r f in
      let (u, x, q', run', grow', known') =
        deliver-Running whole t packets v run (IsFaithful-Grows whole s t packets grow fs) in
      (
        u,
        x,
        rw q q',
        run',
        Grows-trans grow grow',
        λ seq h a. elim a [
          | inl (here, sent) ↦
              grow'.no_loss seq (rw (← here) (known (rw here sent) (omega (arith, here))))
          | inr later ↦
              known' seq (omega (arith, grow.same_total))
                (Arrives-Grows whole s t seq packets grow later)
        ],
      )

  -- A receiver with every chunk is full, and has the file.
  pub Running-full :
      (whole : List ℕ) (t : ReceiveState) (v : World)
      → Running whole t v
      → ((seq : ℕ) → seq < t.total → bit_in t.received seq ≡ true)
      → (full t ≡ true) × (v.files t.tmp_path ≡ some whole)
  Running-full whole t v run every =
      let all : count_below (bit_in t.received) t.total ≡ t.total =
        count_below_all (bit_in t.received) t.total every in
      let complete : full t ≡ true =
        unfold full in
        (==_iff t.count t.total).1 (omega (arith, all, run.valid.consistent.count_right)) in
      (complete, run.on_disk ∙ ap some (full-eq whole t run.file run.valid run.holds complete))

  -- In a world without faults, for DATA packets of the sender's in any order and with any
  -- repetitions, some of them damaged in a way that their hash tells: once every chunk has arrived
  -- undamaged, the receiver is full and its temporary file is the sender's file.
  pub deliver_complete :
      (whole : List ℕ) (s : ReceiveState) (packets : List (ℕ × List ℕ)) (w : World)
      → Running whole s w
      → All (IsFaithful whole s) packets
      → ((seq : ℕ) → seq < s.total → Arrives whole s seq packets)
      → (t : ReceiveState) × (v : World) × (deliver s packets w ≡ (returned t, v))
        × (full t ≡ true)
        × (v.files t.tmp_path ≡ some whole)
  deliver_complete whole s packets w r f arrives =
      let (t, v, q, run, grow, known) = deliver-Running whole s packets w r f in
      let (complete, on_disk) = Running-full whole t v run λ seq h.
        let h' : seq < s.total = omega (arith, grow.same_total) in known seq h' (arrives seq h') in
      (t, v, q, complete, on_disk)
