-- ===== src/Recv/Finish/Safety.antt =====
-- `finalize` and `flush`: only a file with the announced hash gets the final name.
use udpcp.Base.{
  ℕ, ◌-◌, ◌≡◌, ◌≢◌, refl, sym, ap, ◌∙◌, ◌⊎◌, inl, inr, List, [], Option, none, some, Bool-cases,
  bytes_eq, bytes_eq→eq, bytes_eq_refl, false≢true,
}
use udpcp.Error.{IoError, invalid_data, hash_mismatch, other, os}
use udpcp.Report.{saved}
use udpcp.Io.{World, Outcome, returned, raised, report}
use udpcp.Io.Disk.{FilePath, put, put_self, put_ne}
use udpcp.Io.FileOps.{contents, open_file}
use udpcp.Io.Clock.{now-cases}
use udpcp.Io.Moves.{
  FilesCases, at_start, sync_all-cases, open_file-cases, rename-cases, remove_file-cases,
}
use udpcp.Protocol.Hashing.{Sha256}
use udpcp.Protocol.Hashing.Laws.{file_hash-cases}
use udpcp.Recv.State.{ReceiveState}
use udpcp.Recv.Finish.{publish, checked, finalize, flush}

module _ (sha : Sha256) where
  open sha use {digest}

  -- Where the file of content `c` is afterwards, if it is published.
  abbrev published : ReceiveState → List ℕ → World → FilePath → Option (List ℕ)
  published s c w = put s.final_path (some c) (put s.tmp_path none w.files)

  publish-cases :
      (s : ReceiveState) (c : List ℕ) (w : World)
      → w.files s.tmp_path ≡ some c
      → FilesCases tt (published s c w) w (publish sha s w)
  unfolding publish report
  publish-cases s c w h = elim (rename-cases s.tmp_path s.final_path c w h) [
    | inl (e, v, p, q, n) ↦ inl (e, v, rw p refl, q, n)
    | inr (v, p, files, faults, sent) ↦
        let (t, r, p', _) = now-cases v in
        inr (
          (report (saved s.final_path s.size (t - s.start)) (record v { clock = t; ticks = r })).1,
          rw (p, p') refl,
          files,
          faults,
          sent,
        )
  ]

  -- A failure that leaves the files, or the content has the hash and is published.
  abbrev FinalizeCases : ReceiveState → List ℕ → World → Outcome (Unit {0}) × World → Type 0
  FinalizeCases s c w r =
      ((e : IoError) × (v : World) × (r ≡ (raised e, v))
        × (v.files ≡ w.files)
        × (w.faults ≡ [] → (v.faults ≡ []) × (digest c ≢ s.hash))
        × (v.sent ≡ w.sent))
      ⊎ ((v : World) × (r ≡ (returned tt, v))
          × (digest c ≡ s.hash)
          × (v.files ≡ published s c w)
          × (v.sent ≡ w.sent))

  -- The part of `finalize` behind the hash.
  checked-cases :
      (s : ReceiveState) (c : List ℕ) (w : World)
      → w.files s.tmp_path ≡ some c
      → FinalizeCases s c w (checked sha s (digest c) w)
  unfolding checked
  checked-cases s c w h = elim (Bool-cases (bytes_eq (digest c) s.hash)) [
    | inr wrong ↦ inl (
      record { kind = invalid_data; reason = hash_mismatch },
      w,
      rw wrong refl,
      refl,
      λ z. (z, λ e. false≢true (sym wrong ∙ rw e (bytes_eq_refl s.hash))),
      refl,
    )
    | inl right ↦ elim (publish-cases s c w h) [
      | inl (e, v, p, q, n) ↦ inl (e, v, rw (right, p) refl, q.files, λ z. absurd (n z), q.sent)
      | inr (v, p, files, _, sent) ↦ inr (v, rw (right, p) refl, bytes_eq→eq _ _ right, files, sent)
    ]
  ]

  finalize-cases_at :
      (s : ReceiveState) (c : List ℕ) (w v : World) (r : Outcome (Unit {0}) × World)
      → v.files ≡ w.files
      → (w.faults ≡ [] → v.faults ≡ [])
      → v.sent ≡ w.sent
      → FinalizeCases s c v r
      → FinalizeCases s c w r
  finalize-cases_at s c w v r same z sent (inl (e, u, p, q, n, m)) =
      inl (e, u, p, q ∙ same, λ y. n (z y), m ∙ sent)
  finalize-cases_at s c w v r same z sent (inr (u, p, d, q, m)) =
      inr (u, p, d, rw same at q, m ∙ sent)

  pub finalize-cases :
      (s : ReceiveState) (c : List ℕ) (w : World)
      → w.files s.tmp_path ≡ some c
      → FinalizeCases s c w (finalize sha s w)
  unfolding finalize
  finalize-cases s c w h = elim (sync_all-cases s.tmp_path w) [
    | inl (e, v, p, q, n) ↦ inl (e, v, rw p refl, q.files, λ z. absurd (n z), q.sent)
    | inr (w1, p1, f1, z1, s1) ↦ elim (open_file-cases s.tmp_path c w1 (rw f1 h)) [
      | inl (e, v, p, q, n) ↦
          inl (e, v, rw (p1, p) refl, q.files ∙ f1, λ z. absurd (n (z1 z)), q.sent ∙ s1)
      | inr (w2, p2, f2, z2, s2) ↦
          let here : w2.files s.tmp_path ≡ some c = rw (f2, f1) h in
          elim (file_hash-cases sha (at_start s.tmp_path) w2 c
            (unfold contents in ap contents here)) [
              | inl (e, v, p, q, n) ↦ inl (
                e,
                v,
                rw (p1, p2, p) refl,
                q.files ∙ f2 ∙ f1,
                λ z. absurd (n (z2 (z1 z))),
                q.sent ∙ s2 ∙ s1,
              )
              | inr (g, w3, p3, q3, _) ↦
                  rw (p1, p2, p3)
                    (finalize-cases_at s c w w3 _ (q3.files ∙ f2 ∙ f1) (λ z. q3.faults (z2 (z1 z)))
                      (q3.sent ∙ s2 ∙ s1) (checked-cases s c w3 (rw q3.files here)))
            ]
    ]
  ]

  -- Without the temporary file nothing is published.
  pub finalize-missing :
      (s : ReceiveState) (w : World)
      → w.files s.tmp_path ≡ none
      → (e : IoError) × (v : World) × (finalize sha s w ≡ (raised e, v))
        × (v.files ≡ w.files)
        × (v.sent ≡ w.sent)
  unfolding finalize open_file
  finalize-missing s w gone = elim (sync_all-cases s.tmp_path w) [
    | inl (e, v, p, q, n) ↦ (e, v, rw p refl, q.files, q.sent)
    | inr (w1, p1, f1, z1, s1) ↦
        let missing : w1.files s.tmp_path ≡ none = rw f1 gone in
        (record { kind = other; reason = os 2 }, w1, rw (p1, missing, open_file) refl, f1, s1)
  ]

  -- When the receiver has the file `c` under its temporary name, `flush` ends in one of two ways.
  -- It returns, the hash of `c` is the announced one, and `c` has moved from the temporary name to
  -- the final one, with no other file changed. Or it fails and no file but the temporary one has
  -- changed; in a world without faults the temporary file is then gone, and the hash of `c` was not
  -- the announced one.
  pub flush-safe :
      (s : ReceiveState) (c : List ℕ) (w : World)
      → w.files s.tmp_path ≡ some c
      → ((e : IoError) × (v : World) × (flush sha s w ≡ (raised e, v))
          × ((p : FilePath) → p ≢ s.tmp_path → v.files p ≡ w.files p)
          × (w.faults ≡ [] → (v.files s.tmp_path ≡ none) × (digest c ≢ s.hash)))
        ⊎ ((v : World) × (flush sha s w ≡ (returned tt, v))
            × (digest c ≡ s.hash)
            × (v.files ≡ put s.final_path (some c) (put s.tmp_path none w.files)))
  unfolding flush
  flush-safe s c w h = elim (finalize-cases s c w h) [
    | inr (v, p, d, files, _) ↦ inr (v, rw p refl, d, files)
    | inl (e, v, p, same, clean, _) ↦ elim (remove_file-cases s.tmp_path c v (rw same h)) [
      | inl (x, u, q, quiet, n) ↦ inl (
        e,
        u,
        rw (p, q) refl,
        λ path ne. rw (quiet.files, same) refl,
        λ z. absurd (n (clean z).0),
      )
      | inr (u, q, files, _, _) ↦ inl (
        e,
        u,
        rw (p, q) refl,
        λ path ne. rw (files, same) (put_ne s.tmp_path path none w.files (λ x. ne (sym x))),
        λ z. (rw files (put_self s.tmp_path none v.files), (clean z).1),
      )
    ]
  ]
