-- ===== src/Recv/Finish/Keeping.antt =====
-- `flush`, `handle_done` and the drop of the state change no file but the temporary one and, with
-- the right hash, the final one.
use udpcp.Base.{
  ℕ, [], ◌∷◌, ◌++◌, ◌≡◌, ◌≢◌, refl, inl, inr, List, Option, none, some, Bool-cases, bytes_eq,
}
use udpcp.Report.{SocketAddr}
use udpcp.Io.{World}
use udpcp.Io.Disk.{FilePath, Files, put, put_self}
use udpcp.Io.FileOps.{File, rename}
use udpcp.Io.Runs.{
  Setting, Holds, After, AfterTo, Safe, SafeTo, Any, >>=-SafeTo, pure-Safe, raise-Safe,
  syscall-Safe, >>=-Safe,
}
use udpcp.Io.Runs.Calls.{
  Writable, ignore-Safe, now-Safe, report-Safe, sync_all-Safe, open_file-Safe, Quiet-Holds,
  remove_file-Safe,
}
use udpcp.Io.Runs.Cases.{try-SafeTo}
use udpcp.Protocol.Hashing.{Sha256, file_hash}
use udpcp.Protocol.Hashing.Laws.{file_hash-cases}
use udpcp.Recv.State.{ReceiveState, full}
use udpcp.Recv.State.Valid.{IsValid}
use udpcp.Recv.Gaps.Sending.{send_nacks-Safe}
use udpcp.Protocol.Replies.{fin_bytes}
use udpcp.Recv.Finish.{
  DoneOutcome, incomplete, complete, drop_state, publish, checked, finalize, flush, handle_done,
}
use udpcp.Recv.Finish.Safety.{finalize-cases, finalize-missing}

abbrev pub Sent : Type 0
Sent = List (SocketAddr × List ℕ)

-- The file of a transfer is in its place.
abbrev pub InPlace : Sha256 → ReceiveState → Files → Type 0
InPlace sha s files = (c : List ℕ) × (files s.final_path ≡ some c) × (sha.digest c ≡ s.hash)

-- The files of this transfer may change.
pub record Ours (S : Setting) (sha : Sha256) (s : ReceiveState) : Type 0 where
  pub valid : IsValid s
  pub tmp : Writable S s.tmp_path
  pub apart : s.tmp_path ≢ s.final_path
  pub origin : S.Origin s.final_path s.hash
  pub place :
      (c : List ℕ) (files : Files) (sent : Sent)
      → sha.digest c ≡ s.hash
      → S.Kept files sent
      → S.Kept (put s.final_path (some c) (put s.tmp_path none files)) sent
  pub finished :
      (addr : SocketAddr) (files : Files) (sent : Sent)
      → InPlace sha s files
      → S.Kept files sent
      → S.Kept files (sent ++ (addr, fin_bytes) ∷ [])

-- A file of known origin has come, with the hash of its transfer.
pub record Delivered (S : Setting) (sha : Sha256) (files : Files) : Type 0 where
  pub path : FilePath
  pub hash : List ℕ
  pub origin : S.Origin path hash
  pub content : List ℕ
  pub there : files path ≡ some content
  pub right : sha.digest content ≡ hash

-- A transfer that is complete has its file in place.
abbrev pub Handled : Sha256 → ReceiveState → DoneOutcome → Files → Type 0
Handled sha s incomplete files = Unit
Handled sha s complete files = InPlace sha s files

-- A setting for the same datagrams that keeps nothing.
abbrev loosely : Setting → Setting
loosely S = record {
  Told = S.Told;
  Kept = λ files sent. Unit;
  Origin = S.Origin;
  calm = λ addr d files sent reply k. k;
}

module _ (S : Setting) (n : ℕ) where
  -- A rename where every file may change.
  rename-Safe :
      (from to : FilePath)
      → ((files : Files) (sent : Sent) → S.Kept files sent)
      → Safe S n (rename from to) Any
  unfolding rename
  rename-Safe from to any = record { at = λ w h. at w (w.files from) refl h }
    where
      at :
          (w : World) (c : Option (List ℕ))
          → w.files from ≡ c
          → Holds S n w
          → After S n n Any (rename from to w)
      at w none e h = rw (e, rename) h
      at w (some c) e h =
          rw (e, rename)
            ((syscall-Safe S n _ Any λ w h.
                (record { blocks = h.blocks; few = h.few; told = h.told; kept = any _ _ }, tt)).at
              w h)

  module _ (sha : Sha256) where
    file_hash-Safe : (f : File) → Safe S n (file_hash sha f) Any
    file_hash-Safe f = record {
      at = λ w h. elim (file_hash-cases sha f w _ refl) [
        | inl (e, v, p, q, _) ↦ rw p (Quiet-Holds S n w v q h)
        | inr (g, v, p, q, _) ↦ rw p (Quiet-Holds S n w v q h, tt)
      ];
    }

    checked-Safe :
        (s : ReceiveState) (got : List ℕ)
        → ((files : Files) (sent : Sent) → S.Kept files sent)
        → Safe S n (checked sha s got) Any
    unfolding checked publish
    checked-Safe s got any = elim (Bool-cases (bytes_eq got s.hash)) [
      | inl right ↦ rw right (
          >>=-Safe S (rename-Safe s.tmp_path s.final_path any)
            λ _ _. >>=-Safe S (now-Safe S n) λ t _. report-Safe S n _)
      | inr wrong ↦ rw wrong (raise-Safe S n _ Any)
    ]

module _ (S : Setting) (n : ℕ) (sha : Sha256) (s : ReceiveState) where
  -- Whatever becomes of the files.
  finalize_loosely : Safe (loosely S) n (finalize sha s) Any
  unfolding finalize
  finalize_loosely =
      let S' = loosely S in
      >>=-Safe S' (sync_all-Safe S' n s.tmp_path) λ _ _.
        >>=-Safe S' (open_file-Safe S' n s.tmp_path) λ f _.
          >>=-Safe S' (file_hash-Safe S' n sha f)
            λ (got, _) _. checked-Safe S' n sha s got λ _ _. tt

  abbrev Placed : Unit {0} → Files → Type 0
  Placed u = InPlace sha s

  module _ (o : Ours S sha s) where
    finalize-After :
        (w : World) (c : Option (List ℕ))
        → w.files s.tmp_path ≡ c
        → Holds S n w
        → AfterTo S n n Placed (finalize sha s w)
    finalize-After w none e h =
        let any =
          finalize_loosely.at w
            (record { blocks = h.blocks; few = h.few; told = h.told; kept = tt }) in
        let (x, v, p, same, sent) = finalize-missing sha s w e in
        let k : Holds (loosely S) n v = rw p at any in
        rw p
          (record { blocks = k.blocks; few = k.few; told = k.told; kept = rw (same, sent) h.kept })
    finalize-After w (some c) e h =
        let any =
          finalize_loosely.at w
            (record { blocks = h.blocks; few = h.few; told = h.told; kept = tt }) in
        elim (finalize-cases sha s c w e) [
          | inl (x, v, p, same, _, sent) ↦
              let k : Holds (loosely S) n v = rw p at any in
              rw p (record {
                blocks = k.blocks;
                few = k.few;
                told = k.told;
                kept = rw (same, sent) h.kept;
              })
          | inr (v, p, right, files, sent) ↦
              let k : Holds (loosely S) n v × Unit {0} = rw p at any in
              rw p (
                record {
                  blocks = k.0.blocks;
                  few = k.0.few;
                  told = k.0.told;
                  kept = rw (files, sent) (o.place c w.files w.sent right h.kept);
                },
                (c, rw files (put_self s.final_path (some c) _), right),
              )
        ]

    flush-Safe : SafeTo S n (flush sha s) Placed
    unfolding flush
    flush-Safe =
        try-SafeTo S _ (record { at = λ w h. finalize-After w (w.files s.tmp_path) refl h })
          (λ u w h q. (h, q))
          λ e.
            >>=-Safe S (ignore-Safe S n _ Any (remove_file-Safe S n s.tmp_path o.tmp))
              λ _ _. record { at = λ w h. h }

    pub handle_done-Safe : (addr : SocketAddr) → SafeTo S n (handle_done sha s addr) (Handled sha s)
    unfolding handle_done
    handle_done-Safe addr = elim (Bool-cases (full s)) [
      | inl whole ↦ rw whole (>>=-SafeTo S _ flush-Safe λ u w h q. (h, q))
      | inr part ↦
          rw part
            (>>=-Safe S (send_nacks-Safe S n s addr o.valid) λ _ _. record { at = λ w h. (h, tt) })
    ]

-- The state of a transfer that is kept, where there is one.
abbrev pub AllOurs : Setting → Sha256 → Option ReceiveState → Type 0
AllOurs S sha none = Unit
AllOurs S sha (some s) = Ours S sha s

-- The temporary file is removed where it may change.
pub drop_tmp-Safe :
    (S : Setting) (n : ℕ) (s : ReceiveState)
    → Writable S s.tmp_path
    → Safe S n (drop_state (some s)) Any
unfolding drop_state
drop_tmp-Safe S n s tmp = ignore-Safe S n _ Any (remove_file-Safe S n s.tmp_path tmp)

pub drop_state-Safe :
    (S : Setting) (n : ℕ) (sha : Sha256) (o : Option ReceiveState)
    → AllOurs S sha o
    → Safe S n (drop_state o) Any
unfolding drop_state
drop_state-Safe S n sha none h = pure-Safe S n tt Any tt
drop_state-Safe S n sha (some s) h = drop_tmp-Safe S n s h.tmp
