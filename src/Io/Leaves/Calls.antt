-- ===== src/Io/Leaves/Calls.antt =====
-- The calls of the sender in the triples.
use udpcp.Base.{
  ℕ, ◌≡◌, refl, sym, subst, ◌∙◌, ◌⊎◌, inl, inr, List, [], ◌∷◌, Option, none, some, Bool, Bool-cases,
  ltb, ◌+◌, arith, ◌==◌, All-append, ◌++◌, append_assoc, ap,
}
use udpcp.Error.{IoError, Result, ok, err, would_block, os}
use udpcp.Report.{SocketAddr, TransferEvent}
use udpcp.Io.{
  World, datagram, failure, returned, waiting, Io, attempt, ignore, now, recv_from, send_to,
  set_read_timeout, set_nonblocking, bind_socket, report, sleep, instant_add, deadline_after,
}
use udpcp.Io.Disk.{FilePath}
use udpcp.Io.FileOps.{File, open_file, seek, file_len}
use udpcp.Io.Clock.{now-cases}
use udpcp.Io.Quiet.{Quiet}
use udpcp.Io.Leaves.{
  Frame, Framed, Kept, Inbox, Leaves, Then, Stays, StaysAt, pure-Stays, raise-Stays, syscall-Stays,
  attempt-Stays, >>=-Stays,
}
use udpcp.Protocol.Hashing.{Sha256, file_hash, read_chunk}
use udpcp.Protocol.Hashing.Laws.{file_hash-cases, read_chunk-cases}

-- The error of a socket without an arrival.
abbrev pub nothing_there : IoError
nothing_there = record { kind = would_block; reason = os 11 }

-- What a receive took from an inbox in `P`.
abbrev pub Took : Frame → (Inbox → Type 0) → Result (List ℕ × SocketAddr) IoError → Inbox → Type 0
Took F P (ok (d, from)) i = F.Told d from × ((t : ℕ) × P ((t, datagram d from) ∷ i))
Took F P (err e) i = ((t : ℕ) × P ((t, failure e) ∷ i)) ⊎ ((e ≡ nothing_there) × P i)

module _ (F : Frame) where
  pub attempt-recv_from-Leaves : (P : Inbox → Type 0) → Leaves F P (attempt recv_from) (Took F P)
  unfolding recv_from
  attempt-recv_from-Leaves P = record { at = λ w h p. at w w.inbox refl h p }
    where
      at :
          (w : World) (i : Inbox)
          → w.inbox ≡ i
          → Kept F w
          → P w.inbox
          → Then F (Took F P) (attempt recv_from w)
      at w [] e h p = elim (Bool-cases w.nonblocking) [
        | inl quick ↦
            let eq : attempt recv_from w ≡ (returned (err nothing_there), w) =
              rw (e, quick, recv_from) refl in
            subst (Then F (Took F P)) (sym eq) (h, inr (refl, p))
        | inr slow ↦
            let eq : attempt recv_from w ≡ (waiting, w) = rw (e, slow, recv_from) refl in
            subst (Then F (Took F P)) (sym eq) h
      ]
      at w ((t, datagram d from) ∷ r) e h p =
          let h' : Framed F w.files w.sent ((t, datagram d from) ∷ r) = rw e at h in
          rw (e, recv_from)
            (
              record {
                same = h'.same;
                added = h'.added;
                grown = h'.grown;
                good = h'.good;
                told = h'.told.1;
              },
              (h'.told.0, (t, rw e at p)),
            )
      at w ((t, failure x) ∷ r) e h p =
          let h' : Framed F w.files w.sent ((t, failure x) ∷ r) = rw e at h in
          rw (e, recv_from)
            (
              record {
                same = h'.same;
                added = h'.added;
                grown = h'.grown;
                good = h'.good;
                told = h'.told.1;
              },
              inl (t, rw e at p),
            )

  pub ignore-Stays : {A : Type 0} (act : Io A) → Stays F act → Stays F (ignore act)
  ignore-Stays act s = >>=-Stays F (attempt-Stays F act s) λ _. pure-Stays F tt

  pub now-Stays : Stays F now
  unfolding now
  now-Stays = record { at = λ w h. at w w.ticks refl h }
    where
      at : (w : World) (ts : List ℕ) → w.ticks ≡ ts → Kept F w → StaysAt F w.inbox (now w)
      at w [] e h = rw (e, now) (h, refl)
      at w (t ∷ r) e h = rw (e, now) (h, refl)

  pub deadline_after-Stays : (d : ℕ) → d ≡ F.wait → Stays F (deadline_after d)
  unfolding deadline_after instant_add
  deadline_after-Stays d e = record {
    at = λ w h.
        let (t, r, p, _) = now-cases w in
        rw (p, deadline_after) (added (record w { clock = t; ticks = r }) h);
  }
    where
      added : (w : World) → Kept F w → StaysAt F w.inbox (instant_add w.clock d w)
      added w h = elim (Bool-cases (ltb (w.clock + d) w.instant_end)) [
        | inl fits ↦ rw (fits, instant_add) (h, refl)
        | inr late ↦ rw (late, instant_add) (h, (refl, rw (sym e) (ground arith)))
      ]

  pub report-Stays : (e : TransferEvent) → Stays F (report e)
  unfolding report
  report-Stays e = record { at = λ w h. (h, refl) }

  pub sleep-Stays : (d : ℕ) → Stays F (sleep d)
  unfolding sleep
  sleep-Stays d = record { at = λ w h. (h, refl) }

  pub send_to-Stays : (addr : SocketAddr) (d : List ℕ) → F.Good (addr, d) → Stays F (send_to addr d)
  unfolding send_to
  send_to-Stays addr d good = syscall-Stays F _ λ w h. (
    record {
      same = h.same;
      added = h.added ++ (addr, d) ∷ [];
      grown = ap (λ ds. ds ++ (addr, d) ∷ []) h.grown ∙ append_assoc F.before h.added _;
      good = All-append F.Good h.added ((addr, d) ∷ []) h.good (good, tt);
      told = h.told;
    },
    refl,
  )

  pub set_read_timeout-Stays : (t : Option ℕ) → Stays F (set_read_timeout t)
  unfolding set_read_timeout
  set_read_timeout-Stays none = syscall-Stays F _ λ w h. (h, refl)
  set_read_timeout-Stays (some d) = elim (Bool-cases (d == 0)) [
    | inl z ↦ rw z (raise-Stays F _)
    | inr p ↦ rw p (syscall-Stays F _ λ w h. (h, refl))
  ]

  pub set_nonblocking-Stays : (b : Bool) → Stays F (set_nonblocking b)
  unfolding set_nonblocking
  set_nonblocking-Stays b = syscall-Stays F _ λ w h. (h, refl)

  pub bind_socket-Stays : Stays F bind_socket
  unfolding bind_socket
  bind_socket-Stays = syscall-Stays F _ λ w h. (h, refl)

  pub seek-Stays : (f : File) (pos : ℕ) → Stays F (seek f pos)
  unfolding seek
  seek-Stays f pos = syscall-Stays F _ λ w h. (h, refl)

  pub file_len-Stays : (p : FilePath) → Stays F (file_len p)
  unfolding file_len
  file_len-Stays p = syscall-Stays F _ λ w h. (h, refl)

  pub open_file-Stays : (p : FilePath) → Stays F (open_file p)
  unfolding open_file
  open_file-Stays p = record { at = λ w h. at w (w.files p) refl h }
    where
      at :
          (w : World) (c : Option (List ℕ))
          → w.files p ≡ c
          → Kept F w
          → StaysAt F w.inbox (open_file p w)
      at w none e h = rw (e, open_file) (h, refl)
      at w (some c) e h = rw (e, open_file) ((syscall-Stays F _ λ w h. (h, refl)).at w h)

  Quiet-Kept : (w v : World) → Quiet w v → Kept F w → Kept F v × (v.inbox ≡ w.inbox)
  Quiet-Kept w v q h = (
    record {
      same = q.files ∙ h.same;
      added = h.added;
      grown = q.sent ∙ h.grown;
      good = h.good;
      told = rw q.inbox h.told;
    },
    q.inbox,
  )

  pub file_hash-Stays : (sha : Sha256) (f : File) → Stays F (file_hash sha f)
  file_hash-Stays sha f = record {
    at = λ w h. elim (file_hash-cases sha f w _ refl) [
      | inl (e, v, p, q, _) ↦ rw p (Quiet-Kept w v q h)
      | inr (g, v, p, q, _) ↦ rw p (Quiet-Kept w v q h)
    ];
  }

  pub read_chunk-Stays : (f : File) (n : ℕ) → Stays F (read_chunk f n)
  read_chunk-Stays f n = record {
    at = λ w h. elim (read_chunk-cases f n w _ refl) [
      | inl (e, v, p, q, _) ↦ rw p (Quiet-Kept w v q h)
      | inr (g, v, p, q, _) ↦ rw p (Quiet-Kept w v q h)
    ];
  }
