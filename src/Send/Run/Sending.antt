-- ===== src/Send/Run/Sending.antt =====
-- What a call of `run_send` sends, what it has heard where it returns, and what it leaves as it is.
use mathlib.Core.List.{Memᴰ}
use udpcp.Base.{◌≤◌, ◌+◌, ℕ, ◌≡◌, ◌≢◌, refl, sym, ◌∙◌, append-nil, List, [], ◌∷◌, ◌++◌, All, length}
use udpcp.Error.{IoError, Result, ok}
use udpcp.Report.{SocketAddr}
use udpcp.Io.{
  World, datagram, failure, Outcome, returned, raised, panicked, waiting, exhausted, Panic,
  instant_overflow,
}
use udpcp.Io.Disk.{FilePath}
use udpcp.Io.FileOps.{contents}
use udpcp.Io.Leaves.{Frame, Inbox, IsTold, Then, Kept, Late}
use udpcp.Protocol.{SendConfig}
use udpcp.Protocol.Hashing.{Sha256}
use udpcp.Send.Packets.{IsOurs}
use udpcp.Send.Run.{run_send, source_name}
use udpcp.Send.Run.Leaving.{session, Acknowledged, Permits, run_send-Leaves}

-- A packet of the session that a call opens for `whole`, once the resolver has named a target.
pub record Ours (sha : Sha256) (cfg : SendConfig) (file : FilePath)
    (resolved : Result (List SocketAddr) IoError) (whole : List ℕ) (datagram : SocketAddr × List ℕ)
    : Type 0 where
  pub target : SocketAddr
  pub rest : List SocketAddr
  pub found : resolved ≡ ok (target ∷ rest)
  pub packet :
      IsOurs sha (session cfg target (length whole)) whole (source_name file) datagram.0 datagram.1

-- A datagram that was to arrive.
pub record Arrived (inbox : Inbox) (d : List ℕ) (from : SocketAddr) : Type 0 where
  pub time : ℕ
  pub member : Memᴰ (time, datagram d from) inbox

IsTold-each :
    (F : Frame) (i : Inbox)
    → ((t : ℕ) (d : List ℕ) (from : SocketAddr) → Memᴰ (t, datagram d from) i → F.Told d from)
    → All (IsTold F) i
IsTold-each F [] k = tt
IsTold-each F ((t, datagram d from) ∷ r) k =
    (k t d from (Memᴰ.head refl), IsTold-each F r (λ t d from m. k t d from (Memᴰ.tail m)))
IsTold-each F ((t, failure e) ∷ r) k =
    (tt, IsTold-each F r (λ t d from m. k t d from (Memᴰ.tail m)))

module _ (sha : Sha256) (cfg : SendConfig) (file : FilePath)
    (resolved : Result (List SocketAddr) IoError) (w : World) where
  abbrev pub whole : List ℕ
  whole = contents (w.files file)

  -- Where a call starts.
  abbrev pub frame : Frame
  frame = record {
    old = w.files;
    before = w.sent;
    Good = Ours sha cfg file resolved whole;
    Told = Arrived w.inbox;
    wait = cfg.limits.retransmit_timeout;
  }

  frame-Permits : Permits frame sha cfg file resolved
  frame-Permits target rest found = record {
    each = λ a d p. record { target = target; rest = rest; found = found; packet = p };
  }

  frame-Kept : Kept frame w
  frame-Kept = record {
    same = refl;
    added = [];
    grown = sym (append-nil w.sent);
    good = tt;
    told = IsTold-each frame w.inbox λ t d from m. record { time = t; member = m };
  }

  run_send-Then : Then frame (λ u i. Acknowledged frame) (run_send sha cfg file resolved w)
  run_send-Then =
      (run_send-Leaves frame sha cfg file resolved frame-Permits refl).at w frame-Kept tt

  -- How `run_send` ends: in a panic only where the instant that is the retransmission timeout
  -- from the clock cannot be represented; its fuel is enough; and the files are as they were.
  abbrev pub Unchanged : Outcome (Unit {0}) × World → Type 0
  Unchanged r =
      ((why : Panic)
        → r.0 ≡ panicked why
        → (why ≡ instant_overflow) × (r.1.instant_end ≤ r.1.clock + cfg.limits.retransmit_timeout))
      × (r.0 ≢ exhausted)
      × (r.1.files ≡ w.files)

  late :
      (why : Panic) (v : World)
      → Late frame why v
      → (why' : Panic) → ◌≡◌ {A = Outcome (Unit {0})} (panicked why) (panicked why')
      → Late frame why' v
  late why v (o, h) why' e = let same : why ≡ why' = cc in (sym same ∙ o, h)

  unchanged :
      (r : Outcome (Unit {0}) × World) → Then frame (λ u i. Acknowledged frame) r → Unchanged r
  unchanged (returned u, v) h = (λ why e. cc, λ e. cc, h.0.same)
  unchanged (raised x, v) h = (λ why e. cc, λ e. cc, h.same)
  unchanged (waiting, v) h = (λ why e. cc, λ e. cc, h.same)
  unchanged (panicked why, v) h = (late why v h.1, λ e. cc, h.0.same)
  unchanged (exhausted, v) h = absurd h

  -- The datagrams of a call.
  abbrev pub SendsOurs : Outcome (Unit {0}) × World → Type 0
  SendsOurs r =
      (ds : List (SocketAddr × List ℕ)) × (r.1.sent ≡ w.sent ++ ds)
      × All (Ours sha cfg file resolved whole) ds

  sends_ours :
      (r : Outcome (Unit {0}) × World) → Then frame (λ u i. Acknowledged frame) r → SendsOurs r
  sends_ours (returned u, v) h = (h.0.added, h.0.grown, h.0.good)
  sends_ours (raised x, v) h = (h.added, h.grown, h.good)
  sends_ours (waiting, v) h = (h.added, h.grown, h.good)
  sends_ours (panicked why, v) h = (h.0.added, h.0.grown, h.0.good)
  sends_ours (exhausted, v) h = absurd h

  acknowledged :
      (r : Outcome (Unit {0}) × World)
      → Then frame (λ u i. Acknowledged frame) r
      → r.0 ≡ returned tt
      → Acknowledged frame
  acknowledged (returned u, v) h e = h.1
  acknowledged (raised x, v) h e = cc
  acknowledged (waiting, v) h e = cc
  acknowledged (panicked why, v) h e = cc
  acknowledged (exhausted, v) h e = cc

  -- Whatever the arguments are, whatever arrives at the sender and whichever calls fail: the
  -- fuel of each loop of `run_send` is enough, it changes no file, and it panics of nothing but an
  -- instant that the platform cannot represent: the clock at the end and the retransmission timeout
  -- then reach the first such instant.
  pub run_send-Unchanged : Unchanged (run_send sha cfg file resolved w)
  run_send-Unchanged = unchanged _ run_send-Then

  -- Whatever arrives at the sender and whichever calls fail: `run_send` appends to what was sent, and
  -- each datagram it appends is the INIT of the file for the first resolved address, a chunk of the
  -- file under its sequence number, the DONE with the number of chunks (these to that address), or a
  -- FIN_ACK.
  pub run_send-SendsOurs : SendsOurs (run_send sha cfg file resolved w)
  run_send-SendsOurs = sends_ours _ run_send-Then

  -- Where `run_send` returns, an ACK from some address and a FIN from an address that `addr_eq`
  -- takes for it are among the datagrams that were to arrive.
  pub run_send-Acknowledged :
      (run_send sha cfg file resolved w).0 ≡ returned tt → Acknowledged frame
  run_send-Acknowledged e = acknowledged _ run_send-Then e
