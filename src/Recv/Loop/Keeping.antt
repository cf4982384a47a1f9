-- ===== src/Recv/Loop/Keeping.antt =====
-- What `receive_loop` does to the files, whatever arrives.
use mathlib.Core.List.{Memᴰ}
use udpcp.Base.{
  ℕ, suc, ◌≡◌, ◌≢◌, refl, sym, ◌∙◌, ◌⊎◌, inl, inr, List, [], ◌∷◌, Option, none, some, false,
  Bool-cases, length, slice, All, All-take, All-drop, IsByte, arith, bytes_eq, bytes_eq→eq,
}
use udpcp.Error.{ok}
use udpcp.Report.{SocketAddr}
use udpcp.Io.{
  World, Arrival, datagram, failure, Outcome, returned, raised, panicked, waiting, exhausted, Panic,
  instant_overflow,
}
use udpcp.Io.Disk.{FilePath, Files, put}
use udpcp.Io.Runs.{Setting, Holds, IsTold, AfterTo}
use udpcp.Io.Runs.Calls.{Writable}
use udpcp.Protocol.{RecvConfig, PacketHeader, init, parse_packet, header_size}
use udpcp.Protocol.Hashing.{Sha256}
use udpcp.Recv.Init.{InitHeader, parse_init}
use udpcp.Recv.Init.Accepts.{parse_init-Accepted}
use udpcp.Recv.State.{start_state, tmp_path_of}
use udpcp.Recv.State.Naming.{tmp_path_of_apart}
use udpcp.Recv.State.Valid.{start_state-IsValid}
use udpcp.Recv.Finish.Keeping.{Ours}
use udpcp.Recv.Loop.{receive_loop}
use udpcp.Recv.Loop.Packets.{Receives}
use udpcp.Recv.Loop.Rounds.{receive_loop-Safe}

abbrev pub IsBytes : ℕ × Arrival → Type 0
IsBytes (t, datagram d from) = All IsByte d
IsBytes (t, failure e) = Unit

-- A datagram of the inbox.
pub record Arrived (inbox : List (ℕ × Arrival)) (d : List ℕ) : Type 0 where
  pub bytes : All IsByte d
  pub time : ℕ
  pub from : SocketAddr
  pub member : Memᴰ (time, datagram d from) inbox

-- An INIT of the inbox that is accepted.
pub record Offered (inbox : List (ℕ × Arrival)) (out : Option FilePath) (i : InitHeader)
    : Type 0 where
  pub packet : List ℕ
  pub header : PacketHeader
  pub end : ℕ
  pub arrived : Arrived inbox packet
  pub parsed : parse_packet packet (length packet) ≡ some (header, end)
  pub is_init : header.packet_type ≡ init
  pub accepted : parse_init (slice header_size end packet) out ≡ ok i

module _ (sha : Sha256) (out : Option FilePath) (inbox : List (ℕ × Arrival)) where
  -- How content comes to a path: under a temporary name, or with the announced hash.
  abbrev pub Received : FilePath → Option (List ℕ) → InitHeader → Type 0
  Received p content i =
      (p ≡ tmp_path_of i.final_path)
      ⊎ ((p ≡ i.final_path) × ((c : List ℕ) × (content ≡ some c) × (sha.digest c ≡ i.hash)))

  -- The content of a path is the old one or was received.
  abbrev pub Traced : Files → Files → FilePath → Type 0
  Traced old new p =
      (new p ≡ old p) ⊎ ((i : InitHeader) × Offered inbox out i × Received p (new p) i)

  pub record AllTraced (old new : Files) : Type 0 where
    pub at : (p : FilePath) → Traced old new p

  -- The final name and the hash of an INIT that is accepted.
  pub record IsOrigin (path : FilePath) (hash : List ℕ) : Type 0 where
    pub init : InitHeader
    pub offered : Offered inbox out init
    pub same_path : init.final_path ≡ path
    pub same_hash : init.hash ≡ hash

  abbrev pub setting : Files → Setting
  setting old = record {
    Told = Arrived inbox;
    Kept = λ files sent. AllTraced old files;
    Origin = IsOrigin;
    calm = λ addr d files sent reply k. k;
  }

  module _ (old : Files) (i : InitHeader) (o : Offered inbox out i) where
    tmp-Writable : Writable (setting old) (tmp_path_of i.final_path)
    unfolding put
    tmp-Writable c files sent k = record { at = at }
      where
        at : (p : FilePath) → Traced old (put (tmp_path_of i.final_path) c files) p
        at p = elim (Bool-cases (bytes_eq (tmp_path_of i.final_path) p)) [
          | inl same ↦ inr (i, o, inl (sym (bytes_eq→eq _ _ same)))
          | inr other ↦ rw (other, put) (k.at p)
        ]

    place-AllTraced :
        (c : List ℕ) (files : Files)
        → sha.digest c ≡ i.hash
        → AllTraced old files
        → AllTraced old (put i.final_path (some c) (put (tmp_path_of i.final_path) none files))
    unfolding put
    place-AllTraced c files right k = record { at = at }
      where
        at :
            (p : FilePath)
            → Traced old (put i.final_path (some c) (put (tmp_path_of i.final_path) none files)) p
        at p = elim (Bool-cases (bytes_eq i.final_path p)) [
          | inl same ↦ inr (i, o, inr (sym (bytes_eq→eq _ _ same), (c, rw (same, put) refl, right)))
          | inr other ↦ rw (other, put) ((tmp-Writable none files [] k).at p)
        ]

    start_state-Ours : (start : ℕ) → Ours (setting old) sha (start_state i start)
    unfolding start_state
    start_state-Ours start =
        let bytes : All IsByte (slice header_size o.end o.packet) =
          All-take IsByte _ _ (All-drop IsByte header_size o.packet o.arrived.bytes) in
        record {
          valid = start_state-IsValid i start (parse_init-Accepted _ out i bytes o.accepted).init;
          tmp = tmp-Writable;
          apart = tmp_path_of_apart i.final_path;
          origin = record { init = i; offered = o; same_path = refl; same_hash = refl };
          place = λ c files sent right k. place-AllTraced c files right k;
          finished = λ addr files sent q k. k;
        }

  pub setting-Receives : (old : Files) → Receives (setting old) sha out
  setting-Receives old = record {
    starts = λ d h end i start told parsed is_init accepted.
        start_state-Ours old i
          (record {
            packet = d;
            header = h;
            end = end;
            arrived = told;
            parsed = parsed;
            is_init = is_init;
            accepted = accepted;
          })
          start;
  }

IsTold-each :
    (inbox rest : List (ℕ × Arrival)) (S : Setting)
    → ((d : List ℕ) (t : ℕ) (from : SocketAddr)
        → All IsByte d
        → Memᴰ (t, datagram d from) rest
        → S.Told d)
    → All IsBytes rest
    → All (IsTold S) rest
IsTold-each inbox [] S k b = tt
IsTold-each inbox ((t, datagram d from) ∷ r) S k (b, bs) = (
  k d t from b (Memᴰ.head refl),
  IsTold-each inbox r S (λ d t from b m. k d t from b (Memᴰ.tail m)) bs,
)
IsTold-each inbox ((t, failure e) ∷ r) S k (b, bs) =
    (tt, IsTold-each inbox r S (λ d t from b m. k d t from b (Memᴰ.tail m)) bs)

-- How `receive_loop` ends: in a panic only of an instant that overflows; its fuel is enough; and
-- every path is traced.
abbrev pub Accounted : Sha256 → Option FilePath → World → Outcome (Unit {0}) × World → Type 0
Accounted sha out w r =
    ((why : Panic) → r.0 ≡ panicked why → why ≡ instant_overflow)
    × (r.0 ≢ exhausted)
    × ((p : FilePath) → Traced sha out w.inbox w.files r.1.files p)

abbrev pub tracing : Sha256 → Option FilePath → World → Setting
tracing sha out w = setting sha out w.inbox w.files

pub before-Holds :
    (sha : Sha256) (out : Option FilePath) (w : World)
    → w.nonblocking ≡ false
    → All IsBytes w.inbox
    → Holds (tracing sha out w) (suc (length w.inbox)) w
before-Holds sha out w blocks bytes = record {
  blocks = blocks;
  few = omega arith;
  told =
      IsTold-each w.inbox w.inbox (tracing sha out w)
        (λ d t from b m. record { bytes = b; time = t; from = from; member = m }) bytes;
  kept = record { at = λ p. inl refl };
}

accounted :
    (sha : Sha256) (out : Option FilePath) (w : World) (n : ℕ) (Q : Unit {0} → Files → Type 0)
    (r : Outcome (Unit {0}) × World)
    → AfterTo (tracing sha out w) n n Q r
    → Accounted sha out w r
accounted sha out w n Q (returned u, v) h = (λ why e. cc, λ e. cc, h.0.kept.at)
accounted sha out w n Q (raised x, v) h = (λ why e. cc, λ e. cc, h.kept.at)
accounted sha out w n Q (waiting, v) h = (λ why e. cc, λ e. cc, h.kept.at)
accounted sha out w n Q (panicked why, v) h =
    (λ why' e. let same : why ≡ why' = cc in sym same ∙ h.1, λ e. cc, h.0.kept.at)
accounted sha out w n Q (exhausted, v) h = absurd h

-- Whatever arrives at a receiver with a blocking socket, in whatever order, and whichever calls
-- fail: the fuel of `receive_loop` is enough, and it panics of nothing but an instant that the
-- platform cannot represent. Each path then has its old content, or it is the temporary name of an
-- accepted INIT that has arrived, or it is the final name of one and its content has the hash that
-- this INIT announced.
pub receive_loop-Accounted :
    (sha : Sha256) (out : Option FilePath) (cfg : RecvConfig) (w : World)
    → w.nonblocking ≡ false
    → All IsBytes w.inbox
    → Accounted sha out w (receive_loop sha out cfg w)
receive_loop-Accounted sha out cfg w blocks bytes =
    let n : ℕ = suc (length w.inbox) in
    let safe =
      receive_loop-Safe (tracing sha out w) sha cfg out (setting-Receives sha out w.inbox w.files)
        n in
    accounted sha out w n _ (receive_loop sha out cfg w)
      (safe.at w (before-Holds sha out w blocks bytes))
