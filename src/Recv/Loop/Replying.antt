-- ===== src/Recv/Loop/Replying.antt =====
-- The datagrams that `receive_loop` sends.
use udpcp.Base.{
  ℕ, suc, ◌≡◌, refl, sym, ◌∙◌, ap, ◌⊎◌, inl, inr, append-nil, append_assoc, List, [], ◌∷◌, ◌++◌,
  Option, length, slice, All, All-append, All-take, All-drop, IsByte, arith, false,
}
use udpcp.Error.{ok}
use udpcp.Report.{SocketAddr}
use udpcp.Io.{
  World, Arrival, datagram, failure, Outcome, returned, raised, panicked, waiting, exhausted,
}
use udpcp.Io.Disk.{FilePath}
use udpcp.Io.Runs.{Setting, IsTold, AfterTo}
use udpcp.Protocol.{RecvConfig, header_size}
use udpcp.Protocol.Hashing.{Sha256}
use udpcp.Protocol.Replies.{IsReply, fin_bytes}
use udpcp.Recv.Init.{InitHeader, parse_init}
use udpcp.Recv.Init.Accepts.{parse_init-Accepted}
use udpcp.Recv.State.{start_state}
use udpcp.Recv.State.Naming.{tmp_path_of_apart}
use udpcp.Recv.State.Valid.{start_state-IsValid}
use udpcp.Recv.Finish.Keeping.{Ours, Sent}
use udpcp.Recv.Loop.{receive_loop}
use udpcp.Recv.Loop.Keeping.{IsBytes}
use udpcp.Recv.Loop.Packets.{Receives}
use udpcp.Recv.Loop.Rounds.{OneShot, receive_loop-Safe}

-- A reply, or the FIN.
abbrev pub IsAnswer : SocketAddr × List ℕ → Type 0
IsAnswer p = IsReply p.1 ⊎ (p.1 ≡ fin_bytes)

-- What was sent since is answers.
pub record Answers (before after : Sent) : Type 0 where
  pub added : Sent
  pub grown : after ≡ before ++ added
  pub each : All IsAnswer added

Answers-snoc :
    (before after : Sent) (p : SocketAddr × List ℕ)
    → IsAnswer p
    → Answers before after
    → Answers before (after ++ p ∷ [])
Answers-snoc before after p a k = record {
  added = k.added ++ p ∷ [];
  grown = ap (λ l. l ++ p ∷ []) k.grown ∙ append_assoc before k.added (p ∷ []);
  each = All-append IsAnswer k.added (p ∷ []) k.each (a, tt);
}

module _ (sha : Sha256) (out : Option FilePath) (before : Sent) where
  abbrev answering : Setting
  answering = record {
    Told = All IsByte;
    Kept = λ files sent. Answers before sent;
    Origin = λ p h. Unit;
    calm = λ addr d files sent reply k. Answers-snoc before sent (addr, d) (inl reply) k;
  }

  start_state-Ours :
      (payload : List ℕ) (i : InitHeader) (start : ℕ)
      → All IsByte payload
      → parse_init payload out ≡ ok i
      → Ours answering sha (start_state i start)
  unfolding start_state
  start_state-Ours payload i start bytes accepted = record {
    valid = start_state-IsValid i start (parse_init-Accepted payload out i bytes accepted).init;
    tmp = λ c files sent k. k;
    apart = tmp_path_of_apart i.final_path;
    origin = tt;
    place = λ c files sent right k. k;
    finished = λ addr files sent q k. Answers-snoc before sent (addr, fin_bytes) (inr refl) k;
  }

  answering-Receives : Receives answering sha out
  answering-Receives = record {
    starts = λ d h end i start bytes parsed is_init accepted.
        start_state-Ours (slice header_size end d) i start
          (All-take IsByte _ _ (All-drop IsByte header_size d bytes)) accepted;
  }

  IsTold-each : (i : List (ℕ × Arrival)) → All IsBytes i → All (IsTold answering) i
  IsTold-each [] u = tt
  IsTold-each ((t, datagram d from) ∷ r) (b, bs) = (b, IsTold-each r bs)
  IsTold-each ((t, failure e) ∷ r) (b, bs) = (tt, IsTold-each r bs)

  loop-Answers :
      (cfg : RecvConfig) (n : ℕ) (r : Outcome (Unit {0}) × World)
      → AfterTo answering n n (OneShot answering sha cfg out) r
      → Answers before r.1.sent
  loop-Answers cfg n (returned u, v) h = h.0.kept
  loop-Answers cfg n (raised x, v) h = h.kept
  loop-Answers cfg n (waiting, v) h = h.kept
  loop-Answers cfg n (panicked why, v) h = h.0.kept
  loop-Answers cfg n (exhausted, v) h = absurd h

-- On a blocking socket, whatever arrives and whichever calls fail: each datagram that `receive_loop`
-- sends is the ACK, the FIN, or a NACK with at least one and at most `max_nacks_per_packet` sequence
-- numbers, all below `max_total_chunks`, and with their count in its header.
pub receive_loop-Answers :
    (sha : Sha256) (out : Option FilePath) (cfg : RecvConfig) (w : World)
    → w.nonblocking ≡ false
    → All IsBytes w.inbox
    → Answers w.sent (receive_loop sha out cfg w).1.sent
receive_loop-Answers sha out cfg w blocks bytes =
    let n : ℕ = suc (length w.inbox) in
    let before : Sent = w.sent in
    loop-Answers sha out before cfg n (receive_loop sha out cfg w) (
      (receive_loop-Safe (answering sha out before) sha cfg out (answering-Receives sha out before)
          n).at
        w
        (record {
          blocks = blocks;
          few = omega arith;
          told = IsTold-each sha out before w.inbox bytes;
          kept = record { added = []; grown = sym (append-nil w.sent); each = tt };
        }))
