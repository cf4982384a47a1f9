-- ===== src/Recv/Loop/Confirming.antt =====
-- What a FIN of the receiver confirms.
use mathlib.Core.List.{Memᴰ}
use udpcp.Base.{
  ℕ, suc, ◌≡◌, ◌≢◌, sym, ap, ◌∙◌, ◌⊎◌, inl, inr, List, [], ◌∷◌, ◌++◌, Option, some, length, slice,
  All, All-take, All-drop, IsByte, arith, false,
}
use udpcp.Error.{ok}
use udpcp.Report.{SocketAddr}
use udpcp.Io.{
  World, Arrival, datagram, failure, Outcome, returned, raised, panicked, waiting, exhausted,
}
use udpcp.Io.Disk.{FilePath, Files, put_self, put_ne}
use udpcp.Io.Runs.{Setting, IsTold, AfterTo}
use udpcp.Io.Runs.Calls.{Writable}
use udpcp.Protocol.{RecvConfig, PacketHeader, init, fin, parse_packet, header_size}
use udpcp.Protocol.{encode_nack_payload}
use udpcp.Protocol.Replies.{IsReply, reply_ack, reply_nack}
use udpcp.Protocol.Hashing.{Sha256}
use udpcp.Protocol.RoundTrip.{parse_packet_type}
use udpcp.Recv.Init.{InitHeader, parse_init}
use udpcp.Recv.Init.Accepts.{parse_init-Accepted}
use udpcp.Recv.State.{start_state, tmp_path_of}
use udpcp.Recv.State.Naming.{tmp_path_of_apart}
use udpcp.Recv.State.Valid.{start_state-IsValid}
use udpcp.Recv.Finish.Keeping.{Ours, Sent}
use udpcp.Recv.Loop.{receive_loop}
use udpcp.Recv.Loop.Packets.{Receives}
use udpcp.Recv.Loop.Rounds.{OneShot, receive_loop-Safe}

pub record IsFin (d : List ℕ) : Type 0 where
  pub header : PacketHeader
  pub end : ℕ
  pub parsed : parse_packet d (length d) ≡ some (header, end)
  pub is_fin : header.packet_type ≡ fin

mem_snoc : {A : Type 0} (xs : List A) (x y : A) → Memᴰ x (xs ++ y ∷ []) → Memᴰ x xs ⊎ (x ≡ y)
mem_snoc [] x y (Memᴰ.head e) = inr e
mem_snoc [] x y (Memᴰ.tail m) = elim m [ ]
mem_snoc (z ∷ xs) x y (Memᴰ.head e) = inl (Memᴰ.head e)
mem_snoc (z ∷ xs) x y (Memᴰ.tail m) = elim (mem_snoc xs x y m) [
  | inl k ↦ inl (Memᴰ.tail k)
  | inr e ↦ inr e
]

-- A reply is not parsed as a FIN.
IsReply-fin :
    (d : List ℕ) (h : PacketHeader) (end : ℕ)
    → IsReply d
    → parse_packet d (length d) ≡ some (h, end)
    → h.packet_type ≢ fin
IsReply-fin d h end (reply_ack e) p q = let read = parse_packet_type h _ [] end (rw e at p) in cc
IsReply-fin d h end (reply_nack batch some_left few seqs e) p q =
    let read = parse_packet_type h _ (encode_nack_payload batch) end (rw e at p) in cc

module _ (sha : Sha256) (out : Option FilePath) (path : FilePath) (hash : List ℕ) where
  -- Every INIT that is accepted is for the same path and hash.
  pub record IsSingle (d : List ℕ) : Type 0 where
    pub bytes : All IsByte d
    pub single :
        (h : PacketHeader) (end : ℕ) (i : InitHeader)
        → parse_packet d (length d) ≡ some (h, end)
        → h.packet_type ≡ init
        → parse_init (slice header_size end d) out ≡ ok i
        → (i.final_path ≡ path) × (i.hash ≡ hash)

  -- The file is at the path.
  abbrev pub Placed : Files → Type 0
  Placed files = (c : List ℕ) × (files path ≡ some c) × (sha.digest c ≡ hash)

  -- A FIN was sent only with the file in place.
  pub record Confirms (files : Files) (sent : Sent) : Type 0 where
    pub at : (to : SocketAddr) (d : List ℕ) → Memᴰ (to, d) sent → IsFin d → Placed files

  calm-Confirms :
      (addr : SocketAddr) (d : List ℕ) (files : Files) (sent : Sent)
      → IsReply d
      → Confirms files sent
      → Confirms files (sent ++ (addr, d) ∷ [])
  calm-Confirms addr d files sent reply k = record {
    at = λ to d' m f. elim (mem_snoc sent (to, d') (addr, d) m) [
      | inl old ↦ k.at to d' old f
      | inr e ↦
          let same : d' ≡ d = ap (λ (p : SocketAddr × List ℕ). p.1) e in
          absurd (IsReply-fin d f.header f.end reply (rw same at f.parsed) f.is_fin)
    ];
  }

  abbrev single : Setting
  single = record {
    Told = IsSingle;
    Kept = Confirms;
    Origin = λ p h. (p ≡ path) × (h ≡ hash);
    calm = calm-Confirms;
  }

  module _ (i : InitHeader) (to_path : i.final_path ≡ path) (has_hash : i.hash ≡ hash) where
    tmp-Writable : Writable single (tmp_path_of i.final_path)
    tmp-Writable c files sent k = record {
      at = λ to d m f.
          let (got, there, right) = k.at to d m f in
          (
            got,
            put_ne (tmp_path_of i.final_path) path c files
                  (λ e. tmp_path_of_apart i.final_path (e ∙ sym to_path))
                ∙ there,
            right,
          );
    }

    start_state-Ours :
        (payload : List ℕ) (start : ℕ)
        → All IsByte payload
        → parse_init payload out ≡ ok i
        → Ours single sha (start_state i start)
    unfolding start_state
    start_state-Ours payload start bytes accepted = record {
      valid = start_state-IsValid i start (parse_init-Accepted payload out i bytes accepted).init;
      tmp = tmp-Writable;
      apart = tmp_path_of_apart i.final_path;
      origin = (to_path, has_hash);
      place = λ c files sent right k. record {
        at = λ to d m f. (c, rw (← to_path) (put_self i.final_path (some c) _), right ∙ has_hash);
      };
      finished = λ addr files sent (c, there, right) k. record {
        at = λ to d m f. (c, rw (← to_path) there, right ∙ has_hash);
      };
    }

  single-Receives : Receives single sha out
  single-Receives = record {
    starts = λ d h end i start told parsed is_init accepted.
        let (p, q) = told.single h end i parsed is_init accepted in
        start_state-Ours i p q (slice header_size end d) start
          (All-take IsByte _ _ (All-drop IsByte header_size d told.bytes)) accepted;
  }

  -- The same of an arrival.
  abbrev pub ComesSingle : ℕ × Arrival → Type 0
  ComesSingle (t, datagram d from) = IsSingle d
  ComesSingle (t, failure e) = Unit

  IsTold-each : (i : List (ℕ × Arrival)) → All ComesSingle i → All (IsTold single) i
  IsTold-each [] u = tt
  IsTold-each ((t, datagram d from) ∷ r) (b, bs) = (b, IsTold-each r bs)
  IsTold-each ((t, failure e) ∷ r) (b, bs) = (tt, IsTold-each r bs)

  loop-Confirms :
      (cfg : RecvConfig) (n : ℕ) (r : Outcome (Unit {0}) × World)
      → AfterTo single n n (OneShot single sha cfg out) r
      → Confirms r.1.files r.1.sent
  loop-Confirms cfg n (returned u, v) h = h.0.kept
  loop-Confirms cfg n (raised x, v) h = h.kept
  loop-Confirms cfg n (waiting, v) h = h.kept
  loop-Confirms cfg n (panicked why, v) h = h.0.kept
  loop-Confirms cfg n (exhausted, v) h = absurd h

  -- On a blocking socket, when every INIT that arrives and is accepted names the same final path
  -- and hash, and nothing was sent before: once `receive_loop` has sent a FIN, to whomever, and
  -- however it ends, a file with that hash is at that path. So it is with a receiver that serves
  -- and one that does not, whatever else arrives and whichever calls fail.
  pub receive_loop-Confirms :
      (cfg : RecvConfig) (w : World)
      → w.sent ≡ []
      → w.nonblocking ≡ false
      → All ComesSingle w.inbox
      → Confirms (receive_loop sha out cfg w).1.files (receive_loop sha out cfg w).1.sent
  receive_loop-Confirms cfg w fresh blocks told =
      let n : ℕ = suc (length w.inbox) in
      loop-Confirms cfg n (receive_loop sha out cfg w) (
        (receive_loop-Safe single sha cfg out single-Receives n).at w (record {
          blocks = blocks;
          few = omega arith;
          told = IsTold-each w.inbox told;
          kept = record { at = λ to d m f. elim (rw fresh at m) [ ] };
        }))
