-- ===== src/EndToEnd/Carried.antt =====
-- `run_send` and `receive_loop` over a network that loses, repeats and reorders what is sent, and
-- adds failures of its own.
use mathlib.Core.List.{Memᴰ}
use udpcp.Base.{
  some, slice, IsByte, ℕ, ◌+◌, ◌<◌, ◌≡◌, ◌∙◌, ap, subst, ◌⊎◌, inl, inr, false, List, [], ◌∷◌, ◌++◌,
  Option, some, All, arith, length, u16_mod,
}
use udpcp.Error.{IoError, Result, ok}
use udpcp.Report.{SocketAddr}
use udpcp.Io.{World, Arrival, datagram, failure, returned}
use udpcp.Io.Disk.{FilePath, Files}
use udpcp.Io.FileOps.{contents}
use udpcp.Protocol.{SendConfig, RecvConfig, PacketHeader, init, parse_packet, header_size}
use udpcp.Protocol.Hashing.{Sha256}
use udpcp.Recv.Init.{InitHeader, parse_init, choose_path}
use udpcp.Recv.State.{tmp_path_of}
use udpcp.Recv.Loop.{receive_loop}
use udpcp.Recv.Loop.Keeping.{IsBytes, Offered, Traced, receive_loop-Accounted}
use udpcp.Recv.Loop.Returning.{receive_loop-Delivery}
use udpcp.Send.Run.{run_send, source_name}
use udpcp.Send.Run.Sending.{Ours, run_send-SendsOurs}
use udpcp.EndToEnd.Session.{IsOurs-Says}

-- A datagram of those that were sent.
pub record Carried (sent : List (SocketAddr × List ℕ)) (d : List ℕ) : Type 0 where
  pub to : SocketAddr
  pub member : Memᴰ (to, d) sent

-- All that arrives was sent.
abbrev pub IsCarried : List (SocketAddr × List ℕ) → ℕ × Arrival → Type 0
IsCarried sent (t, datagram d from) = Carried sent d
IsCarried sent (t, failure e) = Unit

pub All-at : {A : Type 0} (P : A → Type 0) (xs : List A) (x : A) → All P xs → Memᴰ x xs → P x
All-at P [] x u m = elim m [ ]
All-at P (y ∷ ys) x (p, ps) (Memᴰ.head e) = rw e p
All-at P (y ∷ ys) x (p, ps) (Memᴰ.tail m) = All-at P ys x ps m

module _ (sha : Sha256) (whole : List ℕ) (name : List ℕ) (out : Option FilePath) where
  -- The file `whole`, sent under a name, is at a path, up to its digest.
  pub record IsCopy (files : Files) (path : FilePath) : Type 0 where
    pub chosen : choose_path (name ++ 0 ∷ []) out ≡ ok path
    pub content : List ℕ
    pub there : files path ≡ some content
    pub right : sha.digest content ≡ sha.digest whole

  -- A path is as it was, or a temporary name, or a copy.
  abbrev pub Transferred : Files → Files → FilePath → Type 0
  Transferred old files p =
      (files p ≡ old p)
      ⊎ ((path : FilePath) × (choose_path (name ++ 0 ∷ []) out ≡ ok path)
          × ((p ≡ tmp_path_of path) ⊎ IsCopy files p))

module _ (sha : Sha256) (cfg : SendConfig) (file : FilePath)
    (resolved : Result (List SocketAddr) IoError) (ws : World) (out : Option FilePath)
    (wr : World) where
  -- The inbox of the receiver comes from a call of `run_send` with a name that fits the INIT.
  pub record IsLink : Type 0 where
    pub fresh : ws.sent ≡ []
    pub short : 46 + length (source_name file) < u16_mod
    pub carried : All (IsCarried (run_send sha cfg file resolved ws).1.sent) wr.inbox
    pub blocks : wr.nonblocking ≡ false
    pub bytes : All IsBytes wr.inbox

  module _ (link : IsLink) where
    Carried-Ours :
        (d : List ℕ)
        → Carried (run_send sha cfg file resolved ws).1.sent d
        → (to : SocketAddr) × Ours sha cfg file resolved (contents (ws.files file)) (to, d)
    Carried-Ours d c =
        let (ds, sent, ours) = run_send-SendsOurs sha cfg file resolved ws in
        let all_sent : (run_send sha cfg file resolved ws).1.sent ≡ ds =
          sent ∙ ap (λ before. before ++ ds) link.fresh in
        let member : Memᴰ (c.to, d) ds = subst (λ l. Memᴰ (c.to, d) l) all_sent c.member in
        (
          c.to,
          All-at (Ours sha cfg file resolved (contents (ws.files file))) ds (c.to, d) ours member,
        )

    -- An INIT that the receiver accepts is the sender's.
    pub Carried-Says :
        (d : List ℕ) (h : PacketHeader) (end : ℕ) (i : InitHeader)
        → Carried (run_send sha cfg file resolved ws).1.sent d
        → All IsByte d
        → parse_packet d (length d) ≡ some (h, end)
        → h.packet_type ≡ init
        → parse_init (slice header_size end d) out ≡ ok i
        → (i.hash ≡ sha.digest (contents (ws.files file)))
          × (choose_path (source_name file ++ 0 ∷ []) out ≡ ok i.final_path)
    Carried-Says d h end i came bytes parsed is_init accepted =
        let (to, ours) = Carried-Ours d came in
        let says =
          IsOurs-Says sha _ (contents (ws.files file)) (source_name file) link.short (omega arith)
            out to d h end i ours.packet bytes parsed is_init accepted in
        (says.hash_right, says.path_right)

    Offered-Says :
        (i : InitHeader)
        → Offered wr.inbox out i
        → (i.hash ≡ sha.digest (contents (ws.files file)))
          × (choose_path (source_name file ++ 0 ∷ []) out ≡ ok i.final_path)
    Offered-Says i o =
        let came : IsCarried (run_send sha cfg file resolved ws).1.sent
            (o.arrived.time, datagram o.packet o.arrived.from) =
          All-at (IsCarried (run_send sha cfg file resolved ws).1.sent) wr.inbox _ link.carried
            o.arrived.member in
        Carried-Says o.packet o.header o.end i came o.arrived.bytes o.parsed o.is_init o.accepted

    Traced-Transferred :
        (files : Files) (p : FilePath)
        → Traced sha out wr.inbox wr.files files p
        → Transferred sha (contents (ws.files file)) (source_name file) out wr.files files p
    Traced-Transferred files p (inl e) = inl e
    Traced-Transferred files p (inr (i, o, inl e)) = inr (i.final_path, (Offered-Says i o).1, inl e)
    Traced-Transferred files p (inr (i, o, inr (e, (c, there, right)))) =
        let (hash, chosen) = Offered-Says i o in
        inr (
          i.final_path,
          chosen,
          inr (record { chosen = rw e chosen; content = c; there = there; right = right ∙ hash }),
        )

    -- When the datagrams that come to a receiver with a blocking socket are ones that a call of
    -- `run_send` sent, which had sent nothing before, in any order, any number of times and with
    -- failures between them, and the file name fits the INIT: each path is afterwards as it was,
    -- or it is the temporary name of the path chosen for the sender's file name, or it is that
    -- path itself, with a content that has the digest of the sender's file. All this holds
    -- whichever calls fail on both sides.
    pub receive_loop-Transferred :
        (rcfg : RecvConfig) (p : FilePath)
        → Transferred sha
            (contents (ws.files file))
            (source_name file)
            out
            wr.files
            (receive_loop sha out rcfg wr).1.files
            p
    receive_loop-Transferred rcfg p =
        let accounted = receive_loop-Accounted sha out rcfg wr link.blocks link.bytes in
        Traced-Transferred _ p (accounted.2 p)

    -- When the datagrams that come to a receiver with a blocking socket are ones that a call of
    -- `run_send` sent, which had sent nothing before, in any order, any number of times and with
    -- failures between them, and the file name fits the INIT: if `receive_loop` returns, the path
    -- chosen for the sender's file name holds a content with the digest of the sender's file.
    pub receive_loop-IsCopy :
        (rcfg : RecvConfig)
        → (receive_loop sha out rcfg wr).0 ≡ returned tt
        → (path : FilePath) × IsCopy sha
            (contents (ws.files file))
            (source_name file)
            out
            (receive_loop sha out rcfg wr).1.files
            path
    receive_loop-IsCopy rcfg over =
        let d = receive_loop-Delivery sha out rcfg wr link.blocks link.bytes over in
        let (hash, chosen) = Offered-Says d.init d.offered in
        (
          d.init.final_path,
          record { chosen = chosen; content = d.content; there = d.there; right = d.right ∙ hash },
        )
