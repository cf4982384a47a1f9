-- ===== src/EndToEnd/Confirmed.antt =====
-- `run_send` and `receive_loop` when each hears only the other: what the return of `run_send` means.
use udpcp.Base.{ℕ, ◌≡◌, refl, ap, List, [], ◌∷◌, ◌++◌, Option, All, length, arith}
use udpcp.Error.{IoError, Result, ok, err, InitError}
use udpcp.Report.{SocketAddr}
use udpcp.Io.{World, Arrival, datagram, failure, returned}
use udpcp.Io.Disk.{FilePath}
use udpcp.Io.FileOps.{contents}
use udpcp.Protocol.{SendConfig, RecvConfig}
use udpcp.Protocol.Hashing.{Sha256}
use udpcp.Recv.Init.{choose_path}
use udpcp.Recv.Loop.{receive_loop}
use udpcp.Recv.Loop.Keeping.{IsBytes}
use udpcp.Recv.Loop.Confirming.{ComesSingle, Placed, receive_loop-Confirms}
use udpcp.Send.Run.{run_send, source_name}
use udpcp.Send.Run.Sending.{run_send-Acknowledged}
use udpcp.EndToEnd.Carried.{IsCarried, IsCopy, IsLink, All-at, Carried-Says}

module _ (sha : Sha256) (cfg : SendConfig) (file : FilePath)
    (resolved : Result (List SocketAddr) IoError) (ws : World) (out : Option FilePath) (wr : World)
    (rcfg : RecvConfig) where
  -- The inbox of either side comes from the other, and nothing was sent before.
  pub record IsLoop : Type 0 where
    pub link : IsLink sha cfg file resolved ws out wr
    pub quiet : wr.sent ≡ []
    pub answers : All (IsCarried (receive_loop sha out rcfg wr).1.sent) ws.inbox

  module _ (round : IsLoop) (path : FilePath) (hash : List ℕ) where
    -- The path and the hash are those of every INIT.
    abbrev pub Fits : Type 0
    Fits =
        (p : FilePath) (h : List ℕ)
        → h ≡ sha.digest (contents (ws.files file))
        → choose_path (source_name file ++ 0 ∷ []) out ≡ ok p
        → (p ≡ path) × (h ≡ hash)

    pub each-ComesSingle :
        (i : List (ℕ × Arrival))
        → Fits
        → All (IsCarried (run_send sha cfg file resolved ws).1.sent) i
        → All IsBytes i
        → All (ComesSingle sha out path hash) i
    each-ComesSingle [] fits cs bs = tt
    each-ComesSingle ((t, datagram d from) ∷ r) fits (c, cs) (b, bs) = (
      record {
        bytes = b;
        single = λ h end i parsed is_init accepted.
            let (right, chosen) =
              Carried-Says sha cfg file resolved ws out wr round.link d h end i c b parsed is_init
                accepted in
            fits i.final_path i.hash right chosen;
      },
      each-ComesSingle r fits cs bs,
    )
    each-ComesSingle ((t, failure e) ∷ r) fits (c, cs) (b, bs) = (tt, each-ComesSingle r fits cs bs)

    -- A sender that has returned has heard a FIN, which confirms the file.
    returned-Placed :
        Fits
        → (run_send sha cfg file resolved ws).0 ≡ returned tt
        → Placed sha out path hash (receive_loop sha out rcfg wr).1.files
    returned-Placed fits over =
        let told = each-ComesSingle wr.inbox fits round.link.carried round.link.bytes in
        let confirms =
          receive_loop-Confirms sha out path hash rcfg wr round.quiet round.link.blocks told in
        let heard = (run_send-Acknowledged sha cfg file resolved ws over).ended in
        let came : IsCarried (receive_loop sha out rcfg wr).1.sent
            (heard.came.time, datagram heard.packet heard.from) =
          All-at (IsCarried (receive_loop sha out rcfg wr).1.sent) ws.inbox _ round.answers
            heard.came.member in
        confirms.at came.to heard.packet came.member (record {
          header = heard.header;
          end = heard.end;
          parsed = heard.parsed;
          is_fin = heard.is_fin;
        })

  confirmed :
      (r : Result FilePath InitError)
      → choose_path (source_name file ++ 0 ∷ []) out ≡ r
      → IsLoop
      → (run_send sha cfg file resolved ws).0 ≡ returned tt
      → (path : FilePath) × IsCopy sha
          (contents (ws.files file))
          (source_name file)
          out
          (receive_loop sha out rcfg wr).1.files
          path
  confirmed (ok path) e round over =
      let (c, there, right) =
        returned-Placed round path (sha.digest (contents (ws.files file)))
          (λ p h same chosen. (cc, same)) over in
      (path, record { chosen = e; content = c; there = there; right = right })
  confirmed (err x) e round over =
      let (c, there, right) = returned-Placed round [] [] (λ p h same chosen. cc) over in
      absurd (omega (arith, sha.length-digest c, ap (length {A = ℕ}) right))

  -- When all that arrives at the receiver, on a blocking socket, was sent by this call of
  -- `run_send`, all that arrives at the sender was sent by this run of `receive_loop`, neither had
  -- sent anything before, and the file name fits the INIT: if `run_send` returns, the receiver has
  -- under the path chosen for the file name a content with the digest of the file, however
  -- `receive_loop` ends. The datagrams may arrive in any order, be lost or repeated, and calls may
  -- fail on both sides.
  pub run_send-IsCopy :
      IsLoop
      → (run_send sha cfg file resolved ws).0 ≡ returned tt
      → (path : FilePath) × IsCopy sha
          (contents (ws.files file))
          (source_name file)
          out
          (receive_loop sha out rcfg wr).1.files
          path
  run_send-IsCopy round over = confirmed _ refl round over
