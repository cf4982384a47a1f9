-- ===== src/Recv/Loop/Packets.antt =====
-- The handlers of INIT, DATA and DONE packets keep what is kept.
use udpcp.Base.{ℕ, ◌≡◌, refl, subst, List, Option, none, some, length, slice}
use udpcp.Error.{Result, ok, err, InitError}
use udpcp.Report.{SocketAddr, bad_init}
use udpcp.Io.{World, Io, pure, ◌>>=◌, ◌>>◌, now, report}
use udpcp.Io.Disk.{FilePath, Files}
use udpcp.Io.Runs.{Setting, Holds, AfterTo, Safe, SafeTo, pure-Safe, >>=-Safe, weaken-Runs}
use udpcp.Io.Runs.Calls.{now-Safe, report-Safe}
use udpcp.Io.Runs.Cases.{try-SafeTo}
use udpcp.Io.Runs.Rounds.{IfSome, some-Safe}
use udpcp.Protocol.{RecvConfig, PacketHeader, init, parse_packet, header_size}
use udpcp.Protocol.Hashing.{Sha256}
use udpcp.Recv.Init.{InitHeader, parse_init}
use udpcp.Recv.State.{ReceiveState, start_state, new}
use udpcp.Recv.State.Keeping.{Starts, accept_data-Safe, open_state-Safe}
use udpcp.Recv.Finish.{DoneOutcome, incomplete, complete}
use udpcp.Recv.Finish.Keeping.{Ours, AllOurs, Handled, handle_done-Safe}
use udpcp.Recv.Loop.{Locals, on_init, on_data, with_state, on_done_at, send_ack, close_transfer}
use udpcp.Recv.Loop.Closing.{close_transfer-AfterTo}
use udpcp.Recv.Loop.Handlers.{
  Fine, Ours-Follows, abandon_transfer-Safe, or_abandon-Safe, send_ack-Safe, Over,
}

-- The files of an INIT among the datagrams that are told of may change.
pub record Receives (S : Setting) (sha : Sha256) (out : Option FilePath) : Type 0 where
  pub starts :
      (d : List ℕ) (h : PacketHeader) (end : ℕ) (i : InitHeader) (start : ℕ)
      → S.Told d
      → parse_packet d (length d) ≡ some (h, end)
      → h.packet_type ≡ init
      → parse_init (slice header_size end d) out ≡ ok i
      → Ours S sha (start_state i start)

module _ (S : Setting) (sha : Sha256) (cfg : RecvConfig) (out : Option FilePath) where
  abbrev pub Next : Option Locals → Files → Type 0
  Next = IfSome S (Over S sha cfg) (Fine S sha)

  -- The loop goes on.
  pub go_on-Safe : (n : ℕ) (l : Locals) → Fine S sha l → SafeTo S n (pure (some l)) Next
  go_on-Safe n l f = some-Safe S (Over S sha cfg) n l (Fine S sha) f

  -- An action that is followed by the next round.
  pub then-Safe :
      (n : ℕ) {act : Io Locals}
      → Safe S n act (Fine S sha)
      → SafeTo S n (act >>= λ l. pure (some l)) Next
  then-Safe n s = >>=-Safe S s λ l f. go_on-Safe n l f

  abbrev pub Begun : Result ReceiveState InitError → Type 0
  Begun (ok s) = Ours S sha s
  Begun (err e) = Unit

  module _ (n : ℕ) (l : Locals) (fine : Fine S sha l) where
    new-Safe :
        (payload : List ℕ)
        → ((i : InitHeader) (start : ℕ)
            → parse_init payload out ≡ ok i
            → Ours S sha (start_state i start))
        → Safe S n (new payload out) Begun
    unfolding new
    new-Safe payload begins = at (parse_init payload out) refl
      where
        begun :
            (i : InitHeader)
            → parse_init payload out ≡ ok i
            → (r : Result ReceiveState InitError) → Starts S n i r
            → Begun r
        begun i e (ok s) (start, same) = subst (Ours S sha) same (begins i start e)
        begun i e (err x) u = u

        at :
            (r : Result InitHeader InitError)
            → parse_init payload out ≡ r
            → Safe S n (new payload out) Begun
        at (err x) e = rw (e, new) (pure-Safe S n (err x) Begun tt)
        at (ok i) e =
            rw (e, new)
              (weaken-Runs S (Starts S n i) Begun (begun i e)
                (open_state-Safe S n i (begins i 0 e).tmp))

    pub on_init-Safe :
        (from : SocketAddr) (payload : List ℕ)
        → ((i : InitHeader) (start : ℕ)
            → parse_init payload out ≡ ok i
            → Ours S sha (start_state i start))
        → Safe S n (on_init cfg out l from payload) (Fine S sha)
    unfolding on_init
    on_init-Safe from payload begins = at l.state refl
      where
        begun :
            (r : Result ReceiveState InitError)
            → Begun r
            → Safe S n
                (elim r [
                  | err e ↦ report (bad_init e) >> pure l
                  | ok s ↦
                      send_ack cfg from
                        (record l { state = some s; sender = some from; last_nack_at = none })
                ])
                (Fine S sha)
        begun (ok s) o = send_ack-Safe S n sha cfg _ (record { ours = o }) from
        begun (err e) u = >>=-Safe S (report-Safe S n _) λ _ _. pure-Safe S n l (Fine S sha) fine

        at :
            (o : Option ReceiveState)
            → l.state ≡ o
            → Safe S n (on_init cfg out l from payload) (Fine S sha)
        at (some s) e = rw (e, on_init) (send_ack-Safe S n sha cfg l fine from)
        at none e = rw (e, on_init) (>>=-Safe S (new-Safe payload begins) begun)

    pub on_data-Safe :
        (seq : ℕ) (payload : List ℕ) → Safe S n (on_data sha cfg l seq payload) (Fine S sha)
    unfolding on_data with_state
    on_data-Safe seq payload = at l.state refl fine.ours
      where
        at :
            (o : Option ReceiveState)
            → l.state ≡ o
            → AllOurs S sha o
            → Safe S n (on_data sha cfg l seq payload) (Fine S sha)
        at none e h = rw (e, on_data) (pure-Safe S n l (Fine S sha) fine)
        at (some s) e h =
            rw (e, on_data)
              (or_abandon-Safe S n sha cfg l fine (
                >>=-Safe S (accept_data-Safe S n sha s seq payload h.valid h.tmp)
                  λ s' f. pure-Safe S n _ (Fine S sha) (record { ours = Ours-Follows h f })))

    pub on_done_at-Safe :
        (addr : Option SocketAddr) (o : Option ReceiveState)
        → AllOurs S sha o
        → SafeTo S n (on_done_at sha cfg l addr o) Next
    unfolding on_done_at
    on_done_at-Safe none o h = go_on-Safe n l fine
    on_done_at-Safe (some addr) none h = go_on-Safe n l fine
    on_done_at-Safe (some addr) (some s) h =
        try-SafeTo S _ (handle_done-Safe S n sha s h addr) ended
          λ e. then-Safe n (abandon_transfer-Safe S n sha cfg l fine e)
      where
        ended :
            (r : DoneOutcome) (w : World)
            → Holds S n w
            → Handled sha s r w.files
            → (let next : Io (Option Locals) = elim r [
              | incomplete ↦ now >>= λ t. pure (some (record l { last_nack_at = some t }))
              | complete ↦ close_transfer sha cfg l s addr
            ] in
                AfterTo S n n Next (next w))
        ended incomplete w k u =
            (>>=-Safe S (now-Safe S n) λ t _. go_on-Safe n _ (record { ours = fine.ours })).at w k
        ended complete w k q = close_transfer-AfterTo S n sha cfg l s addr h w k q
