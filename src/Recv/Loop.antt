-- ===== src/Recv/Loop.antt =====
-- `receive_loop` of lib/recv.rs and the handlers of its packets. An error that leaves the loop drops
-- the state on its way out, and so does a panic of a deadline.
pub mod Handlers
pub mod Closing
pub mod Packets
pub mod Rounds
pub mod Keeping
pub mod Returning
pub mod Confirming
pub mod Replying
use udpcp.Base.{
  ℕ, zero, suc, List, Option, none, some, Bool, false, not, if◌then◌else◌, length, slice,
}
use udpcp.Error.{Result, ok, err, IoError, is_timeout, is_interrupted}
use udpcp.Report.{SocketAddr, addr_eq, listening, bad_init, failed}
use udpcp.Io.{
  Io, pure, raise, out_of_fuel, ◌>>=◌, ◌>>◌, attempt, ignore, now, recv_from, set_read_timeout,
  local_addr, report,
}
use udpcp.Io.Disk.{FilePath}
use udpcp.Protocol.{
  RecvConfig, PacketHeader, init, ack, data_chunk, done, fin, send_control, parse_packet,
  header_size,
}
use udpcp.Protocol.Hashing.{Sha256}
use udpcp.Recv.State.{ReceiveState, new, accept_data}
use udpcp.Recv.Gaps.{TickOutcome, waiting, nacked, read_timeout, on_idle_tick}
use udpcp.Recv.Finish.{incomplete, complete, drop_state, unwinding, handle_done}
use udpcp.Recv.Linger.{linger}

-- The variables of `receive_loop`.
pub record Locals : Type 0 where
  pub state : Option ReceiveState
  pub sender : Option SocketAddr
  pub last_data_at : ℕ
  pub last_nack_at : Option ℕ

unfoldable pub reset_listening : Locals → Io Locals
reset_listening l = do
  drop_state l.state
  set_read_timeout none
  addr ← local_addr
  report (listening addr)
  pure (record l { state = none; sender = none; last_nack_at = none })

-- An error return.
unfoldable pub leave {ℓ} : {A : Type ℓ} → IoError → Locals → Io A
leave e l = drop_state l.state >> raise e

unfoldable pub abandon_transfer : RecvConfig → IoError → Locals → Io Locals
abandon_transfer cfg e l = if cfg.serve then (report (failed e) >> reset_listening l) else leave e l

-- The reaction to the `io::Result` of a handler.
unfoldable pub or_abandon : RecvConfig → Locals → Result Locals IoError → Io Locals
or_abandon cfg l (ok l') = pure l'
or_abandon cfg l (err e) = abandon_transfer cfg e l

unfoldable pub tick : RecvConfig → Locals → Option ReceiveState → Option SocketAddr → Io TickOutcome
tick cfg l (some s) (some addr) =
    unwinding (some s) (on_idle_tick s addr l.last_data_at l.last_nack_at cfg.limits)
tick cfg l (some s) none = pure waiting
tick cfg l none addr = pure waiting

unfoldable pub ticked : Locals → TickOutcome → Locals
ticked l waiting = l
ticked l (nacked at) = record l { last_nack_at = some at }

-- The read timed out.
unfoldable pub on_timeout : RecvConfig → Locals → Io Locals
unfolding tick ticked
on_timeout cfg l =
    attempt (tick cfg l l.state l.sender >>= λ t. pure (ticked l t)) >>= or_abandon cfg l

unfoldable pub send_ack : RecvConfig → SocketAddr → Locals → Io Locals
send_ack cfg from l = attempt (send_control from ack 0 >> pure l) >>= or_abandon cfg l

unfoldable pub on_init : RecvConfig → Option FilePath → Locals → SocketAddr → List ℕ → Io Locals
unfolding send_ack
on_init cfg out l from payload = elim l.state [
  | some s ↦ send_ack cfg from l
  | none ↦ new payload out >>= λ r. elim r [
    | err e ↦ report (bad_init e) >> pure l
    | ok s ↦
        send_ack cfg from (record l { state = some s; sender = some from; last_nack_at = none })
  ]
]

-- Before a receive: the time until the next deadline of a running transfer.
unfoldable pub arm_timeout : RecvConfig → Locals → Io (Unit {0})
arm_timeout cfg l = elim l.state [
  | none ↦ pure tt
  | some s ↦ do
    d ← unwinding (some s) (read_timeout s l.last_data_at l.last_nack_at cfg.limits)
    armed ← attempt (set_read_timeout (some d))
    elim armed [ ok u ↦ pure u | err e ↦ leave e l ]
]

-- `from != s` for a sender `s`.
unfoldable pub is_stranger : Option SocketAddr → SocketAddr → Bool
is_stranger none from = false
is_stranger (some s) from = not (addr_eq from s)

module _ (sha : Sha256) where
  unfoldable pub with_state : Locals → ReceiveState → Locals
  with_state l s = record l { state = some s }

  unfoldable pub on_data : RecvConfig → Locals → ℕ → List ℕ → Io Locals
  unfolding with_state
  on_data cfg l seq payload = elim l.state [
    | none ↦ pure l
    | some s ↦
        attempt (accept_data sha s seq payload >>= λ s'. pure (with_state l s'))
        >>= or_abandon cfg l
  ]

  -- The transfer is complete: FIN, linger, and the next transfer if the receiver serves on.
  unfoldable pub close_transfer :
      RecvConfig → Locals → ReceiveState → SocketAddr → Io (Option Locals)
  close_transfer cfg l s addr = do
    drop_state (some s)
    ignore (send_control addr fin 0)
    linger addr cfg.linger_timeout
    if cfg.serve
        then (reset_listening (record l { state = none }) >>= λ l'. pure (some l'))
        else pure none

  -- `none` is the end of `receive_loop`.
  unfoldable pub on_done_at :
      RecvConfig → Locals → Option SocketAddr → Option ReceiveState → Io (Option Locals)
  on_done_at cfg l none state = pure (some l)
  on_done_at cfg l (some addr) none = pure (some l)
  on_done_at cfg l (some addr) (some s) = attempt (handle_done sha s addr) >>= λ r. elim r [
    | ok incomplete ↦ now >>= λ t. pure (some (record l { last_nack_at = some t }))
    | ok complete ↦ close_transfer cfg l s addr
    | err e ↦ abandon_transfer cfg e l >>= λ l'. pure (some l')
  ]

  unfoldable pub on_packet :
      RecvConfig
      → Option FilePath
      → Locals
      → SocketAddr
      → List ℕ
      → PacketHeader
      → ℕ
      → Io (Option Locals)
  unfolding on_done_at
  on_packet cfg out l from d h payload_end = elim h.packet_type [
    | init ↦ on_init cfg out l from (slice header_size payload_end d) >>= λ l'. pure (some l')
    | data_chunk ↦ on_data cfg l h.seq (slice header_size payload_end d) >>= λ l'. pure (some l')
    | done ↦ on_done_at cfg l l.sender l.state
    | _ ↦ pure (some l)
  ]

  unfoldable pub on_datagram :
      RecvConfig → Option FilePath → Locals → List ℕ → SocketAddr → Io (Option Locals)
  on_datagram cfg out l d from =
      if is_stranger l.sender from
      then pure (some l)
      else (now >>= λ t.
          let l' = record l { last_data_at = t } in
          elim (parse_packet d (length d)) [
            | none ↦ pure (some l')
            | some (h, payload_end) ↦ on_packet cfg out l' from d h payload_end
          ])

  unfoldable pub on_recv_error : RecvConfig → Locals → IoError → Io (Option Locals)
  on_recv_error cfg l e =
      if is_timeout e
      then (on_timeout cfg l >>= λ l'. pure (some l'))
      else (if is_interrupted e then pure (some l) else leave e l)

  -- One round of the loop.
  unfoldable pub receive_step : RecvConfig → Option FilePath → Locals → Io (Option Locals)
  receive_step cfg out l =
      arm_timeout cfg l
      >> (attempt recv_from >>= λ r. elim r [
        | err e ↦ on_recv_error cfg l e
        | ok (d, from) ↦ on_datagram cfg out l d from
      ])

  pub receive_rounds : ℕ → RecvConfig → Option FilePath → Locals → Io (Unit {0})
  receive_rounds zero cfg out l = out_of_fuel
  receive_rounds (suc fuel) cfg out l = receive_step cfg out l >>= λ next. elim next [
    | none ↦ pure tt
    | some l' ↦ receive_rounds fuel cfg out l'
  ]

  -- Each round that goes on has taken an arrival from the inbox.
  unfoldable pub receive_loop : Option FilePath → RecvConfig → Io (Unit {0})
  unfolding receive_rounds
  receive_loop out cfg w =
      (local_addr >>= λ addr.
      report (listening addr)
      >> (now >>= λ t.
          receive_rounds (suc (length w.inbox)) cfg out
            (record { state = none; sender = none; last_data_at = t; last_nack_at = none })))
        w
