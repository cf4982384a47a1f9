-- ===== src/Recv/Linger.antt =====
-- `linger` of lib/recv.rs: after the transfer the receiver answers each DONE with a FIN, until a
-- FIN_ACK or a quiet window.
pub mod Keeping
use udpcp.Base.{ℕ, zero, suc, ◌-◌, Option, none, some, leb, if◌then◌else◌, length}
use udpcp.Error.{ok, err, is_interrupted}
use udpcp.Report.{SocketAddr, addr_eq}
use udpcp.Io.{
  deadline_after, Io, pure, out_of_fuel, ◌>>=◌, ◌>>◌, attempt, ignore, now, recv_from,
  set_read_timeout,
}
use udpcp.Protocol.{PacketHeader, done, fin, fin_ack, send_control, parse_packet}

-- One datagram from the sender: the next deadline, or none to stop.
unfoldable pub linger_packet : SocketAddr → ℕ → ℕ → Option (PacketHeader × ℕ) → Io (Option ℕ)
linger_packet sender timeout deadline none = pure (some deadline)
linger_packet sender timeout deadline (some (h, _)) = elim h.packet_type [
  | fin_ack ↦ pure none
  | done ↦ ignore (send_control sender fin 0) >> (deadline_after timeout >>= λ d. pure (some d))
  | _ ↦ pure (some deadline)
]

-- One round of the loop before its deadline.
unfoldable pub linger_round : SocketAddr → ℕ → ℕ → ℕ → Io (Option ℕ)
linger_round sender timeout deadline t =
    set_read_timeout (some (deadline - t))
    >> (attempt recv_from >>= λ r. elim r [
      | err e ↦ if is_interrupted e then pure (some deadline) else pure none
      | ok (d, from) ↦
          if addr_eq from sender
          then linger_packet sender timeout deadline (parse_packet d (length d))
          else pure (some deadline)
    ])

unfoldable pub linger_step : SocketAddr → ℕ → ℕ → Io (Option ℕ)
linger_step sender timeout deadline =
    now >>= λ t. if leb deadline t then pure none else linger_round sender timeout deadline t

pub linger_loop : ℕ → SocketAddr → ℕ → ℕ → Io (Unit {0})
linger_loop zero sender timeout deadline = out_of_fuel
linger_loop (suc fuel) sender timeout deadline = linger_step sender timeout deadline >>= λ next.
    elim next [ none ↦ pure tt | some deadline' ↦ linger_loop fuel sender timeout deadline' ]

-- Each round that goes on has taken an arrival from the inbox.
unfoldable pub linger : SocketAddr → ℕ → Io (Unit {0})
unfolding linger_loop
linger sender timeout w =
    (deadline_after timeout >>= λ d. linger_loop (suc (length w.inbox)) sender timeout d) w
