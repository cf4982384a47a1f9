-- ===== src/Io.antt =====
-- The world that the program runs in, and its calls of the standard library as actions on it.
-- What the environment decides is given in advance: how far the clock moves at each reading, what
-- each `recv_from` returns, which calls fail, and how short each `read` is. What the program does
-- to the outside is kept: the datagrams sent, the events reported and the files.
pub mod Disk
pub mod FileOps
pub mod Quiet
pub mod Clock
pub mod Reads
pub mod Moves
pub mod Runs
pub mod Leaves
use udpcp.Base.{
  ℕ, suc, ◌+◌, List, [], ◌∷◌, ◌++◌, Option, none, some, Bool, true, false, if◌then◌else◌, ◌==◌, ltb,
}
use udpcp.Error.{ErrorKind, would_block, invalid_input, os, IoError, Result, ok, err}
use udpcp.Report.{SocketAddr, TransferEvent}
use Disk.{Files}

-- One return of `recv_from`, after a wait.
pub data Arrival : Type 0 where
  datagram : List ℕ → SocketAddr → Arrival
  failure : IoError → Arrival

pub record World : Type 0 where
  pub clock : ℕ
  -- The first instant that the platform cannot represent.
  pub instant_end : ℕ
  pub ticks : List ℕ
  pub inbox : List (ℕ × Arrival)
  pub faults : List (Option IoError)
  pub reads : List ℕ
  pub files : Files
  pub read_timeout : Option ℕ
  pub nonblocking : Bool
  pub local_addr : SocketAddr
  pub sent : List (SocketAddr × List ℕ)
  pub events : List TransferEvent

-- Why the code panics: an `Instant + Duration` past the last instant; or an index or a slice out of
-- range, or a division by zero.
pub data Panic : Type 0 where
  instant_overflow out_of_range : Panic

-- How a call ends. `waiting` is a `recv_from` that has not returned when the given inbox is used
-- up; `exhausted` is no behaviour of the program, but a loop whose fuel was too small.
pub data Outcome {ℓ} (A : Type ℓ) : Type ℓ where
  returned : A → Outcome A
  raised : IoError → Outcome A
  panicked : Panic → Outcome A
  waiting exhausted : Outcome A

abbrev pub Io {ℓ} : Type ℓ → Type ℓ
Io A = World → Outcome A × World

module _ {ℓ κ} {A : Type ℓ} {B : Type κ} where
  abbrev pub continue : Outcome A → (A → Io B) → Io B
  continue (returned a) f w = f a w
  continue (raised e) f w = (raised e, w)
  continue (panicked why) f w = (panicked why, w)
  continue waiting f w = (waiting, w)
  continue exhausted f w = (exhausted, w)

infixl 10 ◌>>=◌ ◌>>◌
abbrev pub ◌>>=◌ {ℓ κ} : {A : Type ℓ} {B : Type κ} → Io A → (A → Io B) → Io B
◌>>=◌ m f w = let (o, w') = m w in continue o f w'

abbrev pub ◌>>◌ {ℓ κ} : {A : Type ℓ} {B : Type κ} → Io A → Io B → Io B
m >> n = m >>= λ _. n

module _ {ℓ} {A : Type ℓ} where
  abbrev pub pure : A → Io A
  pure a w = (returned a, w)

  abbrev pub raise : IoError → Io A
  raise e w = (raised e, w)

  abbrev pub panic : Io A
  panic w = (panicked out_of_range, w)

  abbrev pub out_of_fuel : Io A
  out_of_fuel w = (exhausted, w)

  -- An index out of bounds, a slice out of range.
  abbrev pub or_panic : Option A → Io A
  or_panic none = panic
  or_panic (some a) = pure a

  abbrev pub or_raise : Result A IoError → Io A
  or_raise (ok a) = pure a
  or_raise (err e) = raise e

  abbrev caught : Outcome A → World → Outcome (Result A IoError) × World
  caught (returned a) w = (returned (ok a), w)
  caught (raised e) w = (returned (err e), w)
  caught (panicked why) w = (panicked why, w)
  caught waiting w = (waiting, w)
  caught exhausted w = (exhausted, w)

  -- The `io::Result` of a call as a value, for a `match` on it.
  abbrev pub attempt : Io A → Io (Result A IoError)
  attempt m w = let (o, w') = m w in caught o w'

-- `let _ = m;`
abbrev pub ignore {ℓ} : {A : Type ℓ} → Io A → Io (Unit {0})
ignore m = attempt m >>= λ _. pure tt

module _ {ℓ} {A : Type ℓ} (effect : World → A × World) where
  abbrev syscall_at : List (Option IoError) → World → Outcome A × World
  syscall_at [] w = let (a, w') = effect w in (returned a, w')
  syscall_at (none ∷ r) w = let (a, w') = effect (record w { faults = r }) in (returned a, w')
  syscall_at (some e ∷ r) w = (raised e, record w { faults = r })

  -- A call that takes effect or fails, as the environment decides.
  unfoldable pub syscall : Io A
  syscall w = syscall_at w.faults w

abbrev now_at : List ℕ → World → Outcome ℕ × World
now_at [] w = (returned w.clock, w)
now_at (t ∷ r) w = (returned (w.clock + t), record w { clock = w.clock + t; ticks = r })

-- `Instant::now()`: the clock never goes back.
unfoldable pub now : Io ℕ
now w = now_at w.ticks w

-- `Instant + Duration` panics where the sum cannot be represented.
unfoldable pub instant_add : ℕ → ℕ → Io ℕ
instant_add t d w =
    if ltb (t + d) w.instant_end then (returned (t + d), w) else (panicked instant_overflow, w)

-- `Instant::now() + d`
unfoldable pub deadline_after : ℕ → Io ℕ
deadline_after d = now >>= λ t. instant_add t d

abbrev recv_at : List (ℕ × Arrival) → World → Outcome (List ℕ × SocketAddr) × World
recv_at [] w =
    if w.nonblocking
    then (raised (record { kind = would_block; reason = os 11 }), w)
    else (waiting, w)
recv_at ((t, datagram d from) ∷ r) w =
    (returned (d, from), record w { inbox = r; clock = w.clock + t })
recv_at ((t, failure e) ∷ r) w = (raised e, record w { inbox = r; clock = w.clock + t })

-- `recv_from` with the datagram as its value: the bytes `buf[..n]`.
unfoldable pub recv_from : Io (List ℕ × SocketAddr)
recv_from w = recv_at w.inbox w

unfoldable pub send_to : SocketAddr → List ℕ → Io (Unit {0})
unfolding syscall
send_to addr d = syscall (λ w. (tt, record w { sent = w.sent ++ (addr, d) ∷ [] }))

-- The standard library refuses a timeout of zero.
unfoldable pub set_read_timeout : Option ℕ → Io (Unit {0})
unfolding syscall
set_read_timeout none = syscall (λ w. (tt, record w { read_timeout = none }))
set_read_timeout (some d) =
    if d == 0
    then raise (record { kind = invalid_input; reason = os 22 })
    else syscall (λ w. (tt, record w { read_timeout = some d }))

unfoldable pub set_nonblocking : Bool → Io (Unit {0})
unfolding syscall
set_nonblocking b = syscall (λ w. (tt, record w { nonblocking = b }))

unfoldable pub local_addr : Io SocketAddr
unfolding syscall
local_addr = syscall (λ w. (w.local_addr, w))

-- `UdpSocket::bind`
unfoldable pub bind_socket : Io (Unit {0})
unfolding syscall
bind_socket = syscall (λ w. (tt, w))

-- `reporter.report(event)`: the reporter's own output is its business.
unfoldable pub report : TransferEvent → Io (Unit {0})
report e w = (returned tt, record w { events = w.events ++ e ∷ [] })

-- `thread::sleep`
unfoldable pub sleep : ℕ → Io (Unit {0})
sleep d w = (returned tt, record w { clock = w.clock + d })
