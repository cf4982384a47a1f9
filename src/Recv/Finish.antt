-- ===== src/Recv/Finish.antt =====
-- The end of a transfer in lib/recv.rs: the hash check, the rename, and what `drop` cleans up.
pub mod Safety
pub mod Keeping
pub mod Unwinding
use udpcp.Base.{ℕ, List, Option, none, some, ◌-◌, if◌then◌else◌, bytes_eq}
use udpcp.Error.{ok, err, invalid_data, hash_mismatch}
use udpcp.Report.{SocketAddr, saved}
use udpcp.Io.{
  World, Outcome, returned, raised, panicked, waiting, exhausted, Io, pure, raise, ◌>>=◌, ◌>>◌,
  attempt, ignore, now, report,
}
use udpcp.Io.FileOps.{sync_all, open_file, rename, remove_file}
use udpcp.Protocol.Hashing.{Sha256, file_hash}
use udpcp.Recv.State.{ReceiveState, full}
use udpcp.Recv.Gaps.{send_nacks}

pub data DoneOutcome : Type 0 where
  incomplete complete : DoneOutcome

-- `Drop` of the state, where there is one.
unfoldable pub drop_state : Option ReceiveState → Io (Unit {0})
drop_state none = pure tt
drop_state (some s) = ignore (remove_file s.tmp_path)

module _ {A : Type 0} where
  unwound : Option ReceiveState → Outcome A × World → Outcome A × World
  unwound state (returned a, w) = (returned a, w)
  unwound state (raised e, w) = (raised e, w)
  unwound state (panicked why, w) = (panicked why, (drop_state state w).1)
  unwound state (waiting, w) = (waiting, w)
  unwound state (exhausted, w) = (exhausted, w)

  -- A panic drops the state as it unwinds the stack.
  unfoldable pub unwinding : Option ReceiveState → Io A → Io A
  unfolding unwound
  unwinding state m w = unwound state (m w)

module _ (sha : Sha256) where
  -- The verified file is renamed into place.
  unfoldable pub publish : ReceiveState → Io (Unit {0})
  publish s = do
    rename s.tmp_path s.final_path
    t ← now
    report (saved s.final_path s.size (t - s.start))

  -- The hash decides.
  unfoldable pub checked : ReceiveState → List ℕ → Io (Unit {0})
  checked s got =
      if bytes_eq got s.hash
      then publish s
      else raise (record { kind = invalid_data; reason = hash_mismatch })

  unfoldable pub finalize : ReceiveState → Io (Unit {0})
  finalize s =
      sync_all s.tmp_path
      >> (open_file s.tmp_path >>= λ f. file_hash sha f >>= λ (got, _). checked s got)

  unfoldable pub flush : ReceiveState → Io (Unit {0})
  flush s = attempt (finalize s) >>= λ r. elim r [
    | ok u ↦ pure u
    | err e ↦ ignore (remove_file s.tmp_path) >> raise e
  ]

  unfoldable pub handle_done : ReceiveState → SocketAddr → Io DoneOutcome
  handle_done s addr =
      if full s then (flush s >> pure complete) else (send_nacks s addr >> pure incomplete)
