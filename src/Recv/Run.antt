-- ===== src/Recv/Run.antt =====
-- `run_receive` of lib/recv.rs: the receiver of the command line, which a signal may end.
use udpcp.Base.{ℕ, Option, if◌then◌else◌, ◌==◌}
use udpcp.Io.{World, returned, Io, pure, ◌>>=◌, ◌>>◌, attempt, or_raise, bind_socket, syscall}
use udpcp.Io.Disk.{FilePath}
use udpcp.Protocol.{RecvConfig}
use udpcp.Protocol.Hashing.{Sha256}
use udpcp.Recv.Loop.{receive_loop}

-- `emulate_default_handler` ends the process for the two signals that are caught.
pub data Ended : Type 0 where
  finished : Ended
  killed : ℕ → Ended

-- The signals are registered and the thread that waits for one is started. What the thread does, the
-- shutdown of the socket, shows as a failure of `recv_from`.
unfoldable pub install_shutdown_handler : Io (Unit {0})
unfolding syscall
install_shutdown_handler = syscall (λ w. (tt, w))

-- `signal` is what `SHUTDOWN_SIGNAL` holds, as the environment decides; 0 for none.
module _ (sha : Sha256) (signal : World → ℕ) where
  unfoldable pub reraise : Io Ended → Io Ended
  reraise result w = if signal w == 0 then result w else (returned (killed (signal w)), w)

  unfoldable pub run_receive : Option FilePath → RecvConfig → Io Ended
  run_receive out cfg = do
    bind_socket
    install_shutdown_handler
    result ← attempt (receive_loop sha out cfg)
    reraise (or_raise result >> pure finished)
