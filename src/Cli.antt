-- ===== src/Cli.antt =====
-- cli.rs and main.rs: the two commands, their defaults, and the exit. The arguments are those that
-- the clap and humantime crates have parsed.
pub mod Dispatch
use udpcp.Base.{ℕ, ◌*◌, List, [], Option, none, some, Bool, true, false, if◌then◌else◌}
use udpcp.Error.{Result, ok, err, IoError, invalid_input, bad_chunk_size}
use udpcp.Report.{SocketAddr, TransferEvent}
use udpcp.Io.{
  World, Outcome, returned, raised, panicked, waiting, exhausted, Io, pure, raise, ◌>>=◌, ◌>>◌,
  or_panic,
}
use udpcp.Io.Disk.{FilePath}
use udpcp.Protocol.{
  SendConfig, RecvConfig, SendLimits, RecvLimits, default_chunk_size, default_linger_seconds,
  send_limits_default, recv_limits_default, one_second, for_verify, validate_chunk_size,
}
use udpcp.Protocol.Hashing.{Sha256}
use udpcp.Recv.Run.{Ended, finished, killed, run_receive}
use udpcp.Send.Delay.{send_delay}
use udpcp.Send.Run.{run_send}
use udpcp.JsonlReporter
use udpcp.JsonlReporter.{JsonlReporter}
use udpcp.TextReporter
use udpcp.TextReporter.{TextReporter}

pub record SendArgs : Type 0 where
  pub bw : ℕ
  pub chunk : ℕ
  pub progress : Bool
  pub jsonl : Bool
  pub verify : Bool
  pub handshake_attempts : ℕ
  pub retransmit_passes : ℕ
  pub retransmit_timeout : ℕ
  pub nack_timeout : ℕ

abbrev pub send_args_default : SendArgs
send_args_default = record {
  bw = 512;
  chunk = default_chunk_size;
  progress = false;
  jsonl = false;
  verify = false;
  handshake_attempts = send_limits_default.handshake_attempts;
  retransmit_passes = send_limits_default.retransmit_passes;
  retransmit_timeout = send_limits_default.retransmit_timeout;
  nack_timeout = send_limits_default.nack_collection_timeout;
}

pub record RecvArgs : Type 0 where
  pub progress : Bool
  pub jsonl : Bool
  pub serve : Bool
  pub linger : ℕ
  pub idle_timeout : ℕ
  pub nack_holdoff : ℕ

abbrev pub recv_args_default : RecvArgs
recv_args_default = record {
  progress = false;
  jsonl = false;
  serve = false;
  linger = default_linger_seconds * one_second;
  idle_timeout = recv_limits_default.idle_timeout;
  nack_holdoff = recv_limits_default.nack_holdoff;
}

-- The target is text, resolved by the system.
pub data Cmd : Type 0 where
  send : FilePath → List ℕ → SendArgs → Cmd
  recv : ℕ → Option FilePath → RecvArgs → Cmd

pub data Reporter : Type 0 where
  jsonl_reporter : JsonlReporter → Reporter
  text_reporter : TextReporter → Reporter

unfoldable pub make_reporter : Bool → Bool → Reporter
make_reporter jsonl progress =
    if jsonl
    then jsonl_reporter (JsonlReporter.new progress)
    else text_reporter (TextReporter.new progress)

unfoldable pub reporter_of : Cmd → Reporter
unfolding make_reporter
reporter_of (send file target args) = make_reporter args.jsonl args.progress
reporter_of (recv port outfile args) = make_reporter args.jsonl args.progress

pub send_config : SendArgs → Option ℕ → SendConfig
send_config args delay = record {
  chunk_size = args.chunk;
  delay = delay;
  version = for_verify args.verify;
  limits = record {
    handshake_attempts = args.handshake_attempts;
    retransmit_passes = args.retransmit_passes;
    retransmit_timeout = args.retransmit_timeout;
    nack_collection_timeout = args.nack_timeout;
  };
}

-- `SendArgs::into_config`, which panics where `send_delay` does.
unfoldable pub into_send_config : SendArgs → Io SendConfig
unfolding send_config
into_send_config args =
    or_panic (send_delay args.bw args.chunk) >>= λ delay. pure (send_config args delay)

-- `RecvArgs::into_config`
unfoldable pub into_recv_config : RecvArgs → RecvConfig
into_recv_config args = record {
  serve = args.serve;
  linger_timeout = args.linger;
  limits = record { idle_timeout = args.idle_timeout; nack_holdoff = args.nack_holdoff };
}

-- How the process ends: `error` prints the error and exits with code 1. A transfer that waits for
-- an arrival is still running.
pub data Exit : Type 0 where
  success : Exit
  error : IoError → Exit
  by_signal : ℕ → Exit
  panic_exit running : Exit

module _ (sha : Sha256) (signal : World → ℕ)
    (resolve : List ℕ → Result (List SocketAddr) IoError) where
  unfoldable pub run : Cmd → Io Ended
  run (send file target args) = elim (validate_chunk_size args.chunk (for_verify args.verify)) [
    | err limit ↦ raise (record { kind = invalid_input; reason = bad_chunk_size limit })
    | ok _ ↦
        into_send_config args >>= λ cfg. run_send sha cfg file (resolve target) >> pure finished
  ]
  run (recv port outfile args) = run_receive sha signal outfile (into_recv_config args)

  unfoldable pub exit_of : Outcome Ended → Exit
  exit_of (returned finished) = success
  exit_of (returned (killed n)) = by_signal n
  exit_of (raised e) = error e
  exit_of (panicked why) = panic_exit
  exit_of waiting = running
  exit_of exhausted = running

  unfoldable pub main : Cmd → World → Exit
  main cmd w = exit_of (run cmd w).0
