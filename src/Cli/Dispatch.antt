-- ===== src/Cli/Dispatch.antt =====
-- What the command line does before a transfer.
use udpcp.Base.{
  ℕ, ◌+◌, ◌≤◌, ◌<◌, ◌≡◌, refl, ◌⊎◌, inl, inr, List, Option, some, Bool, true, false, if◌then◌else◌,
}
use udpcp.Error.{Result, ok, err, IoError, invalid_input, bad_chunk_size}
use udpcp.Report.{SocketAddr}
use udpcp.Io.{World, raised, pure, ◌>>◌}
use udpcp.Io.Disk.{FilePath}
use udpcp.Protocol.{
  SendConfig, version1, version2, for_verify, validate_chunk_size, max_udp_payload,
}
use udpcp.Protocol.ChunkSize.{overhead, validate_chunk_size_iff}
use udpcp.Protocol.Hashing.{Sha256}
use udpcp.Recv.Run.{finished}
use udpcp.Send.Delay.{send_delay}
use udpcp.Send.Delay.Bounds.{send_delay-some}
use udpcp.Send.Run.{run_send}
use udpcp.Cli.{SendArgs, send, send_config, into_send_config, run}

-- A chunk of the size fits a datagram of the version.
abbrev pub IsSendable : SendArgs → Type 0
IsSendable args =
    (0 < args.chunk)
    × (args.chunk + overhead (if args.verify then version2 else version1) ≤ max_udp_payload)

-- The arguments as the sender's configuration, field by field.
abbrev pub configured : SendArgs → Option ℕ → SendConfig
configured args delay = record {
  chunk_size = args.chunk;
  delay = delay;
  version = if args.verify then version2 else version1;
  limits = record {
    handshake_attempts = args.handshake_attempts;
    retransmit_passes = args.retransmit_passes;
    retransmit_timeout = args.retransmit_timeout;
    nack_collection_timeout = args.nack_timeout;
  };
}

for_verify_if : (b : Bool) → for_verify b ≡ (if b then version2 else version1)
unfolding for_verify
for_verify_if true = refl
for_verify_if false = refl

module _ (sha : Sha256) (signal : World → ℕ)
    (resolve : List ℕ → Result (List SocketAddr) IoError) where
  run-send_at :
      (file : FilePath) (target : List ℕ) (args : SendArgs) (w : World) (r : Result (Unit {0}) ℕ)
      → validate_chunk_size args.chunk (for_verify args.verify) ≡ r
      → (IsSendable args
          × ((delay : Option ℕ) × (send_delay args.bw args.chunk ≡ some delay)
              × (run sha signal resolve (send file target args) w
                  ≡ (run_send sha (configured args delay) file (resolve target) >> pure finished)
                      w)))
        ⊎ ((¬ IsSendable args)
            × ((limit : ℕ) × (run sha signal resolve (send file target args) w
                  ≡ (raised (record { kind = invalid_input; reason = bad_chunk_size limit }), w))))
  unfolding run into_send_config send_config
  run-send_at file target args w (err limit) e = inr (
    λ h. cc (
      e,
      (validate_chunk_size_iff args.chunk (for_verify args.verify)).1
          (rw (for_verify_if args.verify) h),
    ),
    (limit, rw (e, run) refl),
  )
  run-send_at file target args w (ok tt) e =
      let fits = (validate_chunk_size_iff args.chunk (for_verify args.verify)).0 e in
      let (delay, p) = send_delay-some args.bw args.chunk fits.0 in
      inl (
        rw (for_verify_if args.verify) at fits,
        (delay, p, rw (e, p, run, into_send_config, send_config, for_verify_if args.verify) refl),
      )

  -- The send command checks the chunk size first. If a full packet of the version fits a datagram,
  -- the pause is computed without a panic and `run_send` is called with the arguments' chunk size
  -- and limits, that pause, and version 2 under `--verify` and 1 otherwise; if not, the command fails as invalid input, and nothing was sent, reported
  -- or written.
  pub run-send :
      (file : FilePath) (target : List ℕ) (args : SendArgs) (w : World)
      → (IsSendable args
          × ((delay : Option ℕ) × (send_delay args.bw args.chunk ≡ some delay)
              × (run sha signal resolve (send file target args) w
                  ≡ (run_send sha (configured args delay) file (resolve target) >> pure finished)
                      w)))
        ⊎ ((¬ IsSendable args)
            × ((limit : ℕ) × (run sha signal resolve (send file target args) w
                  ≡ (raised (record { kind = invalid_input; reason = bad_chunk_size limit }), w))))
  run-send file target args w =
      run-send_at file target args w (validate_chunk_size args.chunk (for_verify args.verify)) refl
