-- ===== src/Examples/Reporters.antt =====
-- The reporters with a stand-in for JSON and for floating-point numbers, and the send command.
use udpcp.Base.{
  ℕ, ◌*◌, ◌/◌, ◌≤◌, ◌<◌, suc, ◌≡◌, refl, ◌⊎◌, max, List, [], ◌∷◌, Option, none, some, true, false,
  length, arith,
}
use udpcp.Error.{Result, ok, IoError, invalid_input, bad_chunk_size}
use udpcp.Report.{SocketAddr, TransferEvent, completed}
use udpcp.Report.Texts.{Texts}
use udpcp.Io.{raised, pure, ◌>>◌}
use udpcp.Protocol.{one_second}
use udpcp.JsonlReporter.{Json, JsonlReporter}
use udpcp.JsonlReporter
use udpcp.JsonlReporter.Lines.{print_lines}
use udpcp.JsonlReporter.Throttle.{changes, progress_events, progress_lines_bound}
use udpcp.TextReporter.{Floats, TextReporter, Screen}
use udpcp.TextReporter
use udpcp.TextReporter.Bar.{IsTidy, at_line_start, report_all-IsTidy}
use udpcp.Send.Delay.{send_delay}
use udpcp.Send.Delay.Bounds.{IsRate, send_delay_lem}
use udpcp.Send.Run.{run_send}
use udpcp.Recv.Run.{finished}
use udpcp.Cli.{send, send_args_default, run}
use udpcp.Cli.Dispatch.{IsSendable, configured, run-send}
use udpcp.Examples.Toy.{toy_sha, peer, no_files, world}

abbrev braces : Json (Unit {0})
braces = record {
  text = λ t. tt;
  unsigned = λ n. tt;
  signed = λ n. tt;
  object = λ fields. tt;
  print = λ v. b'{' ∷ b'}' ∷ [];
  print_one_line = λ v. (refl, (refl, tt));
}

abbrev stars : Texts
stars = record {
  number = λ n. b'*' ∷ [];
  addr = λ a. b'*' ∷ [];
  path = λ p. p;
  init_reason = λ e. b'*' ∷ [];
  reason = λ e. b'*' ∷ [];
}

abbrev whole_numbers : Floats ℕ
whole_numbers = record {
  of_nat = λ n. n;
  seconds = λ t. t / one_second;
  milli = 1;
  mul = ◌*◌;
  div = ◌/◌;
  max = max;
  to_usize = λ n. n;
  fixed = λ width precision n. b'*' ∷ [];
}

abbrev halves : List (ℕ × ℕ)
halves = (1, 10) ∷ (1, 20) ∷ (2, 30) ∷ []

abbrev some_events : List TransferEvent
some_events = TransferEvent.progress 1 2 1400 10 ∷ completed ∷ []

progress_lines_bound_example :
    ((JsonlReporter.report_all braces stars
        (JsonlReporter.new true)
        (progress_events 2 1400 halves)).0
      ≡ print_lines braces stars (changes braces stars 2 none halves))
    × (length (changes braces stars 2 none halves) ≤ 101)
progress_lines_bound_example =
    progress_lines_bound braces stars true 2 1400 halves (omega arith) (omega arith)

blank_IsTidy :
    IsTidy (record { progress = true; bar_active = false }) (record { out = []; err = [] })
unfolding at_line_start
blank_IsTidy = record { out_fresh = λ _. refl; err_fresh = refl }

report_all-IsTidy_example :
    let (r, c) =
      TextReporter.report_all whole_numbers stars some_events
        (record { progress = true; bar_active = false }, record { out = []; err = [] }) in
    IsTidy r c
report_all-IsTidy_example =
    report_all-IsTidy whole_numbers stars some_events
      (record { progress = true; bar_active = false }) (record { out = []; err = [] }) blank_IsTidy

send_delay_lem_example :
    ((◌≡◌ {A = ℕ} 512 0) × (send_delay 512 1400 ≡ some none))
    ⊎ ((0 < 512)
        × ((n : ℕ) × (d : ℕ) × (send_delay 512 1400 ≡ some (some d))
            × IsRate 512 1400 n
            × (n * d ≤ one_second)
            × (one_second < n * suc d)))
send_delay_lem_example = send_delay_lem 512 1400 (omega arith)

abbrev resolved : List ℕ → Result (List SocketAddr) IoError
resolved target = ok (peer ∷ [])

run-send_example :
    (IsSendable send_args_default
      × ((delay : Option ℕ) × (send_delay 512 1400 ≡ some delay)
          × (run toy_sha
                (λ w. 0)
                resolved
                (send (b'f' ∷ []) [] send_args_default)
                (world no_files [])
              ≡ (run_send toy_sha (configured send_args_default delay) (b'f' ∷ []) (ok (peer ∷ []))
                    >> pure finished)
                  (world no_files []))))
    ⊎ ((¬ IsSendable send_args_default)
        × ((limit : ℕ) × (run toy_sha
                (λ w. 0)
                resolved
                (send (b'f' ∷ []) [] send_args_default)
                (world no_files [])
              ≡ (
                raised (record { kind = invalid_input; reason = bad_chunk_size limit }),
                world no_files [],
              ))))
run-send_example =
    run-send toy_sha (λ w. 0) resolved (b'f' ∷ []) [] send_args_default (world no_files [])
