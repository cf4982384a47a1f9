-- ===== src/TextReporter.antt =====
-- text_reporter.rs: status lines and a progress bar for a terminal. Floating-point numbers and their
-- formatting are a parameter.
pub mod Bar
use udpcp.Base.{
  ℕ, ◌-◌, min, List, [], ◌∷◌, ◌++◌, Bool, true, false, not, ◌||◌, ◌==◌, if◌then◌else◌, replicate,
}
use udpcp.Base.Text.{bytes, newline}
use udpcp.Report.{
  TransferEvent, sending, pass_started, completed, listening, receiving, missing_chunks, saved,
  bad_init, failed,
}
use udpcp.Report.Texts.{Texts}

-- What the code does with `f64`. `fixed width precision` is the format `{:width.precision}`.
pub record Floats {ℓ} (F : Type ℓ) : Type ℓ where
  pub of_nat : ℕ → F
  pub seconds : ℕ → F
  pub milli : F
  pub mul : F → F → F
  pub div : F → F → F
  pub max : F → F → F
  pub to_usize : F → ℕ
  pub fixed : ℕ → ℕ → F → List ℕ

abbrev pub progress_bar_width : ℕ
progress_bar_width = 50

pub record TextReporter : Type 0 where
  pub progress : Bool
  pub bar_active : Bool

unfoldable pub new : Bool → TextReporter
new progress = record { progress = progress; bar_active = false }

-- What was written to stdout and to stderr.
pub record Screen : Type 0 where
  pub out : List ℕ
  pub err : List ℕ

unfoldable pub write_out : List ℕ → Screen → Screen
write_out d c = record c { out = c.out ++ d }

-- `writeln!`
unfoldable pub writeln_out : List ℕ → Screen → Screen
unfolding write_out
writeln_out d c = write_out (d ++ newline ∷ []) c

unfoldable pub writeln_err : List ℕ → Screen → Screen
writeln_err d c = record c { err = c.err ++ (d ++ newline ∷ []) }

-- The check mark in UTF-8, and a space.
abbrev check_mark : List ℕ
check_mark = 0xe2 ∷ 0x9c ∷ 0x93 ∷ 0x20 ∷ []

unfoldable pub bar_of : ℕ → List ℕ
bar_of filled = replicate filled b'#' ++ replicate (progress_bar_width - filled) b'.'

module _ {ℓ} {F : Type ℓ} (floats : Floats F) (texts : Texts) where
  open floats use {of_nat, seconds, milli, mul, div, max, to_usize, fixed}
  open texts use {number}

  percentage : ℕ → ℕ → F
  percentage done total = mul (div (of_nat done) (of_nat total)) (of_nat 100)

  unfoldable pub filled_of : ℕ → ℕ → ℕ
  unfolding percentage
  filled_of done total = min (to_usize (div (percentage done total) (of_nat 2))) progress_bar_width

  kib_per_s : ℕ → ℕ → ℕ → F
  kib_per_s done chunk_size elapsed =
      div (div (mul (of_nat done) (of_nat chunk_size)) (max (seconds elapsed) milli)) (of_nat 1024)

  mib_per_s : ℕ → ℕ → F
  mib_per_s n elapsed =
      div (div (div (of_nat n) (max (seconds elapsed) milli)) (of_nat 1024)) (of_nat 1024)

  -- The text of the bar, from the carriage return on.
  unfoldable pub bar_text : ℕ → ℕ → ℕ → ℕ → List ℕ
  unfolding kib_per_s percentage
  bar_text done total chunk_size elapsed =
      b'\r'
      ∷ b'['
      ∷ (bar_of (filled_of done total)
          ++ (bytes "] "
              ++ (fixed 5 1 (percentage done total)
                  ++ (bytes "%  "
                      ++ (number done
                          ++ (b'/'
                              ∷ (number total
                                  ++ (bytes "  "
                                      ++ (fixed 0 0 (kib_per_s done chunk_size elapsed)
                                          ++ bytes " KiB/s")))))))))

  unfoldable pub draw_progress_bar : ℕ → ℕ → ℕ → ℕ → TextReporter × Screen → TextReporter × Screen
  draw_progress_bar done total chunk_size elapsed (r, c) =
      if not r.progress || total == 0
      then (r, c)
      else (record r { bar_active = true }, write_out (bar_text done total chunk_size elapsed) c)

  -- A pending bar is closed.
  unfoldable pub close_bar : TextReporter × Screen → TextReporter × Screen
  close_bar (r, c) = (record r { bar_active = false }, if r.bar_active then writeln_out [] c else c)

  -- The line of an event other than progress.
  unfoldable pub status : Bool → TransferEvent → Screen → Screen
  unfolding mib_per_s
  status progress (sending name n chunks) c =
      writeln_out
        ((bytes "sending "
          ++ (name
              ++ (bytes "  "
                  ++ (number n ++ (bytes " bytes  " ++ (number chunks ++ bytes " chunks")))))))
        c
  status progress (pass_started pass chunks) c =
      if progress
      then writeln_out
          ((bytes "pass " ++ (number pass ++ (bytes "  " ++ (number chunks ++ bytes " chunks"))))) c
      else c
  status progress (TransferEvent.progress done total chunk_size elapsed) c = c
  status progress completed c = writeln_out (check_mark ++ bytes "transfer complete") c
  status progress (listening addr) c = writeln_out (bytes "listening on " ++ texts.addr addr) c
  status progress (receiving path n chunks chunk_size) c =
      writeln_out
        ((bytes "receiving "
          ++ (texts.path path
              ++ (bytes "  "
                  ++ (number n
                      ++ (bytes " bytes  "
                          ++ (number chunks ++ (bytes " chunks  chunk=" ++ number chunk_size))))))))
        c
  status progress (missing_chunks count) c =
      if progress then writeln_out (bytes "  " ++ (number count ++ bytes " missing")) c else c
  status progress (saved path n elapsed) c =
      writeln_out
        ((check_mark
          ++ (bytes "saved "
              ++ (texts.path path
                  ++ (bytes "  " ++ (fixed 0 2 (mib_per_s n elapsed) ++ bytes " MiB/s avg"))))))
        c
  status progress (bad_init reason) c =
      writeln_err ((bytes "bad init packet: " ++ texts.init_reason reason)) c
  status progress (failed error) c =
      writeln_err ((bytes "transfer failed: " ++ texts.reason error)) c

  closed_status : TransferEvent → TextReporter × Screen → TextReporter × Screen
  closed_status e (r, c) = (r, status r.progress e c)

  unfoldable pub render : TransferEvent → TextReporter × Screen → TextReporter × Screen
  unfolding closed_status
  render (TransferEvent.progress done total chunk_size elapsed) s =
      draw_progress_bar done total chunk_size elapsed s
  render e s = closed_status e (close_bar s)

  -- `report` for the events of a transfer, one after another.
  unfoldable pub report_all : List TransferEvent → TextReporter × Screen → TextReporter × Screen
  report_all [] s = s
  report_all (e ∷ es) s = report_all es (render e s)
