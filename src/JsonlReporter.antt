-- ===== src/JsonlReporter.antt =====
-- jsonl_reporter.rs: one JSON object per line for an event. The JSON values and their printing are
-- those of the serde_json crate, a parameter.
pub mod Lines
pub mod Throttle
use udpcp.Base.{
  ℕ, ◌*◌, ◌/◌, ◌%◌, ◌-◌, ◌≡◌, List, [], ◌∷◌, ◌++◌, Option, none, some, Bool, true, false, not, ◌||◌,
  ◌==◌, if◌then◌else◌, All, u32_mod, u64_mod,
}
use udpcp.Base.Text.{bytes, newline}
use udpcp.Report.{
  TransferEvent, sending, pass_started, completed, listening, receiving, missing_chunks, saved,
  bad_init, failed,
}
use udpcp.Report.Texts.{Texts}
use udpcp.Protocol.{one_milli}

-- A value is printed without a line break: serde_json escapes control characters in its compact
-- form.
pub record Json {ℓ} (Value : Type ℓ) : Type ℓ where
  pub text : List ℕ → Value
  pub unsigned : ℕ → Value
  -- of a 32-bit word in two's complement
  pub signed : ℕ → Value
  pub object : List (List ℕ × Value) → Value
  pub print : Value → List ℕ
  pub print_one_line : (v : Value) → All (λ b. (b == newline) ≡ false) (print v)

-- `last_pct` is the word of an `i32`.
pub record JsonlReporter : Type 0 where
  pub progress : Bool
  pub last_pct : ℕ

-- `-1`
abbrev pub no_pct : ℕ
no_pct = u32_mod - 1

unfoldable pub new : Bool → JsonlReporter
new progress = record { progress = progress; last_pct = no_pct }

-- `(done as u64 * 100 / total as u64) as i32`
unfoldable pub percent : ℕ → ℕ → ℕ
percent done total = (done * 100 / total) % u32_mod

-- `elapsed.as_millis() as u64`
unfoldable pub millis : ℕ → ℕ
millis elapsed = (elapsed / one_milli) % u64_mod

module _ {ℓ} {Value : Type ℓ} (json : Json Value) (texts : Texts) where
  open json use {text, unsigned, signed, object, print}

  -- The throttle: a line for each change of the whole percentage.
  unfoldable pub progress_value : JsonlReporter → ℕ → ℕ → ℕ → Option Value × JsonlReporter
  unfolding percent millis
  progress_value r done total elapsed =
      if not r.progress || total == 0
      then (none, r)
      else (let pct = percent done total in
          if r.last_pct == pct then (none, record r { last_pct = pct }) else (
            some (
                object (
                  (bytes "event", text (bytes "progress"))
                  ∷ (bytes "done", unsigned done)
                  ∷ (bytes "total", unsigned total)
                  ∷ (bytes "pct", signed pct)
                  ∷ (bytes "elapsed_ms", unsigned (millis elapsed))
                  ∷ [])),
            record r { last_pct = pct },
          ))

  -- The lines that `--progress` asks for.
  if_progress : JsonlReporter → Value → Option Value × JsonlReporter
  if_progress r v = (if r.progress then some v else none, r)

  unfoldable pub event_value : JsonlReporter → TransferEvent → Option Value × JsonlReporter
  unfolding if_progress millis
  event_value r (sending name n chunks) = (
    some (
        object (
          (bytes "event", text (bytes "sending"))
          ∷ (bytes "name", text name)
          ∷ (bytes "bytes", unsigned n)
          ∷ (bytes "chunks", unsigned chunks)
          ∷ [])),
    record r { last_pct = no_pct },
  )
  event_value r (pass_started pass chunks) = if_progress r (
      object (
        (bytes "event", text (bytes "pass"))
        ∷ (bytes "pass", unsigned pass)
        ∷ (bytes "chunks", unsigned chunks)
        ∷ []))
  event_value r (TransferEvent.progress done total chunk_size elapsed) =
      progress_value r done total elapsed
  event_value r completed = (some (object ((bytes "event", text (bytes "completed")) ∷ [])), r)
  event_value r (listening addr) = (
    some (
        object (
          (bytes "event", text (bytes "listening")) ∷ (bytes "addr", text (texts.addr addr)) ∷ [])),
    r,
  )
  event_value r (receiving path n chunks chunk_size) = (
    some (
        object (
          (bytes "event", text (bytes "receiving"))
          ∷ (bytes "path", text (texts.path path))
          ∷ (bytes "bytes", unsigned n)
          ∷ (bytes "chunks", unsigned chunks)
          ∷ (bytes "chunk_size", unsigned chunk_size)
          ∷ [])),
    record r { last_pct = no_pct },
  )
  event_value r (missing_chunks count) =
      if_progress r
        (object ((bytes "event", text (bytes "missing")) ∷ (bytes "count", unsigned count) ∷ []))
  event_value r (saved path n elapsed) = (
    some (
        object (
          (bytes "event", text (bytes "saved"))
          ∷ (bytes "path", text (texts.path path))
          ∷ (bytes "bytes", unsigned n)
          ∷ (bytes "elapsed_ms", unsigned (millis elapsed))
          ∷ [])),
    r,
  )
  event_value r (bad_init reason) = (
    some (
        object (
          (bytes "event", text (bytes "bad_init"))
          ∷ (bytes "reason", text (texts.init_reason reason))
          ∷ [])),
    r,
  )
  event_value r (failed error) = (
    some (
        object (
          (bytes "event", text (bytes "failed"))
          ∷ (bytes "reason", text (texts.reason error))
          ∷ [])),
    r,
  )

  written : Option Value → List ℕ
  written none = []
  written (some v) = print v ++ newline ∷ []

  -- What is written to stdout for one event.
  unfoldable pub render : JsonlReporter → TransferEvent → List ℕ × JsonlReporter
  unfolding written
  render r e = let (v, r') = event_value r e in (written v, r')

  -- `report` for the events of a transfer, one after another.
  unfoldable pub report_all : JsonlReporter → List TransferEvent → List ℕ × JsonlReporter
  report_all r [] = ([], r)
  report_all r (e ∷ es) =
      let (out, r') = render r e in let (outs, r'') = report_all r' es in (out ++ outs, r'')
