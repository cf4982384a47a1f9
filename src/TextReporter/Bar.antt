-- ===== src/TextReporter/Bar.antt =====
-- The progress bar and the status lines share the terminal: a status line starts on a fresh line.
use udpcp.Base.{
  ℕ, ◌≤◌, ◌-◌, ◌≡◌, refl, List, [], ◌∷◌, ◌++◌, Bool, true, false, not, ◌||◌, ◌==◌, inl, inr, length,
  length-append, length-replicate, replicate, Bool-cases, arith,
}
use udpcp.Base.Text.{newline}
use udpcp.Report.{
  TransferEvent, sending, pass_started, completed, listening, receiving, missing_chunks, saved,
  bad_init, failed,
}
use udpcp.Report.Texts.{Texts}
use udpcp.TextReporter.{
  Floats, TextReporter, Screen, write_out, writeln_out, writeln_err, bar_of, bar_text,
  draw_progress_bar, close_bar, status, render, report_all, progress_bar_width,
}

-- The next byte is the first of its line.
unfoldable pub at_line_start : List ℕ → Bool
at_line_start [] = true
at_line_start (b ∷ []) = b == newline
at_line_start (b ∷ c ∷ r) = at_line_start (c ∷ r)

at_line_start-line : (d e : List ℕ) → at_line_start (d ++ (e ++ newline ∷ [])) ≡ true
unfolding at_line_start
at_line_start-line [] [] = refl
at_line_start-line [] (x ∷ []) = refl
at_line_start-line [] (x ∷ y ∷ e) = at_line_start-line [] (y ∷ e)
at_line_start-line (x ∷ []) [] = refl
at_line_start-line (x ∷ []) (y ∷ e) = at_line_start-line [] (y ∷ e)
at_line_start-line (x ∷ y ∷ d) e = at_line_start-line (y ∷ d) e

-- While no bar is pending, stdout stands at the start of a line; stderr always does.
pub record IsTidy (r : TextReporter) (c : Screen) : Type 0 where
  pub out_fresh : r.bar_active ≡ false → at_line_start c.out ≡ true
  pub err_fresh : at_line_start c.err ≡ true

-- The bar is as wide as the constant says, for any number of filled places that fits.
pub length-bar_of :
    (filled : ℕ) → filled ≤ progress_bar_width → length (bar_of filled) ≡ progress_bar_width
unfolding bar_of
length-bar_of filled h = omega (
  arith,
  length-append (replicate {A = ℕ} filled b'#') (replicate (progress_bar_width - filled) b'.'),
  length-replicate {A = ℕ} filled b'#',
  length-replicate {A = ℕ} (progress_bar_width - filled) b'.',
)

-- Both streams at the start of a line.
abbrev IsFresh : Screen → Type 0
IsFresh c = (at_line_start c.out ≡ true) × (at_line_start c.err ≡ true)

writeln_out-IsFresh : (d : List ℕ) (c : Screen) → IsFresh c → IsFresh (writeln_out d c)
unfolding writeln_out write_out
writeln_out-IsFresh d c (a, b) = (at_line_start-line c.out d, b)

writeln_err-IsFresh : (d : List ℕ) (c : Screen) → IsFresh c → IsFresh (writeln_err d c)
unfolding writeln_err
writeln_err-IsFresh d c (a, b) = (a, at_line_start-line c.err d)

module _ {ℓ} {F : Type ℓ} (floats : Floats F) (texts : Texts) where
  status-IsFresh :
      (progress : Bool) (e : TransferEvent) (c : Screen)
      → IsFresh c
      → IsFresh (status floats texts progress e c)
  unfolding status
  status-IsFresh p (sending name n chunks) c h = writeln_out-IsFresh _ c h
  status-IsFresh true (pass_started pass chunks) c h = writeln_out-IsFresh _ c h
  status-IsFresh false (pass_started pass chunks) c h = h
  status-IsFresh p (TransferEvent.progress done total chunk_size elapsed) c h = h
  status-IsFresh p completed c h = writeln_out-IsFresh _ c h
  status-IsFresh p (listening addr) c h = writeln_out-IsFresh _ c h
  status-IsFresh p (receiving path n chunks chunk_size) c h = writeln_out-IsFresh _ c h
  status-IsFresh true (missing_chunks count) c h = writeln_out-IsFresh _ c h
  status-IsFresh false (missing_chunks count) c h = h
  status-IsFresh p (saved path n elapsed) c h = writeln_out-IsFresh _ c h
  status-IsFresh p (bad_init reason) c h = writeln_err-IsFresh _ c h
  status-IsFresh p (failed error) c h = writeln_err-IsFresh _ c h

  close_bar-IsFresh :
      (r : TextReporter) (c : Screen) → IsTidy r c → IsFresh (close_bar floats texts (r, c)).1
  unfolding close_bar writeln_out write_out
  close_bar-IsFresh r c t = elim (Bool-cases r.bar_active) [
    | inl y ↦ rw y (at_line_start-line c.out [], t.err_fresh)
    | inr n ↦ rw n (t.out_fresh n, t.err_fresh)
  ]

  drawn :
      (done total chunk_size elapsed : ℕ) (r : TextReporter) (c : Screen)
      → IsTidy r c
      → IsTidy
          (record r { bar_active = true })
          (write_out (bar_text floats texts done total chunk_size elapsed) c)
  unfolding write_out
  drawn done total chunk_size elapsed r c t = record {
    out_fresh = λ e. cc;
    err_fresh = t.err_fresh;
  }

  closed :
      (e : TransferEvent) (r : TextReporter) (c : Screen)
      → IsTidy r c
      → IsTidy
          (record r { bar_active = false })
          (status floats texts r.progress e (close_bar floats texts (r, c)).1)
  closed e r c t =
      let (a, b) = status-IsFresh r.progress e _ (close_bar-IsFresh r c t) in
      record { out_fresh = λ _. a; err_fresh = b }

  render-IsTidy :
      (e : TransferEvent) (r : TextReporter) (c : Screen)
      → IsTidy r c
      → let (r', c') = render floats texts e (r, c) in IsTidy r' c'
  unfolding render draw_progress_bar close_bar
  render-IsTidy (TransferEvent.progress done total chunk_size elapsed) r c t =
      elim (Bool-cases (not r.progress || total == 0)) [
        | inl hidden ↦ rw hidden t
        | inr shown ↦ rw shown (drawn done total chunk_size elapsed r c t)
      ]
  render-IsTidy (sending name n chunks) r c t = closed (sending name n chunks) r c t
  render-IsTidy (pass_started pass chunks) r c t = closed (pass_started pass chunks) r c t
  render-IsTidy completed r c t = closed completed r c t
  render-IsTidy (listening addr) r c t = closed (listening addr) r c t
  render-IsTidy (receiving path n chunks chunk_size) r c t =
      closed (receiving path n chunks chunk_size) r c t
  render-IsTidy (missing_chunks count) r c t = closed (missing_chunks count) r c t
  render-IsTidy (saved path n elapsed) r c t = closed (saved path n elapsed) r c t
  render-IsTidy (bad_init reason) r c t = closed (bad_init reason) r c t
  render-IsTidy (failed error) r c t = closed (failed error) r c t

  -- For any events, `--progress` or not: from a fresh terminal, whenever no bar is pending stdout
  -- stands at the start of a line, and stderr always does.
  pub report_all-IsTidy :
      (es : List TransferEvent) (r : TextReporter) (c : Screen)
      → IsTidy r c
      → let (r', c') = report_all floats texts es (r, c) in IsTidy r' c'
  unfolding report_all
  report_all-IsTidy [] r c t = t
  report_all-IsTidy (e ∷ es) r c t =
      let (r', c') = render floats texts e (r, c) in
      report_all-IsTidy es r' c' (render-IsTidy e r c t)
