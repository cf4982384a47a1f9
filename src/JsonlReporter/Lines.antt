-- ===== src/JsonlReporter/Lines.antt =====
-- What the reporter writes for a sequence of events: a line for each of its JSON objects.
use udpcp.Base.{ℕ, ◌≡◌, refl, ap, ◌∙◌, List, [], ◌∷◌, ◌++◌, Option, none, some}
use udpcp.Base.Text.{newline}
use udpcp.Report.{TransferEvent}
use udpcp.Report.Texts.{Texts}
use udpcp.JsonlReporter.{JsonlReporter, Json, event_value, render, report_all, written}

abbrev prepend {ℓ} : {A : Type ℓ} → Option A → List A → List A
prepend none xs = xs
prepend (some x) xs = x ∷ xs

module _ {ℓ} {Value : Type ℓ} (json : Json Value) (texts : Texts) where
  open json use {print}

  -- The objects of the events.
  unfoldable pub values : JsonlReporter → List TransferEvent → List Value
  values r [] = []
  values r (e ∷ es) = let (v, r') = event_value json texts r e in prepend v (values r' es)

  -- One line for each object.
  abbrev pub print_lines : List Value → List ℕ
  print_lines [] = []
  print_lines (v ∷ vs) = (print v ++ newline ∷ []) ++ print_lines vs

  written-print_lines :
      (v : Option Value) (vs : List Value)
      → written json texts v ++ print_lines vs ≡ print_lines (prepend v vs)
  unfolding written
  written-print_lines none vs = refl
  written-print_lines (some v) vs = refl

  pub report_all-print_lines :
      (r : JsonlReporter) (es : List TransferEvent)
      → (report_all json texts r es).0 ≡ print_lines (values r es)
  unfolding report_all render values
  report_all-print_lines r [] = refl
  report_all-print_lines r (e ∷ es) =
      let (v, r') = event_value json texts r e in
      ap (◌++◌ (written json texts v)) (report_all-print_lines r' es)
      ∙ written-print_lines v (values r' es)
