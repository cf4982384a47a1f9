-- ===== src/Examples/Endings.antt =====
-- The missing chunks of a pass.
use udpcp.Base.{ℕ, ◌↔◌, [], ◌∷◌, In}
use udpcp.Send.Blast.Queue.{IsDistinct}
use udpcp.Send.Feedback.{dedup}
use udpcp.Send.Feedback.Ending.{dedup-IsDistinct}

dedup-IsDistinct_example :
    IsDistinct (dedup (3 ∷ 1 ∷ 3 ∷ []))
    × ((k : ℕ) → In k (dedup (3 ∷ 1 ∷ 3 ∷ [])) ↔ In k (3 ∷ 1 ∷ 3 ∷ []))
dedup-IsDistinct_example = dedup-IsDistinct (3 ∷ 1 ∷ 3 ∷ [])
