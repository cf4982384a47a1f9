-- ===== src/Recv/Gaps/Batches.antt =====
-- The batches of `emit_nacks`.
use udpcp.Base.{
  ℕ, zero, suc, ◌≤◌, ◌<◌, ◌≡◌, refl, List, [], ◌∷◌, ◌++◌, length, drop, All, arith,
  take-append-drop, length-take, length-drop,
}
use udpcp.Recv.Gaps.{chunks, chunks_fuel}

-- All the lists of a list, one after another.
unfoldable pub flatten : List (List ℕ) → List ℕ
flatten [] = []
flatten (b ∷ bs) = b ++ flatten bs

-- A batch is not empty and has at most `k` numbers.
abbrev pub IsBatch : ℕ → List ℕ → Type 0
IsBatch k b = (0 < length b) × (length b ≤ k)

chunks_fuel_lem :
    (fuel k : ℕ) (xs : List ℕ)
    → 0 < k
    → length xs ≤ fuel
    → (flatten (chunks_fuel fuel k xs) ≡ xs) × All (IsBatch k) (chunks_fuel fuel k xs)
unfolding chunks_fuel flatten
chunks_fuel_lem fuel k [] h p = (refl, tt)
chunks_fuel_lem zero k (x ∷ xs) h p = absurd (omega arith)
chunks_fuel_lem (suc fuel) k (x ∷ xs) h p =
    let (e, a) =
      chunks_fuel_lem fuel k (drop k (x ∷ xs)) h (omega (arith, length-drop k (x ∷ xs))) in
    (
      rw e (take-append-drop k (x ∷ xs)),
      ((omega (arith, length-take k (x ∷ xs)), omega (arith, length-take k (x ∷ xs))), a),
    )

-- For a positive `k` the batches of `emit_nacks` are together the whole list in its order, and each
-- of them has at least one number and at most `k`.
pub chunks_lem :
    (k : ℕ) (xs : List ℕ) → 0 < k → (flatten (chunks k xs) ≡ xs) × All (IsBatch k) (chunks k xs)
unfolding chunks
chunks_lem k xs h = chunks_fuel_lem (length xs) k xs h (omega arith)
