-- ===== src/Send/Blast/Turnover.antt =====
-- The queue of a blast as it starts, and as `send_pending` takes chunks from its front.
use udpcp.Base.{
  ℕ, zero, suc, ◌+◌, ◌≤◌, ◌<◌, ◌≡◌, sym, subst, ◌⊎◌, inl, inr, ◌↔◌, List, [], ◌∷◌, true, ◌==◌,
  ==_iff, In, arith, Bool-cases,
}
use native.Mathlib.Decide.{ℕ_discrete}
use udpcp.Send.Blast.{Blast, insert, remove, set_of, range_from, new}
use udpcp.Send.Blast.Queue.{IsDistinct, IsQueue}
use udpcp.Send.Chunks.{popped}

In-range_from : (k seq n : ℕ) → In k (range_from seq n) ↔ ((seq ≤ k) × (k < seq + n))
unfolding range_from
In-range_from k seq zero = (λ h. absurd h, λ (a, b). absurd (omega arith))
In-range_from k seq (suc n) =
    let (split, join) = In-range_from k (suc seq) n in
    (
      λ h. elim h [
        | inl e ↦ (omega (arith, e), omega (arith, e))
        | inr i ↦ let (a, b) = split i in (omega arith, omega arith)
      ],
      λ (a, b). elim (ℕ_discrete k seq) [
        | yes e ↦ inl e
        | no n ↦ inr (join (omega arith, omega arith))
      ],
    )

IsDistinct-range_from : (seq n : ℕ) → IsDistinct (range_from seq n)
unfolding range_from
IsDistinct-range_from seq zero = tt
IsDistinct-range_from seq (suc n) = (
  λ i. let (a, b) = (In-range_from seq (suc seq) n).0 i in absurd (omega arith),
  IsDistinct-range_from (suc seq) n,
)

set_of-In : (k : ℕ) (xs : List ℕ) → (set_of xs k ≡ true) ↔ In k xs
unfolding set_of insert
set_of-In k [] = (λ e. cc, λ h. absurd h)
set_of-In k (x ∷ xs) =
    let (there, back) = set_of-In k xs in
    (
      λ e. elim (Bool-cases (x == k)) [
        | inl t ↦ inl (sym ((==_iff x k).0 t))
        | inr n ↦ inr (there (ground arith))
      ],
      λ h. elim h [
        | inl e ↦ let q = (==_iff x k).1 (sym e) in ground arith
        | inr i ↦ let q = back i in ground arith
      ],
    )

-- The queue of a new blast is in order and holds every chunk of the file.
pub new-IsQueue : (n : ℕ) → IsQueue (new n) × ((k : ℕ) → In k (new n).pending ↔ (k < n))
unfolding new
new-IsQueue n = (
  record {
    set_right = λ k. set_of-In k (range_from 0 n);
    distinct = IsDistinct-range_from 0 n;
    exist = λ k i. let (a, b) = (In-range_from k 0 n).0 i in omega arith;
  },
  λ k.
      let (split, join) = In-range_from k 0 n in
      (λ i. let (a, b) = split i in omega arith, λ lt. join (omega arith, omega arith)),
)

-- Taking out the front of the queue keeps it in order and loses no other chunk.
popped-IsQueue :
    (b : Blast) (seq : ℕ) (rest : List ℕ)
    → IsQueue b
    → b.pending ≡ seq ∷ rest
    → IsQueue (popped b seq rest) × ((k : ℕ) → In k b.pending ↔ ((k ≡ seq) ⊎ In k rest))
unfolding popped remove
popped-IsQueue b seq rest v e = (
  record {
    set_right = λ k.
        let (there, back) = v.set_right k in
        let (split, join) = members k in
        (
          λ q. elim (split (there (ground arith))) [
            | inl same ↦ let t = (==_iff seq k).1 (sym same) in absurd (ground arith)
            | inr i ↦ i
          ],
          λ i.
              let q = back (join (inr i)) in
              elim (Bool-cases (seq == k)) [
                | inl t ↦
                    absurd (apart.0 (subst (λ (x : ℕ). In x rest) (sym ((==_iff seq k).0 t)) i))
                | inr n ↦ ground arith
              ],
        );
    distinct = apart.1;
    exist = λ k i. v.exist k ((members k).1 (inr i));
  },
  members,
)
  where
    apart : (In seq rest → ⊥) × IsDistinct rest
    apart = subst IsDistinct e v.distinct

    members : (k : ℕ) → In k b.pending ↔ ((k ≡ seq) ⊎ In k rest)
    members k = subst (λ (xs : List ℕ). In k b.pending ↔ In k xs) e (λ i. i, λ i. i)
