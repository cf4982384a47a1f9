-- ===== src/Send/Feedback/Ending.antt =====
-- `dedup` keeps each number once.
use udpcp.Base.{
  ℕ, ◌≡◌, refl, sym, inl, inr, ◌↔◌, List, [], ◌∷◌, Bool, false, arith, Bool-cases, false≢true, ap,
  ◌∙◌, ==_refl, In, ◌==◌, ==_iff,
}
use udpcp.Send.Blast.{insert}
use udpcp.Send.Blast.Queue.{IsDistinct}
use udpcp.Send.Feedback.{dedup_seen, dedup}

In-dedup_seen :
    (seen : ℕ → Bool) (seqs : List ℕ) (k : ℕ)
    → In k (dedup_seen seen seqs) ↔ (In k seqs × (seen k ≡ false))
unfolding dedup_seen insert
In-dedup_seen seen [] k = (λ h. absurd h, λ (a, b). absurd a)
In-dedup_seen seen (s ∷ seqs) k =
    let (split, join) = In-dedup_seen (insert s seen) seqs k in
    elim (Bool-cases (seen s)) [
      | inl t ↦ rw t (
        λ h. let (a, b) = split h in (inr a, ground arith),
        λ (a, b). elim a [
          | inl e ↦ absurd (false≢true (sym b ∙ ap seen e ∙ t))
          | inr i ↦ join (
            i,
            elim (Bool-cases (s == k)) [
              | inl y ↦ absurd (false≢true (sym b ∙ ap seen (sym ((==_iff s k).0 y)) ∙ t))
              | inr n ↦ ground arith
            ],
          )
        ],
      )
      | inr f ↦ rw f (
        λ h. elim h [
          | inl e ↦ (inl e, ap seen e ∙ f)
          | inr i ↦ let (a, b) = split i in (inr a, ground arith)
        ],
        λ (a, b). elim (Bool-cases (s == k)) [
          | inl y ↦ inl (sym ((==_iff s k).0 y))
          | inr n ↦ elim a [ inl e ↦ inl e | inr i ↦ inr (join (i, ground arith)) ]
        ],
      )
    ]

dedup_seen-IsDistinct : (seen : ℕ → Bool) (seqs : List ℕ) → IsDistinct (dedup_seen seen seqs)
unfolding dedup_seen insert
dedup_seen-IsDistinct seen [] = tt
dedup_seen-IsDistinct seen (s ∷ seqs) = elim (Bool-cases (seen s)) [
  | inl t ↦ rw t (dedup_seen-IsDistinct (insert s seen) seqs)
  | inr f ↦ rw f (
    λ i.
        let (a, b) = (In-dedup_seen (insert s seen) seqs s).0 i in
        let y = ==_refl s in absurd (ground arith),
    dedup_seen-IsDistinct (insert s seen) seqs,
  )
]

-- `dedup` keeps the same numbers and each of them once.
pub dedup-IsDistinct :
    (seqs : List ℕ) → IsDistinct (dedup seqs) × ((k : ℕ) → In k (dedup seqs) ↔ In k seqs)
unfolding dedup
dedup-IsDistinct seqs = (
  dedup_seen-IsDistinct (λ k. false) seqs,
  λ k.
      let (split, join) = In-dedup_seen (λ k. false) seqs k in
      (λ i. let (a, b) = split i in a, λ i. join (i, refl)),
)
