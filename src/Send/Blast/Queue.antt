-- ===== src/Send/Blast/Queue.antt =====
-- The queue of a blast: its list and its set agree, nothing is queued twice, and `enqueue` adds just
-- the chunks that exist.
use udpcp.Base.{
  ℕ, ◌≤◌, ◌<◌, ◌≡◌, refl, sym, ◌∙◌, ◌⊎◌, inl, inr, ◌↔◌, List, [], ◌∷◌, ◌++◌, true, false, ltb, ◌==◌,
  ==_iff, In, In-append, In-append_left, In-append_right, arith, Bool-cases, false≢true,
}
use udpcp.Send.Blast.{Blast, insert, chunk_exists, push_new, enqueue}

-- No number stands twice.
abbrev pub IsDistinct : List ℕ → Type 0
IsDistinct [] = Unit
IsDistinct (x ∷ xs) = (In x xs → ⊥) × IsDistinct xs

pub record IsQueue (b : Blast) : Type 0 where
  pub set_right : (k : ℕ) → (b.queued k ≡ true) ↔ In k b.pending
  pub distinct : IsDistinct b.pending
  pub exist : (k : ℕ) → In k b.pending → k < b.total_chunks

IsDistinct-snoc : (xs : List ℕ) (x : ℕ) → IsDistinct xs → (In x xs → ⊥) → IsDistinct (xs ++ x ∷ [])
IsDistinct-snoc [] x d n = (λ h. h, tt)
IsDistinct-snoc (y ∷ xs) x (ny, d) n = (
  λ h. elim (In-append y xs (x ∷ []) h) [
    | inl old ↦ ny old
    | inr (inl e) ↦ n (inl (sym e))
    | inr (inr none) ↦ none
  ],
  IsDistinct-snoc xs x d (λ h. n (inr h)),
)

-- What one number does to the queue.
abbrev PushCases : Blast → ℕ → Blast → Type 0
PushCases b seq c =
    ((c ≡ b) × ((b.total_chunks ≤ seq) ⊎ (b.queued seq ≡ true)))
    ⊎ ((seq < b.total_chunks)
        × (b.queued seq ≡ false)
        × (c ≡ record b { pending = b.pending ++ seq ∷ []; queued = insert seq b.queued }))

push_new-cases : (b : Blast) (seq : ℕ) → PushCases b seq (push_new b seq)
unfolding push_new chunk_exists
push_new-cases b seq = elim (Bool-cases (ltb seq b.total_chunks)) [
  | inr f ↦ rw f (inl (refl, inl (ground arith)))
  | inl t ↦ elim (Bool-cases (b.queued seq)) [
    | inl q ↦ inl (rw (t, q, push_new) refl, inr q)
    | inr q ↦ inr (ground arith, q, rw (t, q, push_new) refl)
  ]
]

-- The queue afterwards: the number is in it if the chunk exists, and what was in it still is.
record Grown (b : Blast) (added : ℕ → Type 0) (c : Blast) : Type 0 where
  queue : IsQueue c
  same_total : c.total_chunks ≡ b.total_chunks
  members : (k : ℕ) → In k c.pending ↔ (In k b.pending ⊎ ((k < b.total_chunks) × added k))

In-snoc : (k x : ℕ) (xs : List ℕ) → In k (xs ++ x ∷ []) ↔ (In k xs ⊎ (k ≡ x))
In-snoc k x xs = (
  λ h. elim (In-append k xs (x ∷ []) h) [
    | inl old ↦ inl old
    | inr (inl e) ↦ inr e
    | inr (inr none) ↦ absurd none
  ],
  λ h. elim h [
    | inl old ↦ In-append_left k xs (x ∷ []) old
    | inr e ↦ In-append_right k xs (x ∷ []) (inl e)
  ],
)

pushed-IsQueue :
    (b : Blast) (seq : ℕ)
    → IsQueue b
    → seq < b.total_chunks
    → b.queued seq ≡ false
    → IsQueue (record b { pending = b.pending ++ seq ∷ []; queued = insert seq b.queued })
unfolding insert
pushed-IsQueue b seq v h f = record {
  set_right = λ k.
      let (there, back) = v.set_right k in
      let (split, join) = In-snoc k seq b.pending in
      (
        λ e. join (elim (Bool-cases (seq == k)) [
          | inl t ↦ inr (sym ((==_iff seq k).0 t))
          | inr n ↦ inl (there (ground arith))
        ]),
        λ i. elim (split i) [
          | inl old ↦ let q = back old in ground arith
          | inr e ↦ let q = (==_iff seq k).1 (sym e) in ground arith
        ],
      );
  distinct =
      IsDistinct-snoc b.pending seq v.distinct (λ i. false≢true (sym f ∙ (v.set_right seq).1 i));
  exist = λ k i. elim ((In-snoc k seq b.pending).0 i) [
    | inl old ↦ v.exist k old
    | inr e ↦ omega (arith, e)
  ];
}

push_new-Grown : (b : Blast) (seq : ℕ) → IsQueue b → Grown b (λ k. k ≡ seq) (push_new b seq)
push_new-Grown b seq v = elim (push_new-cases b seq) [
  | inl (e, inl beyond) ↦ rw e (record {
    queue = v;
    same_total = refl;
    members =
        λ k. (λ i. inl i, λ s. elim s [ inl i ↦ i | inr (lt, q) ↦ absurd (omega (arith, q)) ]);
  })
  | inl (e, inr known) ↦ rw e (record {
    queue = v;
    same_total = refl;
    members =
        λ k. (λ i. inl i, λ s. elim s [ inl i ↦ i | inr (lt, q) ↦ (v.set_right k).0 (rw q known) ]);
  })
  | inr (h, f, e) ↦ rw e (record {
    queue = pushed-IsQueue b seq v h f;
    same_total = refl;
    members = λ k.
        let (split, join) = In-snoc k seq b.pending in
        (
          λ i. elim (split i) [ inl old ↦ inl old | inr q ↦ inr (omega (arith, q), q) ],
          λ s. elim s [ inl old ↦ join (inl old) | inr (lt, q) ↦ join (inr q) ],
        );
  })
]

-- Whatever the numbers, `enqueue` keeps a queue in order: its set and its list agree, nothing is
-- queued twice, and only chunks that exist are queued. Afterwards it holds what it held and those of
-- the numbers that are chunks of the file, and nothing else.
pub enqueue-IsQueue :
    (b : Blast) (missing : List ℕ)
    → IsQueue b
    → IsQueue (enqueue b missing)
      × ((enqueue b missing).total_chunks ≡ b.total_chunks)
      × ((k : ℕ)
          → In k (enqueue b missing).pending
            ↔ (In k b.pending ⊎ ((k < b.total_chunks) × In k missing)))
unfolding enqueue
enqueue-IsQueue b [] v =
    (v, refl, λ k. (λ i. inl i, λ s. elim s [ inl i ↦ i | inr (_, none) ↦ absurd none ]))
enqueue-IsQueue b (seq ∷ missing) v =
    let g = push_new-Grown b seq v in
    let (q, e, members) = enqueue-IsQueue (push_new b seq) missing g.queue in
    (
      q,
      e ∙ g.same_total,
      λ k.
          let (split, join) = members k in
          let (split_one, join_one) = g.members k in
          (
            λ i. elim (split i) [
              | inl old ↦ elim (split_one old) [
                | inl older ↦ inl older
                | inr (lt, p) ↦ inr (lt, inl p)
              ]
              | inr (lt, p) ↦ inr (omega (arith, g.same_total), inr p)
            ],
            λ s. elim s [
              | inl old ↦ join (inl (join_one (inl old)))
              | inr (lt, inl p) ↦ join (inl (join_one (inr (lt, p))))
              | inr (lt, inr p) ↦ join (inr (omega (arith, g.same_total), p))
            ],
          ),
    )
