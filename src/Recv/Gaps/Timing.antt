-- ===== src/Recv/Gaps/Timing.antt =====
-- When `on_idle_tick` sends NACKs.
use udpcp.Base.{
  ℕ, ◌+◌, ◌-◌, ◌≤◌, ◌<◌, ◌≡◌, refl, sym, ◌∙◌, inl, inr, ◌⊎◌, max, Option, none, some, true, ltb,
  leb, arith, Bool-cases, Option-cases,
}
use udpcp.Report.{SocketAddr}
use udpcp.Io.{
  World, Outcome, returned, raised, panicked, waiting, exhausted, instant_overflow, continue, pure,
  instant_add,
}
use udpcp.Io.Clock.{now-cases}
use udpcp.Protocol.{RecvLimits, nack_reissue_interval}
use udpcp.Recv.State.{ReceiveState}
use udpcp.Recv.State.Valid.{IsValid}
use udpcp.Recv.Gaps.{nacked, next_nack_deadline, nack_gaps, on_idle_tick, is_due, reissue}

-- A NACK at time `t` is not early, and there is a gap.
pub record IsDue (s : ReceiveState) (last_nack_at : Option ℕ) (limits : RecvLimits) (t : ℕ)
    : Type 0 where
  pub gap : s.count < s.frontier
  pub gap_at : ℕ
  pub gap_known : s.oldest_gap_at ≡ some gap_at
  pub held_off : gap_at + limits.nack_holdoff ≤ t
  pub spaced : (last : ℕ) → last_nack_at ≡ some last → last + nack_reissue_interval ≤ t

-- A sum of instants that is returned is the sum, and the world is as it was.
pub instant_add-cases :
    (t d : ℕ) (w : World)
    → (instant_add t d w ≡ (returned (t + d), w))
      ⊎ (instant_add t d w ≡ (panicked instant_overflow, w))
unfolding instant_add
instant_add-cases t d w = elim (Bool-cases (ltb (t + d) w.instant_end)) [
  | inl fits ↦ inl (rw (fits, instant_add) refl)
  | inr late ↦ inr (rw (late, instant_add) refl)
]

-- The later of `at` and the end of the reissue interval.
abbrev pub reissued : Option ℕ → ℕ → ℕ
reissued none at = at
reissued (some last) at = max at (last + nack_reissue_interval)

-- The time of the next NACK after `at`.
reissue-cases :
    (last_nack_at : Option ℕ) (at : ℕ) (w : World)
    → ((m : ℕ) × (m ≡ reissued last_nack_at at)
        × (reissue last_nack_at at w ≡ (returned m, w))
        × (at ≤ m)
        × ((last : ℕ) → last_nack_at ≡ some last → last + nack_reissue_interval ≤ m))
      ⊎ (reissue last_nack_at at w ≡ (panicked instant_overflow, w))
unfolding reissue
reissue-cases none at w = inl (at, refl, refl, omega arith, λ last e. cc)
reissue-cases (some l) at w = elim (instant_add-cases l nack_reissue_interval w) [
  | inl p ↦ inl (
    max at (l + nack_reissue_interval),
    refl,
    rw (p, reissue) refl,
    omega arith,
    λ last e. let same : l ≡ last = cc in omega arith,
  )
  | inr p ↦ inr (rw (p, reissue) refl)
]

-- The deadline is that of the oldest gap, or the code panics.
pub next_nack_deadline-cases :
    (s : ReceiveState) (holdoff : ℕ) (last_nack_at : Option ℕ) (w : World)
    → ((s.oldest_gap_at ≡ none)
        × (next_nack_deadline s holdoff last_nack_at w ≡ (returned none, w)))
      ⊎ ((g : ℕ) × (m : ℕ) × (s.oldest_gap_at ≡ some g)
          × (m ≡ reissued last_nack_at (g + holdoff))
          × (next_nack_deadline s holdoff last_nack_at w ≡ (returned (some m), w))
          × (g + holdoff ≤ m)
          × ((last : ℕ) → last_nack_at ≡ some last → last + nack_reissue_interval ≤ m))
      ⊎ (next_nack_deadline s holdoff last_nack_at w ≡ (panicked instant_overflow, w))
unfolding next_nack_deadline
next_nack_deadline-cases s holdoff last_nack_at w = elim (Option-cases s.oldest_gap_at) [
  | inl n ↦ inl (n, rw (n, next_nack_deadline) refl)
  | inr (g, p) ↦ elim (instant_add-cases g holdoff w) [
    | inr late ↦ inr (inr (rw (p, late, next_nack_deadline) refl))
    | inl q ↦ elim (reissue-cases last_nack_at (g + holdoff) w) [
      | inr late ↦ inr (inr (rw (p, q, late, next_nack_deadline) refl))
      | inl (m, exact, r, held, spaced) ↦
          inr (inl (g, m, p, exact, rw (p, q, r, next_nack_deadline) refl, held, spaced))
    ]
  ]
]

then_nacked :
    (r : Outcome (Unit {0}) × World) (t t' : ℕ) (v : World)
    → continue r.0 (λ _. pure (nacked t)) r.1 ≡ (returned (nacked t'), v)
    → t ≡ t'
then_nacked (returned u, w) t t' v e = cc
then_nacked (raised x, w) t t' v e = cc
then_nacked (panicked why, w) t t' v e = cc
then_nacked (waiting, w) t t' v e = cc
then_nacked (exhausted, w) t t' v e = cc

-- When a valid receiver's idle tick ends with NACKs at time `t`, there is a gap, its clock has run
-- for the holdoff, the previous NACKs are at least the reissue interval old, and the sender has been
-- silent for less than the idle timeout.
pub on_idle_tick-IsDue :
    (s : ReceiveState) (addr : SocketAddr) (last_data_at : ℕ) (last_nack_at : Option ℕ)
    (limits : RecvLimits) (w v : World) (t : ℕ)
    → IsValid s
    → on_idle_tick s addr last_data_at last_nack_at limits w ≡ (returned (nacked t), v)
    → IsDue s last_nack_at limits t × (t - last_data_at < limits.idle_timeout)
unfolding on_idle_tick is_due
on_idle_tick-IsDue s addr last_data_at last_nack_at limits w v t ok_state e =
    let (now_at, r, p, _) = now-cases w in
    let u : World = record w { clock = now_at; ticks = r } in
    elim (Bool-cases (leb limits.idle_timeout (now_at - last_data_at))) [
      | inl idle ↦ cc (rw (p, idle, on_idle_tick) at e)
      | inr active ↦ elim (next_nack_deadline-cases s limits.nack_holdoff last_nack_at u) [
        | inl (no_gap, q) ↦ cc (rw (p, active, q, on_idle_tick, is_due) at e)
        | inr (inr late) ↦ cc (rw (p, active, late, on_idle_tick) at e)
        | inr (inl (g, m, gap, _, q, held, spaced)) ↦ elim (Bool-cases (leb m now_at)) [
          | inr early ↦ cc (rw (p, active, q, early, on_idle_tick, is_due) at e)
          | inl ready ↦
              let same : now_at ≡ t =
                then_nacked (nack_gaps s addr u) now_at t v
                  (rw (p, active, q, ready, on_idle_tick, is_due) at e) in
              let due : m ≤ now_at = ground arith in
              let wide : ltb s.count s.frontier ≡ true =
                sym ok_state.consistent.gap_clock ∙ rw gap refl in
              let le-trans : (a : ℕ) → a ≤ m → a ≤ now_at = λ a h. omega arith in
              rw (sym same) (
                record {
                  gap = ground arith;
                  gap_at = g;
                  gap_known = gap;
                  held_off = le-trans _ held;
                  spaced = λ last k. le-trans _ (spaced last k);
                },
                ground arith,
              )
        ]
      ]
    ]
