-- ===== src/Recv/Gaps/Waking.antt =====
-- The receiver's read timeout and the tick that follows it.
use udpcp.Base.{
  ℕ, ◌+◌, ◌-◌, ◌≤◌, ◌≡◌, ◌≢◌, sym, ap, inl, inr, max, min, Option, none, some, true, leb, arith,
  Bool-cases,
}
use udpcp.Report.{SocketAddr}
use udpcp.Io.{World, Outcome, returned, raised, panicked, exhausted, continue, pure}
use udpcp.Io.Clock.{now-cases}
use udpcp.Protocol.{RecvLimits, one_milli}
use udpcp.Recv.State.{ReceiveState}
use udpcp.Recv.Gaps.{TickOutcome, nacked, earlier, read_timeout, nack_gaps, on_idle_tick, is_due}
use udpcp.Recv.Gaps.Timing.{reissued, instant_add-cases, next_nack_deadline-cases}

-- The gap at which the next NACK is due.
abbrev next_nack : ReceiveState → ℕ → Option ℕ → Option ℕ
next_nack s holdoff last_nack_at = elim s.oldest_gap_at [
  | none ↦ none
  | some g ↦ some (reissued last_nack_at (g + holdoff))
]

-- What a read timeout that is returned says of the clock.
read_timeout-inv :
    (s : ReceiveState) (last_data_at : ℕ) (last_nack_at : Option ℕ) (limits : RecvLimits)
    (w v : World) (d : ℕ)
    → read_timeout s last_data_at last_nack_at limits w ≡ (returned d, v)
    → earlier (last_data_at + limits.idle_timeout) (next_nack s limits.nack_holdoff last_nack_at)
      ≤ v.clock + d
unfolding read_timeout earlier
read_timeout-inv s last_data_at last_nack_at limits w v d e =
    let (t, r, p, _) = now-cases w in
    elim (instant_add-cases last_data_at limits.idle_timeout w) [
      | inr late ↦ cc (rw (late, read_timeout) at e)
      | inl q ↦ elim (next_nack_deadline-cases s limits.nack_holdoff last_nack_at w) [
        | inr (inr late) ↦ cc (rw (q, late, read_timeout) at e)
        | inl (no_gap, n) ↦
            let done = rw (q, n, p, read_timeout) at e in
            let at_t : t ≡ v.clock = ap (λ (r : Outcome ℕ × World). r.1.clock) done in
            let same : max (last_data_at + limits.idle_timeout - t) one_milli ≡ d = cc in
            rw no_gap (omega arith)
        | inr (inl (g, m, gap, exact, n, _, _)) ↦
            let done = rw (q, n, p, read_timeout) at e in
            let at_t : t ≡ v.clock = ap (λ (r : Outcome ℕ × World). r.1.clock) done in
            let same : max (min (last_data_at + limits.idle_timeout) m - t) one_milli ≡ d = cc in
            rw (gap, sym exact) (omega arith)
      ]
    ]

not_waiting :
    (r : Outcome (Unit {0}) × World) (t : ℕ)
    → (continue r.0 (λ _. pure (nacked t)) r.1).0 ≢ returned TickOutcome.waiting
not_waiting (returned u, w) t e = cc
not_waiting (raised x, w) t e = cc
not_waiting (panicked why, w) t e = cc
not_waiting (Outcome.waiting, w) t e = cc
not_waiting (exhausted, w) t e = cc

-- A tick at or after the deadline acts.
past-acts :
    (s : ReceiveState) (addr : SocketAddr) (last_data_at : ℕ) (last_nack_at : Option ℕ)
    (limits : RecvLimits) (w : World)
    → earlier (last_data_at + limits.idle_timeout) (next_nack s limits.nack_holdoff last_nack_at)
      ≤ w.clock
    → (on_idle_tick s addr last_data_at last_nack_at limits w).0 ≢ returned TickOutcome.waiting
unfolding on_idle_tick is_due earlier
past-acts s addr last_data_at last_nack_at limits w past =
    let (t, r, p, on) = now-cases w in
    let u : World = record w { clock = t; ticks = r } in
    elim (Bool-cases (leb limits.idle_timeout (t - last_data_at))) [
      | inl idle ↦ rw (p, idle, on_idle_tick) (λ e. cc)
      | inr active ↦ elim (next_nack_deadline-cases s limits.nack_holdoff last_nack_at u) [
        | inr (inr late) ↦ rw (p, active, late, on_idle_tick) (λ e. cc)
        | inl (no_gap, n) ↦
            let long : last_data_at + limits.idle_timeout ≤ w.clock = rw no_gap at past in
            absurd (ground arith)
        | inr (inl (g, m, gap, exact, n, _, _)) ↦
            let soon : min (last_data_at + limits.idle_timeout) m ≤ w.clock =
              rw (gap, sym exact) at past in
            let ready : leb m t ≡ true = ground arith in
            rw (p, active, n, ready, on_idle_tick, is_due) (not_waiting (nack_gaps s addr u) t)
      ]
    ]

-- A receiver that has waited for the time that `read_timeout` gave, counted from the clock at its
-- end, and has heard nothing does not wait again for nothing: its idle tick does not end with
-- `waiting`.
pub on_idle_tick-read_timeout :
    (s : ReceiveState) (addr : SocketAddr) (last_data_at : ℕ) (last_nack_at : Option ℕ)
    (limits : RecvLimits) (w v u : World) (d : ℕ)
    → read_timeout s last_data_at last_nack_at limits w ≡ (returned d, v)
    → v.clock + d ≤ u.clock
    → (on_idle_tick s addr last_data_at last_nack_at limits u).0 ≢ returned TickOutcome.waiting
on_idle_tick-read_timeout s addr last_data_at last_nack_at limits w v u d e waited =
    past-acts s addr last_data_at last_nack_at limits u
      (omega (arith, read_timeout-inv s last_data_at last_nack_at limits w v d e))
