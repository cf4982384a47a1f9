-- ===== src/Send/Delay/Bounds.antt =====
-- The pause that `send_delay` computes.
use udpcp.Base.{
  ℕ, ◌-◌, ◌*◌, ◌/◌, ◌≤◌, ◌<◌, ◌≡◌, refl, subst, suc, ltb, ◌⊎◌, min, max, Option, none, some, false,
  ◌==◌, inl, inr, Bool-cases, u32_mod, u64_mod, arith,
}
use native.Mathlib.Nat.{le-div_iff_mul-le, div-lt_iff_lt-mul, mul_comm}
use udpcp.Protocol.{bytes_per_kib, one_second}
use udpcp.Send.Delay.{packets_per_second, send_delay}

-- `n` whole packets of `chunk_size` bytes a second for a limit of `bw` KiB/s: as many as the limit
-- allows, but at least one, and no more than the words of the code can count.
pub record IsRate (bw chunk_size n : ℕ) : Type 0 where
  pub positive : 0 < n
  pub small : n < u32_mod
  pub under : (n ≡ 1) ⊎ (n * chunk_size ≤ bw * bytes_per_kib)
  pub over :
      (bw * bytes_per_kib < suc n * chunk_size) ⊎ (n ≡ u32_mod - 1) ⊎ (u64_mod ≤ bw * bytes_per_kib)

clamp-IsRate :
    (bw chunk_size : ℕ)
    → 0 < chunk_size
    → IsRate bw chunk_size
        (min (max (min (bw * bytes_per_kib) (u64_mod - 1) / chunk_size) 1) (u32_mod - 1))
clamp-IsRate bw c h =
    let x : ℕ = min (bw * bytes_per_kib) (u64_mod - 1) in
    let n : ℕ = min (max (x / c) 1) (u32_mod - 1) in
    let (fits, _) = le-div_iff_mul-le {x = n} {y = x} h in
    let (beyond, _) = div-lt_iff_lt-mul {x = x} {y = suc n} h in
    record {
      positive = omega arith;
      small = omega arith;
      under = elim (Bool-cases (ltb (x / c) 1)) [
        | inl none_fit ↦ inl (ground arith)
        | inr some_fit ↦ let le : n ≤ x / c = ground arith in inr (omega (arith, fits le))
      ];
      over = elim (Bool-cases (ltb (x / c) (u32_mod - 1))) [
        | inr many ↦ inr (inl (ground arith))
        | inl fewer ↦
            let lt : x / c < suc n = ground arith in
            let past : x < suc n * c = beyond lt in
            elim (Bool-cases (ltb (bw * bytes_per_kib) u64_mod)) [
              | inl counted ↦
                  let same : x ≡ bw * bytes_per_kib = ground arith in
                  inl (subst (λ (y : ℕ). y < suc n * c) same past)
              | inr large ↦ inr (inr (ground arith))
            ]
      ];
    }

-- What `send_delay` computes for a positive chunk size, without a panic. If the limit is 0 there is
-- no pause. Otherwise the pause is a second divided by `n`, rounded down, for an `n` that is the
-- packets in a second: it is positive and less than 2 ^ 32; `n` chunks are within the limit, unless
-- `n` is 1; and `n + 1` chunks are above the limit, unless `n` is 2 ^ 32 - 1 or the limit in bytes
-- does not fit 64 bits.
pub send_delay_lem :
    (bw chunk_size : ℕ)
    → 0 < chunk_size
    → ((bw ≡ 0) × (send_delay bw chunk_size ≡ some none))
      ⊎ ((0 < bw)
          × ((n : ℕ) × (d : ℕ) × (send_delay bw chunk_size ≡ some (some d))
              × IsRate bw chunk_size n
              × (n * d ≤ one_second)
              × (one_second < n * suc d)))
unfolding send_delay packets_per_second
send_delay_lem bw c h = elim (Bool-cases (bw == 0)) [
  | inl zero_bw ↦ inl (ground arith, rw zero_bw refl)
  | inr limit ↦
      let n : ℕ = min (max (min (bw * bytes_per_kib) (u64_mod - 1) / c) 1) (u32_mod - 1) in
      let rate : IsRate bw c n = clamp-IsRate bw c h in
      let (times, _) = le-div_iff_mul-le {x = one_second / n} {y = one_second} rate.positive in
      let (beyond, _) =
        div-lt_iff_lt-mul {x = one_second} {y = suc (one_second / n)} rate.positive in
      let some_chunk : (c == 0) ≡ false = ground arith in
      inr (
        ground arith,
        (
          n,
          one_second / n,
          rw (limit, some_chunk) refl,
          rate,
          rw (mul_comm n (one_second / n)) (times (omega arith)),
          rw (mul_comm n (suc (one_second / n))) (beyond (omega arith)),
        ),
      )
]

-- A pause or none.
pub send_delay-some :
    (bw chunk_size : ℕ)
    → 0 < chunk_size
    → (delay : Option ℕ) × (send_delay bw chunk_size ≡ some delay)
send_delay-some bw c h = elim (send_delay_lem bw c h) [
  | inl (_, e) ↦ (none, e)
  | inr (_, (n, d, e, _, _, _)) ↦ (some d, e)
]
