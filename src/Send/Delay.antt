-- ===== src/Send/Delay.antt =====
-- `send_delay` of lib/send.rs: the pause between packets for a bandwidth limit in KiB/s.
pub mod Bounds
use udpcp.Base.{
  ℕ, ◌-◌, ◌*◌, ◌/◌, min, max, Option, none, some, ◌==◌, if◌then◌else◌, u32_mod, u64_mod,
}
use udpcp.Protocol.{bytes_per_kib, one_second}

-- `(bw.saturating_mul(BYTES_PER_KIB) / chunk_size as u64).clamp(1, u32::MAX as u64)`; the division
-- panics for chunk size 0.
unfoldable pub packets_per_second : ℕ → ℕ → Option ℕ
packets_per_second bw chunk_size =
    if chunk_size == 0
    then none
    else some (min (max (min (bw * bytes_per_kib) (u64_mod - 1) / chunk_size) 1) (u32_mod - 1))

delay_of : Option ℕ → Option (Option ℕ)
delay_of none = none
delay_of (some packets) = some (some (one_second / packets))

-- `none` is the panic.
unfoldable pub send_delay : ℕ → ℕ → Option (Option ℕ)
unfolding packets_per_second delay_of
send_delay bw chunk_size =
    if bw == 0 then some none else delay_of (packets_per_second bw chunk_size)
