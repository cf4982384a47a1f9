-- ===== src/Examples/Ticks.antt =====
-- A receiver with a gap, before its read timeout and one second later.
use udpcp.Base.{ℕ, ◌-◌, ◌<◌, ◌≡◌, ◌≢◌, refl, List, [], ◌∷◌, none, some, arith}
use udpcp.Base.Bits.{set_bit, test_bit}
use udpcp.Io.{World, returned, now, send_to}
use udpcp.Protocol.{recv_limits_default, send_packet}
use udpcp.Recv.State.{ReceiveState, is_received}
use udpcp.Recv.State.Bitmap.{bit_in-set, bit_in-replicate}
use udpcp.Recv.State.Valid.{IsValid}
use udpcp.Recv.State.Storing.{IsStored, stored_state}
use udpcp.Recv.State.Assembly.{stored_state-IsValid}
use udpcp.Recv.Gaps.{
  TickOutcome, nacked, read_timeout, next_nack_deadline, on_idle_tick, nack_gaps, collect_missing,
  emit_nacks, chunks, send_batches, send_batch,
}
use udpcp.Recv.Gaps.Timing.{IsDue, on_idle_tick-IsDue}
use udpcp.Recv.Gaps.Waking.{on_idle_tick-read_timeout}
use udpcp.Examples.Toy.{peer}
use udpcp.Examples.Delivery.{fresh, fresh-IsValid, fresh_world}

abbrev words : List ℕ
words = set_bit 0 1 ∷ []

last-IsStored : IsStored fresh 1 words (some 0)
last-IsStored = record {
  same_length = refl;
  one_more = λ j. bit_in-set (0 ∷ []) 1 0 j refl (omega arith);
  clock_right = refl;
  clock_kept = λ _ known. absurd (known refl);
}

-- Only the last chunk was received.
abbrev gapped : ReceiveState
gapped = stored_state fresh 1 words (some 0)

gapped-IsValid : IsValid gapped
gapped-IsValid =
    stored_state-IsValid fresh 1 words (some 0) fresh-IsValid (omega arith) (bit_in-replicate 1 1)
      last-IsStored

abbrev later : World
later = record fresh_world { clock = 1_000_000_000 }

abbrev after_tick : World
after_tick = (on_idle_tick gapped peer 0 none recv_limits_default later).1

tick_nacks :
    on_idle_tick gapped peer 0 none recv_limits_default later
    ≡ (returned (nacked 1_000_000_000), after_tick)
unfolding on_idle_tick now udpcp.Io.instant_add next_nack_deadline nack_gaps collect_missing
    is_received test_bit set_bit emit_nacks send_batches chunks send_batch send_packet send_to
tick_nacks = refl

on_idle_tick-IsDue_example :
    IsDue gapped none recv_limits_default 1_000_000_000 × (1_000_000_000 - 0 < 30_000_000_000)
on_idle_tick-IsDue_example =
    on_idle_tick-IsDue gapped peer 0 none recv_limits_default later after_tick 1_000_000_000
      gapped-IsValid tick_nacks

abbrev armed : World
armed = (read_timeout gapped 0 none recv_limits_default fresh_world).1

wakes_for_nack :
    read_timeout gapped 0 none recv_limits_default fresh_world
    ≡ (returned recv_limits_default.nack_holdoff, armed)
unfolding read_timeout now udpcp.Io.instant_add next_nack_deadline
wakes_for_nack = refl

armed_clock : armed.clock ≡ 0
unfolding read_timeout now udpcp.Io.instant_add next_nack_deadline
armed_clock = refl

on_idle_tick-read_timeout_example :
    (on_idle_tick gapped peer 0 none recv_limits_default later).0 ≢ returned TickOutcome.waiting
on_idle_tick-read_timeout_example =
    on_idle_tick-read_timeout gapped peer 0 none recv_limits_default fresh_world armed later
      recv_limits_default.nack_holdoff wakes_for_nack (rw armed_clock (omega arith))
