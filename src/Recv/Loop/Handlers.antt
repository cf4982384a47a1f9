-- ===== src/Recv/Loop/Handlers.antt =====
-- The handlers of `receive_loop` that end or abandon a transfer keep what is kept.
use udpcp.Base.{ℕ, ◌≡◌, refl, sym, subst, ◌∙◌, inl, inr, Option, none, some, false, Bool-cases}
use udpcp.Error.{IoError}
use udpcp.Report.{SocketAddr}
use udpcp.Io.{◌>>=◌, waiting, Io, ◌>>=◌, attempt}
use udpcp.Io.Disk.{Files}
use udpcp.Io.Runs.{Setting, weaken-Runs, Safe, SafeTo, Any, pure-Safe, >>=-Safe}
use udpcp.Io.Runs.Calls.{report-Safe, set_read_timeout-Safe, local_addr-Safe}
use udpcp.Io.Runs.Cases.{try-Safe}
use udpcp.Protocol.{RecvConfig}
use udpcp.Protocol.Hashing.{Sha256}
use udpcp.Recv.State.{ReceiveState}
use udpcp.Recv.State.Keeping.{Follows}
use udpcp.Recv.Gaps.{TickOutcome, waiting, nacked}
use udpcp.Recv.Gaps.Sending.{answer_ack-Safe, read_timeout-Safe, on_idle_tick-Safe}
use udpcp.Recv.Finish.Keeping.{Ours, AllOurs, Delivered, drop_state-Safe}
use udpcp.Recv.Finish.Unwinding.{unwinding-Safe}
use udpcp.Recv.Loop.{
  Locals, reset_listening, leave, abandon_transfer, or_abandon, tick, ticked, on_timeout, send_ack,
  arm_timeout,
}

-- The transfer of the loop, where there is one, is kept.
pub record Fine (S : Setting) (sha : Sha256) (l : Locals) : Type 0 where
  pub ours : AllOurs S sha l.state

pub Ours-Follows :
    {S : Setting} {sha : Sha256} {s t : ReceiveState} → Ours S sha s → Follows s t → Ours S sha t
Ours-Follows o f = record {
  valid = f.valid;
  tmp = rw f.same_tmp o.tmp;
  apart = λ e. o.apart (sym f.same_tmp ∙ e ∙ f.same_final);
  origin = rw (f.same_final, f.same_hash) o.origin;
  place = λ c files sent e k.
      rw (f.same_final, f.same_tmp) (o.place c files sent (rw f.same_hash at e) k);
  finished =
      λ addr files sent q k. o.finished addr files sent (rw (f.same_final, f.same_hash) at q) k;
}

-- The loop ends in one-shot mode only, and with a file that was delivered.
abbrev pub Over : Setting → Sha256 → RecvConfig → Files → Type 0
Over S sha cfg files = (cfg.serve ≡ false) × Delivered S sha files

pub none-Fine : (S : Setting) (sha : Sha256) (l : Locals) → l.state ≡ none → Fine S sha l
none-Fine S sha l e = record { ours = rw e tt }

module _ (S : Setting) (n : ℕ) (sha : Sha256) (cfg : RecvConfig) where
  module _ (l : Locals) (fine : Fine S sha l) where
    pub reset_listening-Safe : Safe S n (reset_listening l) (λ l'. l'.state ≡ none)
    unfolding reset_listening
    reset_listening-Safe = >>=-Safe S (drop_state-Safe S n sha l.state fine.ours) λ _ _.
        >>=-Safe S (set_read_timeout-Safe S n none) λ _ _.
          >>=-Safe S (local_addr-Safe S n) λ addr _.
            >>=-Safe S (report-Safe S n _) λ _ _. pure-Safe S n _ (λ l'. l'.state ≡ none) refl

    pub leave-Safe : {A : Type 0} (e : IoError) (Q : A → Files → Type 0) → SafeTo S n (leave e l) Q
    unfolding leave
    leave-Safe e Q =
        >>=-Safe S (drop_state-Safe S n sha l.state fine.ours) λ _ _. record { at = λ w h. h }

    pub abandon_transfer-Safe : (e : IoError) → Safe S n (abandon_transfer cfg e l) (Fine S sha)
    unfolding abandon_transfer
    abandon_transfer-Safe e = elim (Bool-cases cfg.serve) [
      | inl on ↦ rw on (
          >>=-Safe S (report-Safe S n _) λ _ _.
            weaken-Runs S (λ l'. l'.state ≡ none) (Fine S sha) (none-Fine S sha)
              reset_listening-Safe)
      | inr once ↦ rw once (leave-Safe e (λ l files. Fine S sha l))
    ]

    -- A handler whose error abandons the transfer.
    pub or_abandon-Safe :
        {act : Io Locals}
        → Safe S n act (Fine S sha)
        → Safe S n (attempt act >>= or_abandon cfg l) (Fine S sha)
    unfolding or_abandon
    or_abandon-Safe s =
        try-Safe S (or_abandon cfg l) s (λ l' f. pure-Safe S n l' (Fine S sha) f)
          λ e. abandon_transfer-Safe e

    tick-Safe :
        (o : Option ReceiveState) (addr : Option SocketAddr)
        → AllOurs S sha o
        → Safe S n (tick cfg l o addr) Any
    unfolding tick
    tick-Safe (some s) (some addr) h =
        unwinding-Safe S n sha (some s) h (on_idle_tick-Safe S n s addr _ _ _ h.valid)
    tick-Safe (some s) none h = pure-Safe S n waiting Any tt
    tick-Safe none addr h = pure-Safe S n waiting Any tt

    ticked-Fine : (t : TickOutcome) → Fine S sha (ticked l t)
    unfolding ticked
    ticked-Fine waiting = fine
    ticked-Fine (nacked at) = record { ours = fine.ours }

    pub on_timeout-Safe : Safe S n (on_timeout cfg l) (Fine S sha)
    unfolding on_timeout
    on_timeout-Safe = or_abandon-Safe (
        >>=-Safe S (tick-Safe l.state l.sender fine.ours)
          λ t _. pure-Safe S n _ (Fine S sha) (ticked-Fine t))

    pub send_ack-Safe : (from : SocketAddr) → Safe S n (send_ack cfg from l) (Fine S sha)
    unfolding send_ack
    send_ack-Safe from =
        or_abandon-Safe
          (>>=-Safe S (answer_ack-Safe S n from) λ _ _. pure-Safe S n l (Fine S sha) fine)

    pub arm_timeout-Safe : Safe S n (arm_timeout cfg l) Any
    unfolding arm_timeout
    arm_timeout-Safe = at l.state refl
      where
        at : (o : Option ReceiveState) → l.state ≡ o → Safe S n (arm_timeout cfg l) Any
        at none e = rw (e, arm_timeout) (pure-Safe S n tt Any tt)
        at (some s) e =
            rw (e, arm_timeout)
              (>>=-Safe S
                (unwinding-Safe S n sha (some s) (subst (AllOurs S sha) e fine.ours)
                  (read_timeout-Safe S n s l.last_data_at l.last_nack_at cfg.limits))
                λ d _.
                  try-Safe S _ (set_read_timeout-Safe S n (some d)) (λ u _. pure-Safe S n u Any tt)
                    λ e. leave-Safe e (λ u files. Unit))
