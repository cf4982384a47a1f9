-- ===== src/Recv/Gaps/Sending.antt =====
-- The sending of NACKs keeps what is kept.
use udpcp.Base.{
  some, none, refl, arith, ◌<◌, All, All-split, All-of_In, ℕ, ◌++◌, List, [], ◌∷◌, Option, leb, ◌-◌,
  if◌then◌else◌, inl, inr, Bool-cases,
}
use udpcp.Report.{SocketAddr}
use udpcp.Io.{instant_add, ◌>>=◌, or_panic, ◌>>◌, pure}
use udpcp.Io.Runs.{Setting, Safe, Any, pure-Safe, raise-Safe, or_panic-Safe, >>=-Safe}
use udpcp.Io.Runs.Calls.{Sendable, send_to-Safe, now-Safe, report-Safe, instant_add-Safe}
use udpcp.Protocol.{PacketHeader, fin, encode_header, RecvLimits, send_packet, send_control}
use udpcp.Protocol.{ack, max_nacks_per_packet, max_total_chunks}
use udpcp.Protocol.Replies.{IsReply, reply_ack, reply_nack, AllSeqs, fin_bytes}
use udpcp.Recv.Gaps.Batches.{flatten, IsBatch, chunks_lem}
use udpcp.Recv.State.{ReceiveState}
use udpcp.Recv.State.Valid.{IsValid}
use udpcp.Recv.Gaps.{
  send_batch, send_batches, emit_nacks, send_nacks, nack_gaps, collect_missing, read_timeout,
  on_idle_tick, waiting, nacked, is_due, next_nack_deadline, reissue,
}
use udpcp.Recv.Gaps.Missing.{collect_missing-exact}

All-flatten : (P : ℕ → Type 0) (bs : List (List ℕ)) → All P (flatten bs) → All (All P) bs
unfolding flatten
All-flatten P [] h = tt
All-flatten P (b ∷ bs) h = let (p, q) = All-split P b (flatten bs) h in (p, All-flatten P bs q)

module _ (S : Setting) (n : ℕ) where
  send_reply-Safe :
      (addr : SocketAddr) (h : PacketHeader) (payload : List ℕ)
      → IsReply (encode_header h ++ payload)
      → Safe S n (send_packet addr h payload) Any
  unfolding send_packet
  send_reply-Safe addr h payload reply =
      send_to-Safe S n addr _ λ files sent k. S.calm addr _ files sent reply k

  pub answer_ack-Safe : (addr : SocketAddr) → Safe S n (send_control addr ack 0) Any
  unfolding send_control
  answer_ack-Safe addr = send_reply-Safe addr _ [] (reply_ack refl)

  pub send_fin-Safe :
      (addr : SocketAddr) → Sendable S addr fin_bytes → Safe S n (send_control addr fin 0) Any
  unfolding send_control send_packet
  send_fin-Safe addr allowed = send_to-Safe S n addr _ allowed

  send_batch-Safe :
      (addr : SocketAddr) (batch : List ℕ)
      → IsBatch max_nacks_per_packet batch
      → AllSeqs batch
      → Safe S n (send_batch addr batch) Any
  unfolding send_batch
  send_batch-Safe addr batch (some_left, few) seqs =
      send_reply-Safe addr _ _ (reply_nack batch some_left few seqs refl)

  send_batches-Safe :
      (addr : SocketAddr) (bs : List (List ℕ))
      → All (IsBatch max_nacks_per_packet) bs
      → All AllSeqs bs
      → Safe S n (send_batches addr bs) Any
  unfolding send_batches
  send_batches-Safe addr [] h q = pure-Safe S n tt Any tt
  send_batches-Safe addr (b ∷ bs) (h, hs) (q, qs) =
      >>=-Safe S (send_batch-Safe addr b h q) λ _ _. send_batches-Safe addr bs hs qs

  emit_nacks-Safe :
      (addr : SocketAddr) (missing : List ℕ)
      → AllSeqs missing
      → Safe S n (emit_nacks addr missing) Any
  unfolding emit_nacks
  emit_nacks-Safe addr missing q =
      let (e, h) = chunks_lem max_nacks_per_packet missing (omega arith) in
      send_batches-Safe addr _ h (All-flatten (λ k. k < max_total_chunks) _ (rw e q))

  -- The chunks that are missing exist.
  collect-Safe :
      (s : ReceiveState) (upto : ℕ)
      → IsValid s
      → Safe S n (or_panic (collect_missing s upto)) AllSeqs
  collect-Safe s upto v =
      let (xs, e, exact) = collect_missing-exact s upto v in
      or_panic-Safe S n (collect_missing s upto) xs AllSeqs e (
        All-of_In (λ k. k < max_total_chunks) xs
          λ x m. let (_, below, _) = (exact x).0 m in omega (arith, below, v.sized.total_bounded))

  pub send_nacks-Safe :
      (s : ReceiveState) (addr : SocketAddr) → IsValid s → Safe S n (send_nacks s addr) Any
  unfolding send_nacks
  send_nacks-Safe s addr v =
      >>=-Safe S (collect-Safe s s.total v)
        λ missing q. >>=-Safe S (report-Safe S n _) λ _ _. emit_nacks-Safe addr missing q

  emit_some-Safe :
      (addr : SocketAddr) (missing : List ℕ)
      → AllSeqs missing
      → Safe S n (elim missing [ [] ↦ pure tt | x ∷ xs ↦ emit_nacks addr (x ∷ xs) ]) Any
  emit_some-Safe addr [] q = pure-Safe S n tt Any tt
  emit_some-Safe addr (x ∷ xs) q = emit_nacks-Safe addr (x ∷ xs) q

  nack_gaps-Safe :
      (s : ReceiveState) (addr : SocketAddr) → IsValid s → Safe S n (nack_gaps s addr) Any
  unfolding nack_gaps
  nack_gaps-Safe s addr v =
      >>=-Safe S (collect-Safe s s.frontier v) λ missing q. emit_some-Safe addr missing q

  reissue-Safe : (last_nack_at : Option ℕ) (at : ℕ) → Safe S n (reissue last_nack_at at) Any
  unfolding reissue
  reissue-Safe none at = pure-Safe S n at Any tt
  reissue-Safe (some last) at =
      >>=-Safe S (instant_add-Safe S n last _) λ l _. pure-Safe S n _ Any tt

  next_nack_deadline-Safe :
      (s : ReceiveState) (holdoff : ℕ) (last_nack_at : Option ℕ)
      → Safe S n (next_nack_deadline s holdoff last_nack_at) Any
  unfolding next_nack_deadline
  next_nack_deadline-Safe s holdoff last_nack_at = at s.oldest_gap_at
    where
      at :
          (gap : Option ℕ)
          → Safe {A = Option ℕ} S n
              (elim gap [
                | none ↦ pure none
                | some t ↦ instant_add t holdoff >>= λ held.
                    reissue last_nack_at held >>= λ a. pure (some a)
              ])
              Any
      at none = pure-Safe S n none Any tt
      at (some t) =
          >>=-Safe S (instant_add-Safe S n t holdoff)
            λ held _. >>=-Safe S (reissue-Safe last_nack_at held) λ a _. pure-Safe S n _ Any tt

  pub read_timeout-Safe :
      (s : ReceiveState) (last_data_at : ℕ) (last_nack_at : Option ℕ) (limits : RecvLimits)
      → Safe S n (read_timeout s last_data_at last_nack_at limits) Any
  unfolding read_timeout
  read_timeout-Safe s last_data_at last_nack_at limits =
      >>=-Safe S (instant_add-Safe S n _ _) λ _ _.
        >>=-Safe S (next_nack_deadline-Safe s limits.nack_holdoff last_nack_at)
          λ _ _. >>=-Safe S (now-Safe S n) λ t _. pure-Safe S n _ Any tt

  quiet_tick-Safe :
      (s : ReceiveState) (addr : SocketAddr) (deadline : Option ℕ) (t : ℕ)
      → IsValid s
      → Safe S n
          (if is_due deadline t then (nack_gaps s addr >> pure (nacked t)) else pure waiting)
          Any
  quiet_tick-Safe s addr deadline t v = elim (Bool-cases (is_due deadline t)) [
    | inl due ↦ rw due (>>=-Safe S (nack_gaps-Safe s addr v) λ _ _. pure-Safe S n _ Any tt)
    | inr early ↦ rw early (pure-Safe S n _ Any tt)
  ]

  pub on_idle_tick-Safe :
      (s : ReceiveState) (addr : SocketAddr) (last_data_at : ℕ) (last_nack_at : Option ℕ)
      (limits : RecvLimits)
      → IsValid s
      → Safe S n (on_idle_tick s addr last_data_at last_nack_at limits) Any
  unfolding on_idle_tick
  on_idle_tick-Safe s addr last_data_at last_nack_at limits v = >>=-Safe S (now-Safe S n) λ t _.
      elim (Bool-cases (leb limits.idle_timeout (t - last_data_at))) [
        | inl late ↦ rw late (raise-Safe S n _ Any)
        | inr early ↦ rw early (
            >>=-Safe S (next_nack_deadline-Safe s limits.nack_holdoff last_nack_at)
              λ deadline _. quiet_tick-Safe s addr deadline t v)
      ]
