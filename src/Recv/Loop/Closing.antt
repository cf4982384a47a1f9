-- ===== src/Recv/Loop/Closing.antt =====
-- Closing a transfer that is complete: the FIN, `linger`, and the next transfer or the end.
use udpcp.Base.{if◌then◌else◌, Bool, ℕ, ◌≡◌, refl, ◌∙◌, true, Option, none, some, false}
use udpcp.Report.{SocketAddr}
use udpcp.Io.{pure, ◌>>=◌, World, Outcome, returned, raised, waiting, panicked, exhausted, ◌>>=◌}
use udpcp.Io.Disk.{put_ne}
use udpcp.Io.Runs.{Setting, Holds, After, AfterTo, Safe, Any, pure-Safe, >>=-Safe}
use udpcp.Io.Runs.Calls.{Writable, Sendable, ignore-Safe}
use udpcp.Io.Runs.Rounds.{IfSome}
use udpcp.Protocol.{RecvConfig}
use udpcp.Protocol.Hashing.{Sha256}
use udpcp.Recv.State.{ReceiveState}
use udpcp.Recv.Gaps.{waiting}
use udpcp.Protocol.Replies.{fin_bytes}
use udpcp.Recv.Gaps.Sending.{send_fin-Safe}
use udpcp.Recv.Finish.Keeping.{Ours, InPlace, drop_tmp-Safe}
use udpcp.Recv.Linger.Keeping.{linger-Safe}
use udpcp.Recv.Loop.{Locals, reset_listening, close_transfer}
use udpcp.Recv.Loop.Handlers.{Fine, Over, none-Fine, reset_listening-Safe}

module _ (S : Setting) (n : ℕ) (sha : Sha256) (cfg : RecvConfig) where
  module _ (l : Locals) (s : ReceiveState) (addr : SocketAddr) (o : Ours S sha s) where
    -- What is kept while a transfer that is complete is closed.
    abbrev Closing : Setting
    Closing = record {
      Told = S.Told;
      Kept = λ files sent. S.Kept files sent × InPlace sha s files;
      Origin = S.Origin;
      calm = λ addr d files sent reply (k, q). (S.calm addr d files sent reply k, q);
    }

    closing_tmp : Writable Closing s.tmp_path
    closing_tmp c files sent (k, (got, there, right)) =
        (o.tmp c files sent k, (got, put_ne s.tmp_path s.final_path c files o.apart ∙ there, right))

    closing_fin : Sendable Closing addr fin_bytes
    closing_fin files sent (k, q) = (o.finished addr files sent q k, q)

    -- The next transfer, or the end of the loop.
    abbrev Closed : Option Locals → Type 0
    Closed none = cfg.serve ≡ false
    Closed (some l') = l'.state ≡ none

    ending-Safe :
        Safe Closing n
          (if cfg.serve
            then (reset_listening (record l { state = none }) >>= λ l'. pure (some l'))
            else pure none)
          Closed
    ending-Safe = at cfg.serve refl
      where
        at :
            (b : Bool)
            → cfg.serve ≡ b
            → Safe Closing n
                (if b
                  then (reset_listening (record l { state = none }) >>= λ l'. pure (some l'))
                  else pure none)
                Closed
        at true e =
            >>=-Safe Closing
              (reset_listening-Safe Closing n sha cfg (record l { state = none })
                (record { ours = tt }))
              λ l' f. pure-Safe Closing n (some l') Closed f
        at false e = pure-Safe Closing n none Closed e

    close-Safe : Safe Closing n (close_transfer sha cfg l s addr) Closed
    unfolding close_transfer
    close-Safe = >>=-Safe Closing (drop_tmp-Safe Closing n s closing_tmp) λ _ _.
        >>=-Safe Closing (ignore-Safe Closing n _ Any (send_fin-Safe Closing n addr closing_fin))
          λ _ _.
            >>=-Safe Closing (linger-Safe Closing addr cfg.linger_timeout closing_fin n)
              λ _ _. ending-Safe

    opened : (v : World) → Holds Closing n v → Holds S n v
    opened v h = record { blocks = h.blocks; few = h.few; told = h.told; kept = h.kept.0 }

    Closed-AfterTo :
        (r : Outcome (Option Locals) × World)
        → After Closing n n Closed r
        → AfterTo S n n (IfSome S (Over S sha cfg) (Fine S sha)) r
    Closed-AfterTo (returned none, v) (h, once) =
        let (got, there, right) = h.kept.1 in
        (
          opened v h,
          (
            once,
            record {
              path = s.final_path;
              hash = s.hash;
              origin = o.origin;
              content = got;
              there = there;
              right = right;
            },
          ),
        )
    Closed-AfterTo (returned (some l'), v) (h, e) = (opened v h, none-Fine S sha l' e)
    Closed-AfterTo (raised x, v) h = opened v h
    Closed-AfterTo (waiting, v) h = opened v h
    Closed-AfterTo (panicked why, v) (h, e) = (opened v h, e)
    Closed-AfterTo (exhausted, v) h = absurd h

    -- A transfer is closed once its file is in place.
    pub close_transfer-AfterTo :
        (w : World)
        → Holds S n w
        → InPlace sha s w.files
        → AfterTo S n n (IfSome S (Over S sha cfg) (Fine S sha)) (close_transfer sha cfg l s addr w)
    close_transfer-AfterTo w h q = Closed-AfterTo _ (
        close-Safe.at w
          (record { blocks = h.blocks; few = h.few; told = h.told; kept = (h.kept, q) }))
