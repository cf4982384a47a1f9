-- ===== src/Recv/Loop/Returning.antt =====
-- When `receive_loop` returns.
use udpcp.Base.{
  ℕ, suc, ◌≡◌, ◌≢◌, sym, ◌∙◌, List, Option, some, true, false≢true, false, length, All,
}
use udpcp.Io.{World, Outcome, returned, raised, panicked, waiting, exhausted}
use udpcp.Io.Disk.{FilePath, Files}
use udpcp.Io.Runs.{AfterTo}
use udpcp.Protocol.{RecvConfig}
use udpcp.Protocol.Hashing.{Sha256}
use udpcp.Recv.Init.{InitHeader}
use udpcp.Recv.Finish.Keeping.{Delivered}
use udpcp.Recv.Loop.{receive_loop}
use udpcp.Recv.Loop.Rounds.{OneShot, receive_loop-Safe}
use udpcp.Recv.Loop.Keeping.{IsBytes, Offered, setting-Receives, tracing, before-Holds}

no_return :
    (sha : Sha256) (out : Option FilePath) (cfg : RecvConfig) (w : World) (n : ℕ)
    (r : Outcome (Unit {0}) × World)
    → cfg.serve ≡ true
    → AfterTo (tracing sha out w) n n (OneShot (tracing sha out w) sha cfg out) r
    → r.0 ≢ returned tt
no_return sha out cfg w n (returned u, v) on h = absurd (false≢true (sym h.1.0 ∙ on))
no_return sha out cfg w n (raised x, v) on h = λ e. cc
no_return sha out cfg w n (waiting, v) on h = λ e. cc
no_return sha out cfg w n (panicked why, v) on h = λ e. cc
no_return sha out cfg w n (exhausted, v) on h = absurd h

loop-AfterTo :
    (sha : Sha256) (out : Option FilePath) (cfg : RecvConfig) (w : World)
    → w.nonblocking ≡ false
    → All IsBytes w.inbox
    → AfterTo
        (tracing sha out w)
        (suc (length w.inbox))
        (suc (length w.inbox))
        (OneShot (tracing sha out w) sha cfg out)
        (receive_loop sha out cfg w)
loop-AfterTo sha out cfg w blocks bytes =
    (receive_loop-Safe (tracing sha out w) sha cfg out (setting-Receives sha out w.inbox w.files)
        (suc (length w.inbox))).at
      w (before-Holds sha out w blocks bytes)

-- A receiver that serves does not return, whatever arrives on its blocking socket and whichever
-- calls fail: no transfer that ends, complete or abandoned, ends `receive_loop` without an error.
pub receive_loop-serves :
    (sha : Sha256) (out : Option FilePath) (cfg : RecvConfig) (w : World)
    → cfg.serve ≡ true
    → w.nonblocking ≡ false
    → All IsBytes w.inbox
    → (receive_loop sha out cfg w).0 ≢ returned tt
receive_loop-serves sha out cfg w on blocks bytes =
    no_return sha out cfg w (suc (length w.inbox)) (receive_loop sha out cfg w) on
      (loop-AfterTo sha out cfg w blocks bytes)

-- An INIT that has arrived is accepted, and a file with the hash it announces is under the name
-- chosen for it.
pub record Delivery (sha : Sha256) (out : Option FilePath) (w : World) (files : Files)
    : Type 0 where
  pub init : InitHeader
  pub offered : Offered w.inbox out init
  pub content : List ℕ
  pub there : files init.final_path ≡ some content
  pub right : sha.digest content ≡ init.hash

delivery :
    (sha : Sha256) (out : Option FilePath) (w : World) (files : Files)
    → Delivered (tracing sha out w) sha files
    → Delivery sha out w files
delivery sha out w files d = record {
  init = d.origin.init;
  offered = d.origin.offered;
  content = d.content;
  there = rw d.origin.same_path d.there;
  right = d.right ∙ sym d.origin.same_hash;
}

delivered :
    (sha : Sha256) (out : Option FilePath) (cfg : RecvConfig) (w : World) (n : ℕ)
    (r : Outcome (Unit {0}) × World)
    → AfterTo (tracing sha out w) n n (OneShot (tracing sha out w) sha cfg out) r
    → r.0 ≡ returned tt
    → Delivery sha out w r.1.files
delivered sha out cfg w n (returned u, v) h e = delivery sha out w v.files h.1.1
delivered sha out cfg w n (raised x, v) h e = cc
delivered sha out cfg w n (waiting, v) h e = cc
delivered sha out cfg w n (panicked why, v) h e = cc
delivered sha out cfg w n (exhausted, v) h e = cc

-- Where `receive_loop` returns, on a blocking socket and whatever has arrived and failed before: one
-- of the INITs that arrived was accepted, and the file under its final name is there with a content
-- whose digest is the hash that the INIT announced. The drop of the state has not removed it.
pub receive_loop-Delivery :
    (sha : Sha256) (out : Option FilePath) (cfg : RecvConfig) (w : World)
    → w.nonblocking ≡ false
    → All IsBytes w.inbox
    → (receive_loop sha out cfg w).0 ≡ returned tt
    → Delivery sha out w (receive_loop sha out cfg w).1.files
receive_loop-Delivery sha out cfg w blocks bytes over =
    delivered sha out cfg w (suc (length w.inbox)) (receive_loop sha out cfg w)
      (loop-AfterTo sha out cfg w blocks bytes) over
