-- ===== src/Recv/State/Starting.antt =====
-- `ReceiveState::new`: the state of an accepted INIT has the invariant.
use udpcp.Base.{ℕ, ◌≡◌, refl, subst, List, Option, All, IsByte}
use udpcp.Error.{IoError, Result, ok, err, InitError}
use udpcp.Report.{receiving}
use udpcp.Io.{
  World, Outcome, returned, raised, panicked, waiting, exhausted, Io, continue, attempt, report,
}
use udpcp.Io.Clock.{now-cases}
use udpcp.Io.Disk.{FilePath}
use udpcp.Io.FileOps.{create, set_len}
use udpcp.Recv.Init.{InitHeader, parse_init}
use udpcp.Recv.Init.Accepts.{parse_init-Accepted}
use udpcp.Recv.State.{
  ReceiveState, start_state, begin_state, with_length, with_file, open_state, new, tmp_path_of,
}
use udpcp.Recv.State.Valid.{IsValid, start_state-IsValid}

-- What a returned value says of the steps before it.
continue-inv :
    {A B : Type 0} (r : Outcome A × World) (f : A → Io B) {b : B} {v : World}
    → continue r.0 f r.1 ≡ (returned b, v)
    → (a : A) × (u : World) × (f a u ≡ (returned b, v))
continue-inv (returned a, u) f e = (a, u, e)
continue-inv (raised x, u) f e = cc
continue-inv (panicked why, u) f e = cc
continue-inv (waiting, u) f e = cc
continue-inv (exhausted, u) f e = cc

begin_state-start :
    (h : InitHeader) (w : World) (s : ReceiveState) (v : World)
    → begin_state h w ≡ (returned (ok s), v)
    → (start : ℕ) × (start_state h start ≡ s)
unfolding begin_state report
begin_state-start h w s v e =
    let reported = (report (receiving h.final_path h.size h.total h.chunk_size) w).1 in
    let (start, r, p, _) = now-cases reported in (start, cc (rw (p, begin_state) at e))

with_length-start :
    (h : InitHeader) (r : Result (Unit {0}) IoError) (w : World) (s : ReceiveState) (v : World)
    → with_length h r w ≡ (returned (ok s), v)
    → (start : ℕ) × (start_state h start ≡ s)
unfolding with_length
with_length-start h (err x) w s v e = cc
with_length-start h (ok u) w s v e = begin_state-start h w s v e

with_file-start :
    (h : InitHeader) (r : Result (Unit {0}) IoError) (w : World) (s : ReceiveState) (v : World)
    → with_file h r w ≡ (returned (ok s), v)
    → (start : ℕ) × (start_state h start ≡ s)
unfolding with_file
with_file-start h (err x) w s v e = cc
with_file-start h (ok u) w s v e =
    let (sized, w1, e1) =
      continue-inv (attempt (set_len (tmp_path_of h.final_path) h.size) w) (with_length h) e in
    with_length-start h sized w1 s v e1

pub open_state-start :
    (h : InitHeader) (w : World) (s : ReceiveState) (v : World)
    → open_state h w ≡ (returned (ok s), v)
    → (start : ℕ) × (start_state h start ≡ s)
unfolding open_state
open_state-start h w s v e =
    let (created, w1, e1) =
      continue-inv (attempt (create (tmp_path_of h.final_path)) w) (with_file h) e in
    with_file-start h created w1 s v e1

new-IsValid_at :
    (payload : List ℕ) (out : Option FilePath) (w : World) (s : ReceiveState) (v : World)
    (r : Result InitHeader InitError)
    → All IsByte payload
    → parse_init payload out ≡ r
    → new payload out w ≡ (returned (ok s), v)
    → IsValid s
unfolding new
new-IsValid_at payload out w s v (err x) b p e = cc (rw (p, new) at e)
new-IsValid_at payload out w s v (ok h) b p e =
    let (start, same) = open_state-start h w s v (rw (p, new) at e) in
    subst IsValid same (start_state-IsValid h start (parse_init-Accepted payload out h b p).init)

-- Whatever bytes an INIT carries: when `new` returns a state, that state has the invariant.
pub new-IsValid :
    (payload : List ℕ) (out : Option FilePath) (w : World) (s : ReceiveState) (v : World)
    → All IsByte payload
    → new payload out w ≡ (returned (ok s), v)
    → IsValid s
new-IsValid payload out w s v b e =
    new-IsValid_at payload out w s v (parse_init payload out) b refl e
