-- ===== src/Examples/Links.antt =====
-- The sender of Examples/Rounds at the receiver of Examples/Receives.
use mathlib.Core.List.{Memᴰ}
use udpcp.Base.{ℕ, ◌≡◌, refl, sym, subst, List, [], ◌∷◌, none, All, arith}
use udpcp.Report.{SocketAddr}
use udpcp.Recv.Loop.{receive_loop}
use udpcp.Send.Run.{run_send}
use udpcp.EndToEnd.Carried.{
  Carried, IsCarried, IsLink, IsCopy, Transferred, receive_loop-Transferred, receive_loop-IsCopy,
}
use udpcp.EndToEnd.Confirmed.{IsLoop, each-ComesSingle, run_send-IsCopy}
use udpcp.Recv.Loop.Confirming.{ComesSingle, Confirms, receive_loop-Confirms}
use udpcp.Recv.Init.{choose_path}
use udpcp.Error.{ok}
use udpcp.Examples.Toy.{toy_sha, peer}
use udpcp.Examples.Rounds.{at_home, small_chunks, resolved, answers, sends_file, home_returned}
use udpcp.Examples.Receives.{
  offer, chunk, done_packet, fin_ack_packet, arrivals, network, once, arrivals-IsBytes,
  file_arrives, receiver_sends,
}

abbrev wire : List (SocketAddr × List ℕ)
wire = (peer, offer) ∷ (peer, chunk) ∷ (peer, done_packet) ∷ (peer, fin_ack_packet) ∷ []

from_wire : {d : List ℕ} → Memᴰ (peer, d) wire → Carried wire d
from_wire m = record { to = peer; member = m }

wire_carries : All (IsCarried wire) arrivals
wire_carries = (
  from_wire (Memᴰ.head refl),
  (
    tt,
    (
      from_wire (Memᴰ.tail (Memᴰ.head refl)),
      (
        from_wire (Memᴰ.tail (Memᴰ.tail (Memᴰ.head refl))),
        (from_wire (Memᴰ.tail (Memᴰ.tail (Memᴰ.tail (Memᴰ.head refl)))), tt),
      ),
    ),
  ),
)

link : IsLink toy_sha small_chunks (b'f' ∷ []) resolved at_home none network
unfolding udpcp.Send.Run.source_name udpcp.Recv.Paths.file_name udpcp.Base.bytes_eq
link = record {
  fresh = refl;
  short = omega arith;
  carried = subst (λ sent. All (IsCarried sent) arrivals) (sym sends_file) wire_carries;
  blocks = refl;
  bytes = arrivals-IsBytes;
}

receive_loop-Transferred_example :
    Transferred toy_sha
      (1 ∷ 2 ∷ 3 ∷ [])
      (b'f' ∷ [])
      none
      network.files
      (receive_loop toy_sha none once network).1.files
      (b'f' ∷ [])
unfolding udpcp.Send.Run.source_name udpcp.Recv.Paths.file_name udpcp.Base.bytes_eq
    udpcp.Io.FileOps.contents
receive_loop-Transferred_example =
    receive_loop-Transferred toy_sha small_chunks (b'f' ∷ []) resolved at_home none network link
      once (b'f' ∷ [])

receive_loop-IsCopy_example :
    (path : List ℕ) × IsCopy toy_sha
      (1 ∷ 2 ∷ 3 ∷ [])
      (b'f' ∷ [])
      none
      (receive_loop toy_sha none once network).1.files
      path
unfolding udpcp.Send.Run.source_name udpcp.Recv.Paths.file_name udpcp.Base.bytes_eq
    udpcp.Io.FileOps.contents
receive_loop-IsCopy_example =
    receive_loop-IsCopy toy_sha small_chunks (b'f' ∷ []) resolved at_home none network link once
      file_arrives.1

abbrev back : List (SocketAddr × List ℕ)
back = (peer, 2 ∷ 0 ∷ 0 ∷ 0 ∷ 0 ∷ 0 ∷ 0 ∷ []) ∷ (peer, 6 ∷ 0 ∷ 0 ∷ 0 ∷ 0 ∷ 0 ∷ 0 ∷ []) ∷ []

back_carries : All (IsCarried back) answers
back_carries = (
  record { to = peer; member = Memᴰ.head refl },
  (record { to = peer; member = Memᴰ.tail (Memᴰ.head refl) }, tt),
)

round_trip : IsLoop toy_sha small_chunks (b'f' ∷ []) resolved at_home none network once
round_trip = record {
  link = link;
  quiet = refl;
  answers = subst (λ sent. All (IsCarried sent) answers) (sym receiver_sends) back_carries;
}

run_send-IsCopy_example :
    (path : List ℕ) × IsCopy toy_sha
      (1 ∷ 2 ∷ 3 ∷ [])
      (b'f' ∷ [])
      none
      (receive_loop toy_sha none once network).1.files
      path
unfolding udpcp.Send.Run.source_name udpcp.Recv.Paths.file_name udpcp.Base.bytes_eq
    udpcp.Io.FileOps.contents
run_send-IsCopy_example =
    run_send-IsCopy toy_sha small_chunks (b'f' ∷ []) resolved at_home none network once round_trip
      home_returned

name_fits : choose_path (b'f' ∷ 0 ∷ []) none ≡ ok (b'f' ∷ [])
unfolding choose_path udpcp.Recv.Init.until_nul udpcp.Recv.Utf8.from_utf8
    udpcp.Recv.Utf8.any_control udpcp.Recv.Utf8.is_control udpcp.Recv.Paths.file_name
    udpcp.Base.bytes_eq
name_fits = refl

each_single : All (ComesSingle toy_sha none (b'f' ∷ []) (toy_sha.digest (1 ∷ 2 ∷ 3 ∷ []))) arrivals
unfolding udpcp.Send.Run.source_name udpcp.Recv.Paths.file_name udpcp.Base.bytes_eq
    udpcp.Io.FileOps.contents
each_single =
    each-ComesSingle toy_sha small_chunks (b'f' ∷ []) resolved at_home none network once round_trip
      (b'f' ∷ []) (toy_sha.digest (1 ∷ 2 ∷ 3 ∷ [])) arrivals
      (λ p h same chosen. (cc (chosen, name_fits), same)) link.carried arrivals-IsBytes

receive_loop-Confirms_example :
    Confirms toy_sha none
      (b'f' ∷ [])
      (toy_sha.digest (1 ∷ 2 ∷ 3 ∷ []))
      (receive_loop toy_sha none once network).1.files
      (receive_loop toy_sha none once network).1.sent
receive_loop-Confirms_example =
    receive_loop-Confirms toy_sha none (b'f' ∷ []) (toy_sha.digest (1 ∷ 2 ∷ 3 ∷ [])) once network
      refl refl each_single
