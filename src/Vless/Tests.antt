-- ===== src/Vless/Tests.antt =====
-- leaf/src/proxy/vless/udp.rs and leaf/src/proxy/vless/stream.rs: the statements at concrete inputs.
use i_leaf.Prelude.{
  ℕ, suc, ◌≡◌, refl, List, [], ◌∷◌, ◌++◌, length, map, true, false, some, ok, ◌>>=◌, arith,
}
use i_leaf.Prelude.Polls.{Event, not_ready, bytes}
use i_leaf.Prelude.Drain.{drain}
use i_leaf.Session.{SocketAddr, sock4}
use i_leaf.Vless.{vless_auth_stream, poll_read}
use i_leaf.Vless.Frames.{half, send_all, recv_all, delivered, recv_all-send_all_replies}
use i_leaf.Vless.Transparent.{drain-vless_auth_stream}

abbrev more : List (List ℕ)
more = (3 ∷ []) ∷ []

abbrev server : SocketAddr
server = sock4 0x08080808 53

vless_recv_all_example :
    (send_all server [] ((1 ∷ 2 ∷ []) ∷ more) >>= λ w.
    recv_all 1500 (suc (length more)) (half false server (0 ∷ 0 ∷ (w ++ (4 ∷ [])))))
    ≡ ok (map (delivered 1500 server) ((1 ∷ 2 ∷ []) ∷ more), half true server (4 ∷ []))
vless_recv_all_example =
    recv_all-send_all_replies 1500 server (1 ∷ 2 ∷ []) more (4 ∷ [])
      (omega arith, (omega arith, tt))

abbrev answers : List Event
answers = bytes (0 ∷ []) ∷ not_ready ∷ bytes (0 ∷ 1 ∷ 2 ∷ []) ∷ bytes (3 ∷ []) ∷ []

drain-vless_auth_stream_example :
    drain (poll_read 2) 20 vless_auth_stream answers ≡ some (1 ∷ 2 ∷ 3 ∷ [], ok tt)
drain-vless_auth_stream_example =
    drain-vless_auth_stream 2 20 answers (1 ∷ 2 ∷ 3 ∷ []) (omega arith)
      (omega arith, (omega arith, (omega arith, tt))) refl (omega arith)
