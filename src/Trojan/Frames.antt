-- ===== src/Trojan/Frames.antt =====
-- leaf/src/proxy/trojan/udp.rs: what `recv_from` makes of the frames that `send_to` writes.
use i_leaf.Prelude.{
  ℕ, zero, suc, ◌%◌, ◌^◌, ◌<◌, ◌≤◌, ◌≡◌, refl, sym, ap, ◌∙◌, List, [], ◌∷◌, ◌++◌, length, take,
  drop, drop-append_left, length-append, take-all, drop-all, All, Outcome, ok, err, ◌>>=◌, arith,
  map,
}
use i_leaf.Prelude.Bytes.{to_be}
use i_leaf.Prelude.Stream.{
  IoError, read_exact-append, read_be-to_be, unexpected_domain, read_payload,
}
use i_leaf.Prelude.Text.{text_eq_iff}
use i_leaf.Session.{
  SocketAddr, SocksAddr, sock4, sock6, ip_addr, domain_addr, port_last, write_buf, read_from,
  IsSocket, IsAddr, FitsWire, canonical, socket_of, socket_ip, socket_port, wire,
}
use i_leaf.Session.RoundTrip.{read_from-write_buf}
use i_leaf.Trojan.{crlf, request, frame, copied, received, recv_body, recv_from, send_to}
use mathlib.Core.List.{append_assoc, append-nil}

IsAddr-ip : (a : SocketAddr) → IsSocket a → IsAddr (ip_addr a)
IsAddr-ip (sock4 ip port) h = h
IsAddr-ip (sock6 ip port flow scope) h = h

recv_body_lem :
    (size n : ℕ) (addr : SocksAddr) (payload rest : List ℕ)
    → n < 2 ^ 16
    → n ≤ length payload
    → recv_body size addr (to_be 2 n ++ (crlf ++ (payload ++ rest)))
      ≡ received addr (copied size (take n payload)) (drop n payload ++ rest)
unfolding recv_body
recv_body_lem size n addr payload rest h l =
    rw
      (
        read_be-to_be 2 n (crlf ++ (payload ++ rest)) h,
        read_exact-append 2 crlf (payload ++ rest) refl,
        (text_eq_iff crlf crlf).1 refl,
        read_payload n payload rest l,
      )
      refl

frame_parts :
    (payload rest : List ℕ) (target : SocketAddr)
    → frame payload target ++ rest
      ≡ write_buf (ip_addr target) [] port_last
        ++ (to_be 2 (length payload % 2 ^ 16) ++ (crlf ++ (payload ++ rest)))
unfolding frame
frame_parts payload rest target = append_assoc (write_buf (ip_addr target) [] port_last) _ rest

-- Reading the frame of a payload of `n` bytes gives the first `n % 65536` of them, cut to the
-- buffer, with the target as sender, and leaves the other bytes in front of what follows: a
-- payload below 65536 bytes comes out whole, a longer one puts the reader out of step.
recv_from-frame :
    (size : ℕ) (payload rest : List ℕ) (target : SocketAddr)
    → IsSocket target
    → recv_from size (frame payload target ++ rest)
      ≡ ok (
        (
          copied size (take (length payload % 2 ^ 16) payload),
          socket_of (socket_ip target) (socket_port target),
        ),
        drop (length payload % 2 ^ 16) payload ++ rest,
      )
unfolding recv_from received
recv_from-frame size payload rest target h =
    let n = length payload % 2 ^ 16 in
    rw (frame_parts payload rest target) (
      rw (read_from-write_buf (ip_addr target) _ (IsAddr-ip target h) tt) (
        recv_body_lem size n (canonical (ip_addr target)) payload rest (omega arith) (omega arith)))

-- A writer that keeps the bytes, as the other end will read them.
abbrev pub keep : List ℕ → List ℕ → Outcome IoError (List ℕ)
keep w bytes = ok (w ++ bytes)

unfoldable pub send_all : List ℕ → List (List ℕ × SocketAddr) → Outcome IoError (List ℕ)
send_all w [] = ok w
send_all w (p ∷ ps) = do (n, w') ← send_to keep w p.0 p.1; send_all w' ps

unfoldable pub recv_all : ℕ → ℕ → List ℕ → Outcome IoError (List (List ℕ × SocketAddr) × List ℕ)
recv_all size zero r = ok ([], r)
recv_all size (suc n) r = do
  (p, r1) ← recv_from size r
  (ps, rest) ← recv_all size n r1
  ok (p ∷ ps, rest)

abbrev pub Sendable : List ℕ × SocketAddr → Type 0
Sendable p = (length p.0 < 2 ^ 16) × IsSocket p.1

abbrev pub delivered : ℕ → List ℕ × SocketAddr → List ℕ × SocketAddr
delivered size p = (copied size p.0, socket_of (socket_ip p.1) (socket_port p.1))

abbrev frames : List (List ℕ × SocketAddr) → List ℕ
frames [] = []
frames (p ∷ ps) = frame p.0 p.1 ++ frames ps

send_all-frames :
    (w : List ℕ) (ps : List (List ℕ × SocketAddr)) → send_all w ps ≡ ok (w ++ frames ps)
unfolding send_all send_to
send_all-frames w [] = ap ok (sym (append-nil w))
send_all-frames w (p ∷ ps) =
    send_all-frames (w ++ frame p.0 p.1) ps ∙ ap ok (append_assoc w (frame p.0 p.1) (frames ps))

recv_whole :
    (size : ℕ) (p : List ℕ × SocketAddr) (rest : List ℕ)
    → Sendable p
    → recv_from size (frame p.0 p.1 ++ rest) ≡ ok (delivered size p, rest)
recv_whole size p rest (h, k) =
    let n : length p.0 % 2 ^ 16 ≡ length p.0 = omega arith in
    rw (recv_from-frame size p.0 rest p.1 k, n, take-all p.0, drop-all p.0) refl

recv_all-frames :
    (size : ℕ) (ps : List (List ℕ × SocketAddr)) (rest : List ℕ)
    → All Sendable ps
    → recv_all size (length ps) (frames ps ++ rest) ≡ ok (map (delivered size) ps, rest)
unfolding recv_all
recv_all-frames size [] rest h = refl
recv_all-frames size (p ∷ ps) rest (h, hs) =
    rw
      (
        append_assoc (frame p.0 p.1) (frames ps) rest,
        recv_whole size p (frames ps ++ rest) h,
        recv_all-frames size ps rest hs,
      )
      refl

-- Datagrams below 65536 bytes that are sent one after the other come out of the stream one by one
-- and in order, each cut to the reader's buffer and with its target as the sender, and what
-- follows them stays in the stream.
pub recv_all-send_all :
    (size : ℕ) (ps : List (List ℕ × SocketAddr)) (rest : List ℕ)
    → All Sendable ps
    → (send_all [] ps >>= λ w. recv_all size (length ps) (w ++ rest))
      ≡ ok (map (delivered size) ps, rest)
recv_all-send_all size ps rest h = rw (send_all-frames [] ps) (recv_all-frames size ps rest h)

-- A peer that names the sender by a domain makes `recv_from` fail, after the frame was read.
pub recv_from-domain :
    (size : ℕ) (d payload rest : List ℕ) (port : ℕ)
    → IsAddr (domain_addr d port)
    → length d < 256
    → length payload < 2 ^ 16
    → recv_from size (
        write_buf (domain_addr d port) [] port_last
        ++ (to_be 2 (length payload) ++ (crlf ++ (payload ++ rest))))
      ≡ err unexpected_domain
unfolding recv_from received
recv_from-domain size d payload rest port h k l =
    rw (read_from-write_buf (domain_addr d port) _ h k)
      (recv_body_lem size (length payload) (domain_addr d port) payload rest l (omega arith))

-- Behind a digest of 56 bytes, the line break and the command, the request carries an address that
-- the port-last reader gives back, followed by the second line break.
read_from-request :
    (digest : List ℕ → List ℕ) (command : ℕ) (password : List ℕ) (destination : SocksAddr)
    → ((p : List ℕ) → length (digest p) ≡ 56)
    → IsAddr destination
    → FitsWire destination
    → read_from port_last (drop 59 (request digest command password destination))
      ≡ ok (canonical destination, crlf)
unfolding request write_buf
read_from-request digest command password destination len h f =
    let hd : List ℕ = digest password ++ (crlf ++ (command ∷ [])) in
    let n : length hd ≡ 59 =
      omega (arith, length-append (digest password) (crlf ++ (command ∷ [])), len password) in
    rw
      (
        ← n,
        append_assoc hd (wire destination port_last) crlf,
        drop-append_left hd (wire destination port_last ++ crlf),
      )
      (read_from-write_buf destination crlf h f)
