-- ===== src/Vless/Frames.antt =====
-- leaf/src/proxy/vless/udp.rs: what `recv_from` makes of the response header and of the frames
-- that `send_to` writes.
use i_leaf.Prelude.{
  ℕ, zero, suc, ◌+◌, ◌%◌, ◌^◌, ◌<◌, ◌≡◌, ◌≢◌, if◌then◌else◌, >>=-eq-ok, refl, sym, ap, ◌∙◌, List,
  [], ◌∷◌, ◌++◌, length, take, drop, take-all, drop-all, All, Bool, true, false, Outcome, ok, err,
  ◌>>=◌, ◌==◌, map, arith,
}
use i_leaf.Prelude.Bytes.{to_be}
use i_leaf.Prelude.Stream.{
  IoError, invalid_version, read_exact, read_be, read_be-to_be, read_payload,
}
use i_leaf.Session.{SocketAddr, ip_addr, domain_addr}
use i_leaf.Vless.{frame, send_to, RecvHalf, read_header, sender, copied, recv_from}
use mathlib.Core.List.{append_assoc, append-nil}

-- Where the half stands in front of `r`, with the header read or not.
abbrev pub half : Bool → SocketAddr → List ℕ → RecvHalf
half flag a r = record { stream = r; target = ip_addr a; header_read = flag }

recv_from-frame :
    (size : ℕ) (payload rest : List ℕ) (a : SocketAddr)
    → recv_from size (half true a (frame payload ++ rest))
      ≡ ok (
        (copied size (take (length payload % 2 ^ 16) payload), a),
        half true a (drop (length payload % 2 ^ 16) payload ++ rest),
      )
unfolding recv_from read_header sender frame
recv_from-frame size payload rest a =
    let n = length payload % 2 ^ 16 in
    rw
      (
        append_assoc (to_be 2 n) payload rest,
        read_be-to_be 2 n (payload ++ rest) (omega arith),
        read_payload n payload rest (omega arith),
      )
      refl

abbrev pub keep : List ℕ → List ℕ → Outcome IoError (List ℕ)
keep w bytes = ok (w ++ bytes)

unfoldable pub send_all : SocketAddr → List ℕ → List (List ℕ) → Outcome IoError (List ℕ)
send_all a w [] = ok w
send_all a w (p ∷ ps) = do (n, w') ← send_to keep w p a; send_all a w' ps

unfoldable pub recv_all : ℕ → ℕ → RecvHalf → Outcome IoError (List (List ℕ × SocketAddr) × RecvHalf)
recv_all size zero s = ok ([], s)
recv_all size (suc n) s = do
  (p, s1) ← recv_from size s
  (ps, rest) ← recv_all size n s1
  ok (p ∷ ps, rest)

abbrev pub Fits : List ℕ → Type 0
Fits p = length p < 2 ^ 16

abbrev pub delivered : ℕ → SocketAddr → List ℕ → List ℕ × SocketAddr
delivered size a p = (copied size p, a)

abbrev frames : List (List ℕ) → List ℕ
frames [] = []
frames (p ∷ ps) = frame p ++ frames ps

send_all-frames :
    (a : SocketAddr) (w : List ℕ) (ps : List (List ℕ)) → send_all a w ps ≡ ok (w ++ frames ps)
unfolding send_all send_to
send_all-frames a w [] = ap ok (sym (append-nil w))
send_all-frames a w (p ∷ ps) =
    send_all-frames a (w ++ frame p) ps ∙ ap ok (append_assoc w (frame p) (frames ps))

recv_whole :
    (size : ℕ) (p rest : List ℕ) (a : SocketAddr)
    → Fits p
    → recv_from size (half true a (frame p ++ rest)) ≡ ok (delivered size a p, half true a rest)
recv_whole size p rest a h =
    let n : length p % 2 ^ 16 ≡ length p = omega arith in
    rw (recv_from-frame size p rest a, n, take-all p, drop-all p) refl

recv_all-frames :
    (size : ℕ) (a : SocketAddr) (ps : List (List ℕ)) (rest : List ℕ)
    → All Fits ps
    → recv_all size (length ps) (half true a (frames ps ++ rest))
      ≡ ok (map (delivered size a) ps, half true a rest)
unfolding recv_all
recv_all-frames size a [] rest h = refl
recv_all-frames size a (p ∷ ps) rest (h, hs) =
    rw
      (
        append_assoc (frame p) (frames ps) rest,
        recv_whole size p (frames ps ++ rest) a h,
        recv_all-frames size a ps rest hs,
      )
      refl

-- The first call reads the header, the later ones do not.
recv_from-header :
    (size : ℕ) (a : SocketAddr) (r : List ℕ)
    → recv_from size (half false a (0 ∷ 0 ∷ r)) ≡ recv_from size (half true a r)
unfolding recv_from read_header read_be read_exact
recv_from-header size a r = refl

-- Behind the response header of two zero bytes, payloads below 65536 bytes that are sent one after
-- the other come out one by one and in order, each cut to the reader's buffer and with the
-- session's target as the sender; what follows stays in the stream. There is at least one.
pub recv_all-send_all_replies :
    (size : ℕ) (a : SocketAddr) (p : List ℕ) (ps : List (List ℕ)) (rest : List ℕ)
    → All Fits (p ∷ ps)
    → (send_all a [] (p ∷ ps) >>= λ w.
        recv_all size (suc (length ps)) (half false a (0 ∷ 0 ∷ (w ++ rest))))
      ≡ ok (map (delivered size a) (p ∷ ps), half true a rest)
unfolding recv_all
recv_all-send_all_replies size a p ps rest h =
    rw (send_all-frames a [] (p ∷ ps), recv_from-header size a (frames (p ∷ ps) ++ rest))
      (recv_all-frames size a (p ∷ ps) rest h)

-- A first byte of the response that is not 0 is refused, whatever follows, and so is a second
-- one behind a first byte 0; once the header was read nothing is tested.
pub read_header_lem :
    (flag : Bool) (version addons : ℕ) (r : List ℕ)
    → read_header flag (version ∷ addons ∷ r) ≡ (
        if flag
        then ok (version ∷ addons ∷ r)
        else if version + addons == 0
        then ok r
        else err invalid_version)
unfolding read_header read_be read_exact
read_header_lem true version addons r = refl
read_header_lem false version addons r = ground arith

-- A session that was opened for a domain never delivers a datagram.
pub recv_from-named_target :
    (size : ℕ) (flag : Bool) (d r : List ℕ) (port : ℕ) (out : (List ℕ × SocketAddr) × RecvHalf)
    → recv_from size (record { stream = r; target = domain_addr d port; header_read = flag })
      ≢ ok out
unfolding recv_from sender
recv_from-named_target size flag d r port out h =
    let (r0, e0, h0) = >>=-eq-ok (read_header flag r) _ h in
    let (r1, e1, h1) = >>=-eq-ok (read_be 2 r0) _ h0 in
    let (r2, e2, h2) = >>=-eq-ok (read_exact r1.0 r1.1) _ h1 in cc
