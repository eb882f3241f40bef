-- ===== src/Socks/Handshake.antt =====
-- leaf/src/proxy/socks/inbound/tcp.rs: what the server makes of a client that offers the method 0.
use i_leaf.Prelude.{
  ℕ, suc, ◌+◌, ◌%◌, ◌≡◌, ◌≢◌, refl, sym, ap, ◌∙◌, List, [], ◌∷◌, ◌++◌, length, length-append, All,
  false, ◌==◌, some, Outcome, ok, arith,
}
use i_leaf.Prelude.Stream.{IoError, read_exact, read_exact-append}
use i_leaf.Session.{
  IpAddr, SocksAddr, empty_ipv4, port_last, write_buf, IsAddr, FitsWire, canonical,
}
use i_leaf.Session.RoundTrip.{read_from-write_buf}
use i_leaf.Socks.{dispatched, method_index, response, respond, request, answer, handshake}

-- A connection that takes every write, as the list of what it took.
abbrev pub keep : List ℕ → List ℕ → Outcome IoError (List ℕ)
keep w bytes = ok (w ++ bytes)

method_index-append :
    (i : ℕ) (before after : List ℕ)
    → All (λ (m : ℕ). m ≢ 0) before
    → method_index i (before ++ (0 ∷ after)) ≡ some ((i + length before) % 256)
unfolding method_index
method_index-append i [] after h =
    let here : i + 0 ≡ i = omega arith in ap (λ (n : ℕ). some (n % 256)) (sym here)
method_index-append i (m ∷ before) after (h, hs) =
    let other : (m == 0) ≡ false = ground arith in
    let next : suc i + length before ≡ i + suc (length before) = omega arith in
    rw other (method_index-append (suc i) before after hs ∙ ap (λ (n : ℕ). some (n % 256)) next)

request_lem :
    (bind_addr : IpAddr) (port : ℕ) (a : SocksAddr) (w rest : List ℕ)
    → IsAddr a
    → FitsWire a
    → request keep bind_addr port w (5 ∷ 1 ∷ 0 ∷ (write_buf a [] port_last ++ rest))
      ≡ dispatched (w ++ response keep bind_addr port empty_ipv4) rest (canonical a)
unfolding request respond read_exact
request_lem bind_addr port a w rest h f = rw (read_from-write_buf a rest h f) refl

-- The server answers a client that offers the method 0 behind other methods with the index of that
-- method in the client's list, and then serves its CONNECT request: the destination is the
-- client's, what follows stays for the session, and the response names the address 0.0.0.0:0.
pub handshake_lem :
    (bind_addr : IpAddr) (port : ℕ) (before after : List ℕ) (a : SocksAddr) (rest : List ℕ)
    → All (λ (m : ℕ). m ≢ 0) before
    → IsAddr a
    → FitsWire a
    → handshake keep bind_addr port [] (
        5
        ∷ length (before ++ (0 ∷ after))
        ∷ ((before ++ (0 ∷ after)) ++ (5 ∷ 1 ∷ 0 ∷ (write_buf a [] port_last ++ rest))))
      ≡ dispatched
          ((5 ∷ (length before % 256) ∷ []) ++ response keep bind_addr port empty_ipv4)
          rest
          (canonical a)
unfolding handshake answer read_exact
handshake_lem bind_addr port before after a rest h k f =
    let methods : List ℕ = before ++ (0 ∷ after) in
    let start_at_0 : 0 + length before ≡ length before = omega arith in
    let some_method : (length methods == 0) ≡ false =
      ground (arith, length-append before (0 ∷ after)) in
    rw
      (
        some_method,
        read_exact-append (length methods) methods (5 ∷ 1 ∷ 0 ∷ (write_buf a [] port_last ++ rest))
            refl,
        method_index-append 0 before after h,
        start_at_0,
      )
      (request_lem bind_addr port a (5 ∷ (length before % 256) ∷ []) rest k f)
