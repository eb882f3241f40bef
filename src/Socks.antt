-- ===== src/Socks.antt =====
-- leaf/src/proxy/socks/inbound/tcp.rs: the handshake of one client, from the bytes that it sends to
-- what the server writes and starts. A failed read or write closes the connection.
pub mod Handshake
mod Tests
use i_leaf.Prelude.{
  ℕ, zero, suc, ◌+◌, ◌%◌, List, [], ◌∷◌, ◌++◌, length, Bool, true, false, ◌||◌, not, ◌==◌,
  if◌then◌else◌, Option, none, some, Outcome, ok, err, panic,
}
use i_leaf.Prelude.Stream.{IoError, read_exact}
use i_leaf.Session.{IpAddr, SocksAddr, of_ip, empty_ipv4, port_last, write_buf, read_from}

-- How the task goes on: it closed the connection, it dispatches a session to the destination with
-- what the client sends next, or it waits for the end of a UDP association.
pub data Served (W : Type 0) : Type 0 where
  closed : W → Served W
  dispatched : W → List ℕ → SocksAddr → Served W
  associated : W → List ℕ → Served W
  panicked : Served W

-- `if let Err(e) = … { return; }`.
abbrev pub or_close {ℓ} :
    {W : Type 0} {A : Type ℓ} → Outcome IoError A → W → (A → Served W) → Served W
or_close (ok x) w k = k x
or_close (err e) w k = closed w
or_close panic w k = panicked

-- The loop over the methods, with the index of the first one that is 0.
unfoldable pub method_index : ℕ → List ℕ → Option ℕ
method_index i [] = none
method_index i (m ∷ ms) =
    let later = method_index (suc i) ms in if m == 0x0 then some (i % 256) else later

-- `buf[i]` of a buffer that `read_exact` filled.
abbrev pub byte_at : List ℕ → ℕ → Outcome IoError ℕ
byte_at [] i = panic
byte_at (b ∷ bs) zero = ok b
byte_at (b ∷ bs) (suc i) = byte_at bs i

module _ {W : Type 0} (write_all : W → List ℕ → Outcome IoError W) (bind_addr : IpAddr)
    (port : ℕ) where
  -- The response with the address that stands in it.
  unfoldable pub response : SocksAddr → List ℕ
  response addr = write_buf addr (0x05 ∷ 0x0 ∷ 0x0 ∷ []) port_last

  -- The last `match cmd`.
  unfoldable pub respond : ℕ → W → List ℕ → SocksAddr → Served W
  respond cmd w r destination =
      if cmd == 0x01
      then or_close (write_all w (response empty_ipv4)) w (λ w'. dispatched w' r destination)
      else if cmd == 0x03
      then or_close (write_all w (response (of_ip bind_addr port))) w (λ w'. associated w' r)
      else closed w

  -- The request: version, command and reserved byte, then the destination.
  unfoldable pub request : W → List ℕ → Served W
  unfolding respond
  request w r = or_close (read_exact 3 r) w (λ p. or_close (byte_at p.0 0) w (λ version.
      or_close (byte_at p.0 1) w (λ cmd. or_close (byte_at p.0 2) w (λ reserved.
        if not (version == 0x05)
        then closed w
        else if not (reserved == 0x0)
        then closed w
        else if (cmd == 0x01) || (cmd == 0x03)
        then or_close (read_from port_last p.1) w (λ q. respond cmd w q.1 q.0)
        else closed w))))

  -- The answer to the methods.
  unfoldable pub answer : Option ℕ → W → List ℕ → Served W
  unfolding request
  answer none w r = or_close (write_all w (0x05 ∷ 0xff ∷ [])) w closed
  answer (some i) w r = or_close (write_all w (0x05 ∷ i ∷ [])) w (λ w'. request w' r)

  unfoldable pub handshake : W → List ℕ → Served W
  unfolding answer
  handshake w r = or_close (read_exact 2 r) w (λ p. or_close (byte_at p.0 0) w (λ version.
      or_close (byte_at p.0 1) w (λ nmethods.
        if not (version == 0x05)
        then closed w
        else if nmethods == 0
        then closed w
        else or_close (read_exact nmethods p.1) w (λ q. answer (method_index 0 q.0) w q.1))))
