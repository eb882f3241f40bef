-- ===== src/NatManager.antt =====
-- leaf/src/app/nat_manager.rs: the table of the UDP sessions, its sweep, and the steps of a
-- session's two tasks. `now` is the clock that `Instant` reads, in seconds; a channel is the queue of
-- the packets in it. What the dispatcher, the target's socket and the client's channel answer are
-- arguments.
pub mod Table
pub mod Steps
pub mod Calls
pub mod Client
mod Tests
use i_leaf.Prelude.{
  ℕ, ◌+◌, ◌-◌, ◌≡◌, ◌↔◌, arith, List, [], ◌∷◌, ◌++◌, length, Bool, true, false, ◌&&◌, leb, ltb,
  ◌==◌, if◌then◌else◌, Option, none, some,
}
use i_leaf.Prelude.Assoc.{Eq, lookup, insert, remove}
use i_leaf.Session.{SocketAddr, sock4, sock6, SocksAddr, ip_addr, domain_addr, socket_port}

-- `==` of `SocketAddr`.
abbrev pub same_socket : SocketAddr → SocketAddr → Bool
same_socket (sock4 ip port) (sock4 ip' port') = (ip == ip') && (port == port')
same_socket (sock4 ip port) (sock6 ip' port' flow scope) = false
same_socket (sock6 ip port flow scope) (sock4 ip' port') = false
same_socket (sock6 ip port flow scope) (sock6 ip' port' flow' scope') =
    ((ip == ip') && (port == port')) && ((flow == flow') && (scope == scope'))

pub same_socket_iff : (a b : SocketAddr) → (same_socket a b ≡ true) ↔ (a ≡ b)
same_socket_iff (sock4 ip port) (sock4 ip' port') = ground arith
same_socket_iff (sock4 ip port) (sock6 ip' port' flow scope) = ground arith
same_socket_iff (sock6 ip port flow scope) (sock4 ip' port') = ground arith
same_socket_iff (sock6 ip port flow scope) (sock6 ip' port' flow' scope') = ground arith

instance abbrev pub socket_eq : Eq SocketAddr
socket_eq = record { beq = same_socket; beq_iff = same_socket_iff }

abbrev pub session_timeout : ℕ
session_timeout = 30

-- The capacity of `mpsc::channel(100)`.
abbrev pub channel_size : ℕ
channel_size = 100

pub record UdpPacket : Type 0 where
  pub payload : List ℕ
  pub src_addr : Option SocksAddr
  pub dst_addr : Option SocksAddr

-- The channel to the target, the handle of the downlink task, and the last activity.
pub record Entry : Type 0 where
  pub queue : List UdpPacket
  pub abort_handle : ℕ
  pub last_active : ℕ

-- `checking`: the sweep's task was spawned. `tasks` numbers the downlink tasks, `aborted` lists the
-- ones that were aborted.
pub record NatManager : Type 0 where
  pub sessions : List (SocketAddr × Entry)
  pub checking : Bool
  pub tasks : ℕ
  pub aborted : List ℕ

unfoldable pub new_manager : NatManager
new_manager = record { sessions = []; checking = false; tasks = 0; aborted = [] }

-- `now.duration_since(sess.2).as_secs() >= UDP_SESSION_TIMEOUT`; the difference stops at 0.
unfoldable pub is_idle : ℕ → Entry → Bool
is_idle now e = leb session_timeout (now - e.last_active)

-- `retain`: the sessions that stay, and the handles that are aborted.
unfoldable pub retained : ℕ → List (SocketAddr × Entry) → List (SocketAddr × Entry)
retained now [] = []
retained now ((k, e) ∷ m) =
    let rest = retained now m in if is_idle now e then rest else (k, e) ∷ rest

unfoldable pub ended : ℕ → List (SocketAddr × Entry) → List ℕ
ended now [] = []
ended now ((k, e) ∷ m) =
    let rest = ended now m in if is_idle now e then e.abort_handle ∷ rest else rest

-- One round of the timeout check.
unfoldable pub sweep : ℕ → NatManager → NatManager
unfolding retained ended
sweep now s = record s {
  sessions = retained now s.sessions;
  aborted = ended now s.sessions ++ s.aborted;
}

unfoldable pub contains_key : SocketAddr → NatManager → Bool
contains_key key s = elim (lookup key s.sessions) [ none ↦ false | some e ↦ true ]

unfoldable pub size : NatManager → ℕ
size s = length s.sessions

-- `try_send` drops the packet where the channel is full.
abbrev pub try_send : List UdpPacket → UdpPacket → List UdpPacket
try_send queue pkt = if ltb (length queue) channel_size then queue ++ (pkt ∷ []) else queue

abbrev pub sent_to : ℕ → SocketAddr → UdpPacket → Option Entry → NatManager → NatManager
sent_to now key pkt none s = s
sent_to now key pkt (some e) s = record s {
  sessions = insert key (record e { queue = try_send e.queue pkt; last_active = now }) s.sessions;
}

unfoldable pub send : ℕ → SocketAddr → UdpPacket → NatManager → NatManager
send now key pkt s = sent_to now key pkt (lookup key s.sessions) s

-- The timeout check is spawned at the first call, whatever `dispatch_udp` answers: its error, which
-- is `none`, is the call's, and a socket gives the session an entry and a task.
unfoldable pub add_session :
    {D : Type 0} → ℕ → SocketAddr → Option D → NatManager → Bool × NatManager
add_session now raddr none s = (false, record s { checking = true })
add_session now raddr (some socket) s = (
  true,
  record {
    sessions =
        insert raddr (record { queue = []; abort_handle = s.tasks; last_active = now }) s.sessions;
    checking = true;
    tasks = s.tasks + 1;
    aborted = s.aborted;
  },
)

-- What `recv_from` gives the downlink task.
pub data Received : Type 0 where
  recv_failed : Received
  recv_ok : List ℕ → SocketAddr → Received

abbrev pub touched : ℕ → SocketAddr → Option Entry → NatManager → NatManager
touched now raddr none s = s
touched now raddr (some e) s = record s {
  sessions = insert raddr (record e { last_active = now }) s.sessions;
}

abbrev pub downlink_packet : List ℕ → SocketAddr → SocketAddr → UdpPacket
downlink_packet bytes addr raddr = record {
  payload = bytes;
  src_addr = some (ip_addr addr);
  dst_addr = some (ip_addr raddr);
}

abbrev pub removed : SocketAddr → NatManager → NatManager
removed raddr s = record s { sessions = remove raddr s.sessions }

-- Behind the packet for the client, by the test of port 53. The second such test, in the update of
-- the activity, is never true.
abbrev pub answered :
    Bool → ℕ → UdpPacket → SocketAddr → NatManager → Bool × List UdpPacket × NatManager
answered true now pkt raddr s = (false, pkt ∷ [], removed raddr s)
answered false now pkt raddr s = (true, pkt ∷ [], touched now raddr (lookup raddr s.sessions) s)

-- One round of the downlink loop: whether it goes on, what it hands to the client's channel, and
-- the manager.
unfoldable pub downlink :
    ℕ → SocketAddr → Received → NatManager → Bool × List UdpPacket × NatManager
downlink now raddr recv_failed s = (false, [], removed raddr s)
downlink now raddr (recv_ok [] addr) s = (false, [], removed raddr s)
downlink now raddr (recv_ok (b ∷ bytes) addr) s =
    answered (socket_port addr == 53) now (downlink_packet (b ∷ bytes) addr raddr) raddr s

-- One round of the uplink loop: what is sent to the target.
unfoldable pub uplink : UdpPacket → Option (List ℕ × SocketAddr)
uplink pkt = elim pkt.dst_addr [
  | none ↦ none
  | some (ip_addr a) ↦ some (pkt.payload, a)
  | some (domain_addr d port) ↦ none
]
