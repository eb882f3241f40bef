-- ===== src/NatManager/Calls.antt =====
-- leaf/src/app/nat_manager.rs: calls of the manager, and what one client expects of them.
use i_leaf.Prelude.{
  ℕ, ◌+◌, ◌-◌, ◌≡◌, List, [], ◌∷◌, ◌++◌, length, All, ◌⊎◌, leb, if◌then◌else◌, Option, none, some,
}
use i_leaf.Prelude.Assoc.{lookup}
use i_leaf.Session.{SocketAddr}
use i_leaf.NatManager.{
  same_socket, socket_eq, Entry, NatManager, UdpPacket, Received, sweep, send, add_session,
}
use i_leaf.NatManager.Steps.{after_downlink, ends, entry_after}

-- What is done to the manager: the timeout check, `send`, `add_session` with whether `dispatch_udp`
-- gives a socket, and a round of a client's downlink.
pub data Call : Type 0 where
  checks : Call
  sends : SocketAddr → UdpPacket → Call
  opens : SocketAddr → Option (Unit {0}) → Call
  receives : SocketAddr → Received → Call

abbrev pub after_call : ℕ → Call → NatManager → NatManager
after_call now checks s = sweep now s
after_call now (sends key pkt) s = send now key pkt s
after_call now (opens key socket) s = (add_session now key socket s).1
after_call now (receives key r) s = after_downlink now key r s

-- The calls with the times they come at.
abbrev pub run : List (ℕ × Call) → NatManager → NatManager
run [] s = s
run ((now, call) ∷ calls) s = run calls (after_call now call s)

-- One client: its session, and the tasks of its sessions that were idle for too long.
pub record Client : Type 0 where
  pub entry : Option Entry
  pub timed_out : List ℕ

abbrev pub new_client : Client
new_client = record { entry = none; timed_out = [] }

-- A session that was active less than 30 seconds ago stays.
abbrev pub checked : ℕ → Client → Option Entry → Client
checked now c none = c
checked now c (some e) =
    if leb 30 (now - e.last_active)
    then record { entry = none; timed_out = e.abort_handle ∷ c.timed_out }
    else c

-- The channel takes a packet while it holds less than 100.
abbrev pub queued : ℕ → UdpPacket → Option Entry → Option Entry
queued now pkt none = none
queued now pkt (some e) = some (record {
  queue = if leb 100 (length e.queue) then e.queue else e.queue ++ (pkt ∷ []);
  abort_handle = e.abort_handle;
  last_active = now;
})

-- What a call does to its own client, where `tasks` tasks were spawned before.
abbrev pub own_call : ℕ → ℕ → Call → Option Entry → Option Entry
own_call tasks now checks e = e
own_call tasks now (sends key pkt) e = queued now pkt e
own_call tasks now (opens key none) e = e
own_call tasks now (opens key (some socket)) e =
    some (record { queue = []; abort_handle = tasks; last_active = now })
own_call tasks now (receives key r) e = entry_after now (ends r) e

abbrev pub client_after : SocketAddr → ℕ → ℕ → Call → Client → Client
client_after client tasks now checks c = checked now c c.entry
client_after client tasks now (sends key pkt) c = record c {
  entry = if same_socket key client then own_call tasks now (sends key pkt) c.entry else c.entry;
}
client_after client tasks now (opens key socket) c = record c {
  entry = if same_socket key client then own_call tasks now (opens key socket) c.entry else c.entry;
}
client_after client tasks now (receives key r) c = record c {
  entry = if same_socket key client then own_call tasks now (receives key r) c.entry else c.entry;
}

abbrev pub spawned : Call → ℕ → ℕ
spawned (opens key (some socket)) tasks = tasks + 1
spawned call tasks = tasks

abbrev pub client_run : SocketAddr → List (ℕ × Call) → ℕ → Client → Client
client_run client [] tasks c = c
client_run client ((now, call) ∷ calls) tasks c =
    client_run client calls (spawned call tasks) (client_after client tasks now call c)

abbrev pub Among : ℕ → List ℕ → Type 0
Among h [] = ⊥
Among h (a ∷ hs) = (h ≡ a) ⊎ Among h hs

-- The table has the client's session, and the tasks of the ones that timed out were aborted.
abbrev pub Agrees : SocketAddr → NatManager → Client → Type 0
Agrees client s c =
    (lookup client s.sessions ≡ c.entry) × All (λ (h : ℕ). Among h s.aborted) c.timed_out
