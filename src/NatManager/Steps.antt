-- ===== src/NatManager/Steps.antt =====
-- leaf/src/app/nat_manager.rs: the manager under any interleaving of its callers, its tasks and the
-- clock.
use i_leaf.Prelude.{
  ℕ, ◌+◌, ◌<◌, ◌≤◌, ◌≡◌, refl, List, [], ◌∷◌, Bool, true, false, not, Bool-cases, ◌==◌,
  if◌then◌else◌, inl, inr, Option, none, some, Option-cases, arith,
}
use i_leaf.Prelude.Assoc.{lookup, lookup-insert, lookup-remove}
use i_leaf.Session.{SocketAddr, ip_addr, socket_port}
use i_leaf.NatManager.{
  same_socket, same_socket_iff, socket_eq, Entry, NatManager, sweep, UdpPacket, send, add_session,
  Received, recv_ok, recv_failed, touched, answered, downlink, downlink_packet, removed,
  new_manager,
}
use i_leaf.NatManager.Table.{
  IsUnique, kept, lookup-retained, IsUnique-insert, IsUnique-remove, IsUnique-retained, Entries,
  Entries-insert, Entries-remove, Entries-retained, Entries-lookup, Entries-mono,
}

-- The manager after a round of the downlink loop.
abbrev pub after_downlink : ℕ → SocketAddr → Received → NatManager → NatManager
after_downlink now raddr r s = (downlink now raddr r s).2

pub data Step : ℕ → NatManager → ℕ → NatManager → Type 0 where
  ticks : (now d : ℕ) (s : NatManager) → Step now s (now + d) s
  sweeps : (now : ℕ) (s : NatManager) → Step now s now (sweep now s)
  sends :
      (now : ℕ) (key : SocketAddr) (pkt : UdpPacket) (s : NatManager)
      → Step now s now (send now key pkt s)
  adds :
      (now : ℕ) (raddr : SocketAddr) (socket : Option (Unit {0})) (s : NatManager)
      → Step now s now (add_session now raddr socket s).1
  receives :
      (now : ℕ) (raddr : SocketAddr) (r : Received) (s : NatManager)
      → Step now s now (after_downlink now raddr r s)

pub data Reached : ℕ → NatManager → Type 0 where
  starts : (now : ℕ) → Reached now new_manager
  steps : {now now' : ℕ} {s s' : NatManager} → Reached now s → Step now s now' s' → Reached now' s'

-- A session was active at the clock's time or before, and its task was spawned.
abbrev pub ActiveBy : ℕ → ℕ → Entry → Type 0
ActiveBy now tasks e = (e.last_active ≤ now) × (e.abort_handle < tasks)

abbrev pub IsValid : ℕ → NatManager → Type 0
IsValid now s = IsUnique s.sessions × Entries (ActiveBy now s.tasks) s.sessions

send-IsValid :
    (now : ℕ) (key : SocketAddr) (pkt : UdpPacket) (s : NatManager)
    → IsValid now s
    → IsValid now (send now key pkt s)
unfolding send
send-IsValid now key pkt s (u, a) = elim (Option-cases (lookup key s.sessions)) [
  | inl gone ↦ rw gone (u, a)
  | inr (e, found) ↦
      let (l, h) = Entries-lookup (ActiveBy now s.tasks) key e s.sessions found a in
      rw found (
        IsUnique-insert key _ s.sessions u,
        Entries-insert (ActiveBy now s.tasks) key _ s.sessions (omega arith, h) a,
      )
]

touched-IsValid :
    (now : ℕ) (raddr : SocketAddr) (s : NatManager)
    → IsValid now s
    → IsValid now (touched now raddr (lookup raddr s.sessions) s)
touched-IsValid now raddr s (u, a) = elim (Option-cases (lookup raddr s.sessions)) [
  | inl gone ↦ rw gone (u, a)
  | inr (e, found) ↦
      let (l, h) = Entries-lookup (ActiveBy now s.tasks) raddr e s.sessions found a in
      rw found (
        IsUnique-insert raddr _ s.sessions u,
        Entries-insert (ActiveBy now s.tasks) raddr _ s.sessions (omega arith, h) a,
      )
]

removed-IsValid :
    (now : ℕ) (raddr : SocketAddr) (s : NatManager) → IsValid now s → IsValid now (removed raddr s)
removed-IsValid now raddr s (u, a) =
    (IsUnique-remove raddr s.sessions u, Entries-remove (ActiveBy now s.tasks) raddr s.sessions a)

answered-IsValid :
    (dns : Bool) (now : ℕ) (pkt : UdpPacket) (raddr : SocketAddr) (s : NatManager)
    → IsValid now s
    → IsValid now (answered dns now pkt raddr s).2
answered-IsValid true now pkt raddr s v = removed-IsValid now raddr s v
answered-IsValid false now pkt raddr s v = touched-IsValid now raddr s v

downlink-IsValid :
    (now : ℕ) (raddr : SocketAddr) (r : Received) (s : NatManager)
    → IsValid now s
    → IsValid now (after_downlink now raddr r s)
unfolding downlink
downlink-IsValid now raddr recv_failed s v = removed-IsValid now raddr s v
downlink-IsValid now raddr (recv_ok [] addr) s v = removed-IsValid now raddr s v
downlink-IsValid now raddr (recv_ok (b ∷ bytes) addr) s v =
    answered-IsValid (socket_port addr == 53) now (downlink_packet (b ∷ bytes) addr raddr) raddr s v

add_session-IsValid :
    {D : Type 0} (now : ℕ) (raddr : SocketAddr) (socket : Option D) (s : NatManager)
    → IsValid now s
    → IsValid now (add_session now raddr socket s).1
unfolding add_session
add_session-IsValid now raddr none s v = v
add_session-IsValid now raddr (some socket) s (u, a) =
    let more =
      Entries-mono (ActiveBy now s.tasks) (ActiveBy now (s.tasks + 1)) s.sessions
        (λ e p. (p.0, omega arith)) a in
    let e : Entry = record { queue = []; abort_handle = s.tasks; last_active = now } in
    (
      IsUnique-insert raddr e s.sessions u,
      Entries-insert (ActiveBy now (s.tasks + 1)) raddr e s.sessions (omega arith, omega arith)
          more,
    )

Step-IsValid :
    {now now' : ℕ} {s s' : NatManager} → Step now s now' s' → IsValid now s → IsValid now' s'
Step-IsValid (ticks now d s) (u, a) = (
  u,
  Entries-mono (ActiveBy now s.tasks) (ActiveBy (now + d) s.tasks) s.sessions
      (λ e p. (omega arith, p.1)) a,
)
Step-IsValid (sweeps now s) (u, a) =
    unfold sweep in
    (IsUnique-retained now s.sessions u, Entries-retained (ActiveBy now s.tasks) now s.sessions a)
Step-IsValid (sends now key pkt s) v = send-IsValid now key pkt s v
Step-IsValid (adds now raddr socket s) v = add_session-IsValid now raddr socket s v
Step-IsValid (receives now raddr r s) v = downlink-IsValid now raddr r s v

-- Under any interleaving of sends, new sessions, rounds of the downlink tasks, timeout checks and
-- the clock, no client has two sessions in the table, every session was active at the clock's
-- time or before, and its abort handle belongs to a task that was spawned.
pub Reached-IsValid : (now : ℕ) (s : NatManager) → Reached now s → IsValid now s
Reached-IsValid now _ (starts _) = unfold new_manager in (tt, tt)
Reached-IsValid now s (steps r step) = Step-IsValid step (Reached-IsValid _ _ r)

-- On any table that the manager reaches, a timeout check removes exactly the sessions whose last
-- activity is 30 seconds or more ago, and leaves every other session as it is.
pub lookup-sweep :
    (now : ℕ) (key : SocketAddr) (s : NatManager)
    → Reached now s
    → lookup key (sweep now s).sessions ≡ kept now (lookup key s.sessions)
unfolding sweep
lookup-sweep now key s r = lookup-retained now key s.sessions (Reached-IsValid now s r).0

-- Whether the downlink task ends: at an error, at an empty packet, behind a packet from port 53.
abbrev pub ends : Received → Bool
ends recv_failed = true
ends (recv_ok [] addr) = true
ends (recv_ok (b ∷ bytes) addr) = socket_port addr == 53

-- What comes from the target for the client.
abbrev pub forwarded : SocketAddr → Received → List UdpPacket
forwarded raddr recv_failed = []
forwarded raddr (recv_ok [] addr) = []
forwarded raddr (recv_ok (b ∷ bytes) addr) =
    (record {
      payload = b ∷ bytes;
      src_addr = some (ip_addr addr);
      dst_addr = some (ip_addr raddr);
    })
    ∷ []

abbrev pub active : ℕ → Option Entry → Option Entry
active now none = none
active now (some e) = some (record e { last_active = now })

-- A session's entry after a round of its downlink.
abbrev pub entry_after : ℕ → Bool → Option Entry → Option Entry
entry_after now true e = none
entry_after now false e = active now e

lookup-touched :
    (now : ℕ) (raddr other : SocketAddr) (s : NatManager)
    → lookup other (touched now raddr (lookup raddr s.sessions) s).sessions ≡ (
        if same_socket raddr other
        then active now (lookup other s.sessions)
        else lookup other s.sessions)
lookup-touched now raddr other s = elim (Bool-cases (same_socket raddr other)) [
  | inl same ↦
      let eq : raddr ≡ other = (same_socket_iff raddr other).0 same in
      elim (Option-cases (lookup raddr s.sessions)) [
        | inl gone ↦ let gone' = rw eq at gone in rw (gone, same, gone') refl
        | inr (e, found) ↦
            let found' = rw eq at found in
            rw
              (
                found,
                lookup-insert raddr other (record e { last_active = now }) s.sessions,
                same,
                found',
              )
              refl
      ]
  | inr apart ↦ elim (Option-cases (lookup raddr s.sessions)) [
    | inl gone ↦ rw (gone, apart) refl
    | inr (e, found) ↦
        rw (found, lookup-insert raddr other (record e { last_active = now }) s.sessions, apart)
          refl
  ]
]

lookup-answered :
    (dns : Bool) (now : ℕ) (pkt : UdpPacket) (raddr other : SocketAddr) (s : NatManager)
    → ((answered dns now pkt raddr s).0 ≡ not dns)
      × ((answered dns now pkt raddr s).1 ≡ pkt ∷ [])
      × (lookup other (answered dns now pkt raddr s).2.sessions ≡ (
          if same_socket raddr other
          then entry_after now dns (lookup other s.sessions)
          else lookup other s.sessions))
lookup-answered true now pkt raddr other s = (refl, refl, lookup-remove raddr other s.sessions)
lookup-answered false now pkt raddr other s = (refl, refl, lookup-touched now raddr other s)

-- A round of a session's downlink task. The task ends at an error, at an empty packet and behind a
-- packet from port 53, and at nothing else; a packet that is not empty goes to the client, with the
-- target as its source, whether the task ends or not. Where the task ends its client has no session
-- any more, where it goes on the session is active now, if it is still there, and every other
-- client's session is as it was.
pub downlink_lem :
    (now : ℕ) (raddr other : SocketAddr) (r : Received) (s : NatManager)
    → ((downlink now raddr r s).0 ≡ not (ends r))
      × ((downlink now raddr r s).1 ≡ forwarded raddr r)
      × (lookup other (downlink now raddr r s).2.sessions ≡ (
          if same_socket raddr other
          then entry_after now (ends r) (lookup other s.sessions)
          else lookup other s.sessions))
unfolding downlink
downlink_lem now raddr other recv_failed s = (refl, refl, lookup-remove raddr other s.sessions)
downlink_lem now raddr other (recv_ok [] addr) s =
    (refl, refl, lookup-remove raddr other s.sessions)
downlink_lem now raddr other (recv_ok (b ∷ bytes) addr) s =
    lookup-answered (socket_port addr == 53) now (downlink_packet (b ∷ bytes) addr raddr) raddr
      other s
