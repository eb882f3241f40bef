-- ===== src/NatManager/Client.antt =====
-- leaf/src/app/nat_manager.rs: what one client sees of the manager, whatever the other clients do.
use i_leaf.Prelude.{
  ℕ, ◌-◌, ◌==◌, ◌≡◌, refl, sym, ap, ◌∙◌, List, [], ◌∷◌, ◌++◌, length, All, Bool, true, false, leb,
  ltb, if◌then◌else◌, Bool-cases, inl, inr, none, some, Option-cases, arith,
}
use i_leaf.Prelude.Assoc.{lookup, lookup-insert}
use i_leaf.Session.{SocketAddr, socket_port}
use i_leaf.NatManager.{
  same_socket, same_socket_iff, socket_eq, Entry, NatManager, UdpPacket, Received, recv_failed,
  recv_ok, touched, answered, downlink_packet, is_idle, ended, sweep, try_send, send, add_session,
  downlink, new_manager,
}
use i_leaf.NatManager.Table.{
  Sessions, IsUnique, kept, lookup-retained, IsUnique-insert, IsUnique-remove, IsUnique-retained,
}
use i_leaf.NatManager.Steps.{after_downlink, downlink_lem}
use i_leaf.NatManager.Calls.{
  Call, after_call, run, Client, new_client, checked, queued, client_after, spawned, client_run,
  Among, Agrees, checks, sends, opens, receives,
}

queued_lem :
    (now : ℕ) (pkt : UdpPacket) (e : Entry)
    → some (record e { queue = try_send e.queue pkt; last_active = now }) ≡ queued now pkt (some e)
queued_lem now pkt e = elim (Bool-cases (leb 100 (length e.queue))) [
  | inl full ↦ let no : ltb (length e.queue) 100 ≡ false = ground arith in rw (full, no) refl
  | inr room ↦ let yes : ltb (length e.queue) 100 ≡ true = ground arith in rw (room, yes) refl
]

lookup-send :
    (now : ℕ) (key client : SocketAddr) (pkt : UdpPacket) (s : NatManager)
    → lookup client (send now key pkt s).sessions ≡ (
        if same_socket key client
        then queued now pkt (lookup client s.sessions)
        else lookup client s.sessions)
unfolding send
lookup-send now key client pkt s = elim (Option-cases (lookup key s.sessions)) [
  | inl gone ↦ elim (Bool-cases (same_socket key client)) [
    | inl same ↦
        let eq : key ≡ client = (same_socket_iff key client).0 same in
        let gone' = rw eq at gone in rw (gone, same, gone') refl
    | inr apart ↦ rw (gone, apart) refl
  ]
  | inr (e, found) ↦
      let new = record e { queue = try_send e.queue pkt; last_active = now } in
      elim (Bool-cases (same_socket key client)) [
        | inl same ↦
            let eq : key ≡ client = (same_socket_iff key client).0 same in
            let found' = rw eq at found in
            rw (found, lookup-insert key client new s.sessions, same, found') (queued_lem now pkt e)
        | inr apart ↦ rw (found, lookup-insert key client new s.sessions, apart) refl
      ]
]

Among-append : (h : ℕ) (xs ys : List ℕ) → Among h ys → Among h (xs ++ ys)
Among-append h [] ys i = i
Among-append h (x ∷ xs) ys i = inr (Among-append h xs ys i)

All-Among : (xs hs ys : List ℕ) → All (λ h. Among h ys) hs → All (λ h. Among h (xs ++ ys)) hs
All-Among xs [] ys a = tt
All-Among xs (h ∷ hs) ys (i, a) = (Among-append h xs ys i, All-Among xs hs ys a)

ended-Among :
    (now : ℕ) (key : SocketAddr) (e : Entry) (m : Sessions) (hs : List ℕ)
    → lookup key m ≡ some e
    → is_idle now e ≡ true
    → Among e.abort_handle (ended now m ++ hs)
unfolding ended lookup
ended-Among now key e [] hs found idle = absurd cc
ended-Among now key e ((j, v) ∷ m) hs found idle = elim (Bool-cases (same_socket j key)) [
  | inl same ↦
      let here : some v ≡ some e = rw same at found in
      let eq : v ≡ e = cc in
      let idle' : is_idle now v ≡ true = cc in
      rw idle' (inl (ap (λ (e : Entry). e.abort_handle) (sym eq)))
  | inr other ↦
      let later = ended-Among now key e m hs (rw other at found) idle in
      elim (Bool-cases (is_idle now v)) [
        | inl gone ↦ rw gone (inr later)
        | inr busy ↦ rw busy later
      ]
]

checks-Agrees :
    (client : SocketAddr) (now : ℕ) (s : NatManager) (c : Client)
    → IsUnique s.sessions
    → Agrees client s c
    → Agrees client (sweep now s) (checked now c c.entry)
unfolding sweep is_idle
checks-Agrees client now s c u (same, a) =
    let kept_all = All-Among (ended now s.sessions) c.timed_out s.aborted a in
    let stays = lookup-retained now client s.sessions u in
    elim (Option-cases c.entry) [
      | inl gone ↦ let none_yet = same ∙ gone in rw gone (stays ∙ ap (kept now) none_yet, kept_all)
      | inr (e, found) ↦
          let held = same ∙ found in
          elim (Bool-cases (leb 30 (now - e.last_active))) [
            | inl idle ↦
                let i = ended-Among now client e s.sessions s.aborted held idle in
                rw (found, idle) (stays ∙ ap (kept now) held ∙ (rw idle refl), (i, kept_all))
            | inr busy ↦ rw (found, busy) (stays ∙ ap (kept now) held ∙ (rw busy refl), kept_all)
          ]
    ]

-- Neither `send` nor the downlink aborts a task, and neither spawns one.
aborted-send :
    (now : ℕ) (key : SocketAddr) (pkt : UdpPacket) (s : NatManager)
    → (send now key pkt s).aborted ≡ s.aborted
unfolding send
aborted-send now key pkt s = elim (Option-cases (lookup key s.sessions)) [
  | inl gone ↦ rw gone refl
  | inr (e, found) ↦ rw found refl
]

touched_keeps :
    (now : ℕ) (key : SocketAddr) (s : NatManager)
    → IsUnique s.sessions
    → ((touched now key (lookup key s.sessions) s).aborted ≡ s.aborted)
      × ((touched now key (lookup key s.sessions) s).tasks ≡ s.tasks)
      × IsUnique (touched now key (lookup key s.sessions) s).sessions
touched_keeps now key s u = elim (Option-cases (lookup key s.sessions)) [
  | inl gone ↦ rw gone (refl, refl, u)
  | inr (e, found) ↦ rw found (refl, refl, IsUnique-insert key _ s.sessions u)
]

answered_keeps :
    (dns : Bool) (now : ℕ) (pkt : UdpPacket) (key : SocketAddr) (s : NatManager)
    → IsUnique s.sessions
    → ((answered dns now pkt key s).2.aborted ≡ s.aborted)
      × ((answered dns now pkt key s).2.tasks ≡ s.tasks)
      × IsUnique (answered dns now pkt key s).2.sessions
answered_keeps true now pkt key s u = (refl, refl, IsUnique-remove key s.sessions u)
answered_keeps false now pkt key s u = touched_keeps now key s u

downlink_keeps :
    (now : ℕ) (key : SocketAddr) (r : Received) (s : NatManager)
    → IsUnique s.sessions
    → ((after_downlink now key r s).aborted ≡ s.aborted)
      × ((after_downlink now key r s).tasks ≡ s.tasks)
      × IsUnique (after_downlink now key r s).sessions
unfolding downlink
downlink_keeps now key recv_failed s u = (refl, refl, IsUnique-remove key s.sessions u)
downlink_keeps now key (recv_ok [] addr) s u = (refl, refl, IsUnique-remove key s.sessions u)
downlink_keeps now key (recv_ok (b ∷ bytes) addr) s u =
    answered_keeps (socket_port addr == 53) now (downlink_packet (b ∷ bytes) addr key) key s u

call-Agrees :
    (client : SocketAddr) (now : ℕ) (call : Call) (s : NatManager) (c : Client)
    → IsUnique s.sessions
    → Agrees client s c
    → Agrees client (after_call now call s) (client_after client s.tasks now call c)
unfolding add_session
call-Agrees client now checks s c u a = checks-Agrees client now s c u a
call-Agrees client now (sends key pkt) s c u (same, a) =
    (rw (← same) (lookup-send now key client pkt s), rw (aborted-send now key pkt s) a)
call-Agrees client now (opens key none) s c u (same, a) =
    elim (Bool-cases (same_socket key client)) [
      | inl own ↦ rw own (same, a)
      | inr other ↦ rw other (same, a)
    ]
call-Agrees client now (opens key (some socket)) s c u (same, a) =
    let new : Entry = record { queue = []; abort_handle = s.tasks; last_active = now } in
    (rw (← same) (lookup-insert key client new s.sessions), a)
call-Agrees client now (receives key r) s c u (same, a) =
    let (going, out, entry) = downlink_lem now key client r s in
    (rw (← same) entry, rw ((downlink_keeps now key r s u).0) a)

spawned_lem :
    (now : ℕ) (call : Call) (s : NatManager)
    → IsUnique s.sessions
    → (after_call now call s).tasks ≡ spawned call s.tasks
unfolding sweep send add_session
spawned_lem now checks s u = refl
spawned_lem now (sends key pkt) s u = elim (Option-cases (lookup key s.sessions)) [
  | inl gone ↦ rw gone refl
  | inr (e, found) ↦ rw found refl
]
spawned_lem now (opens key none) s u = refl
spawned_lem now (opens key (some socket)) s u = refl
spawned_lem now (receives key r) s u = (downlink_keeps now key r s u).1

call-IsUnique :
    (now : ℕ) (call : Call) (s : NatManager)
    → IsUnique s.sessions
    → IsUnique (after_call now call s).sessions
unfolding sweep send add_session
call-IsUnique now checks s u = IsUnique-retained now s.sessions u
call-IsUnique now (sends key pkt) s u = elim (Option-cases (lookup key s.sessions)) [
  | inl gone ↦ rw gone u
  | inr (e, found) ↦ rw found (IsUnique-insert key _ s.sessions u)
]
call-IsUnique now (opens key none) s u = u
call-IsUnique now (opens key (some socket)) s u = IsUnique-insert key _ s.sessions u
call-IsUnique now (receives key r) s u = (downlink_keeps now key r s u).2

run-Agrees :
    (client : SocketAddr) (calls : List (ℕ × Call)) (s : NatManager) (c : Client)
    → IsUnique s.sessions
    → Agrees client s c
    → Agrees client (run calls s) (client_run client calls s.tasks c)
run-Agrees client [] s c u a = a
run-Agrees client ((now, call) ∷ calls) s c u a =
    let next = call-Agrees client now call s c u a in
    let rest =
      run-Agrees client calls (after_call now call s) (client_after client s.tasks now call c)
        (call-IsUnique now call s u) next in
    rw (spawned_lem now call s u) at rest

-- Whatever the other clients do, and in whatever order the calls come, each client sees a session of
-- its own: `add_session` opens an empty one with the next task where it gets a socket and changes
-- nothing where it does not, `send` puts a packet at the end of its channel unless 100 are there and
-- makes it active, a round of its downlink makes it active or, where the task ends, removes it, and
-- the timeout check removes it and aborts its task where it was active 30 seconds ago or more. The
-- other clients' calls change it in nothing but the number of the next task.
pub run-Client :
    (client : SocketAddr) (calls : List (ℕ × Call))
    → Agrees client (run calls new_manager) (client_run client calls 0 new_client)
unfolding new_manager lookup
run-Client client calls = run-Agrees client calls new_manager new_client tt (refl, tt)
