-- ===== src/NatManager/Tests.antt =====
-- leaf/src/app/nat_manager.rs: the statements at concrete inputs.
use i_leaf.Prelude.{◌+◌, ℕ, ◌≡◌, refl, List, [], ◌∷◌, true, not, if◌then◌else◌, none, some}
use i_leaf.Prelude.Assoc.{lookup, insert}
use i_leaf.Session.{SocketAddr, sock4}
use i_leaf.NatManager.{
  same_socket, socket_eq, Entry, NatManager, sweep, UdpPacket, add_session, recv_ok, downlink,
  new_manager,
}
use i_leaf.NatManager.Table.{kept}
use i_leaf.NatManager.Steps.{
  Reached, starts, steps, adds, ticks, lookup-sweep, forwarded, entry_after, downlink_lem,
}
use i_leaf.NatManager.Calls.{Call, checks, sends, opens, run, new_client, client_run, Agrees}
use i_leaf.NatManager.Client.{run-Client}

abbrev client : SocketAddr
client = sock4 0x0a000001 4000

abbrev entry : Entry
entry = record { queue = []; abort_handle = 0; last_active = 5 }

abbrev one_session : NatManager
one_session = record { sessions = (client, entry) ∷ []; checking = true; tasks = 1; aborted = [] }

added_one : (add_session 5 client (some tt) new_manager).1 ≡ one_session
unfolding add_session new_manager insert
added_one = refl

one_session-Reached : Reached (5 + 40) one_session
one_session-Reached =
    let once = steps (starts 5) (adds 5 client (some tt) new_manager) in
    steps (rw added_one at once) (ticks 5 40 one_session)

abbrev packet : UdpPacket
packet = record { payload = 1 ∷ []; src_addr = none; dst_addr = none }

abbrev neighbour : SocketAddr
neighbour = sock4 0x0a000002 4000

-- The neighbour goes on sending, and the client does not.
abbrev calls : List (ℕ × Call)
calls =
    (5, opens client (some tt))
    ∷ (6, opens neighbour (some tt))
    ∷ (7, sends client packet)
    ∷ (20, sends neighbour packet)
    ∷ (40, checks)
    ∷ []

run-Client_example : Agrees client (run calls new_manager) (client_run client calls 0 new_client)
run-Client_example = run-Client client calls

lookup-sweep_example :
    lookup client (sweep (5 + 40) one_session).sessions
    ≡ kept (5 + 40) (lookup client one_session.sessions)
lookup-sweep_example = lookup-sweep (5 + 40) client one_session one_session-Reached

downlink_lem_example :
    ((downlink 9 client (recv_ok (1 ∷ []) (sock4 0x08080808 53)) one_session).0 ≡ not true)
    × ((downlink 9 client (recv_ok (1 ∷ []) (sock4 0x08080808 53)) one_session).1
        ≡ forwarded client (recv_ok (1 ∷ []) (sock4 0x08080808 53)))
    × (lookup client
          (downlink 9 client (recv_ok (1 ∷ []) (sock4 0x08080808 53)) one_session).2.sessions
        ≡ (if same_socket client client
            then entry_after 9 true (lookup client one_session.sessions)
            else lookup client one_session.sessions))
downlink_lem_example =
    downlink_lem 9 client client (recv_ok (1 ∷ []) (sock4 0x08080808 53)) one_session
