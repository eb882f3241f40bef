-- ===== src/Dispatcher/Dispatch.antt =====
-- leaf/src/app/dispatcher.rs: `dispatch_tcp` and `dispatch_udp`. What a handler does with a session is a
-- parameter. The placeholders that a TCP session takes and gives back, and the relay between them,
-- are the actions of a dispatch, in order; what the relay comes to is only logged.
use i_leaf.Prelude.{
  ℕ, List, [], ◌∷◌, ◌&&◌, ◌==◌, if◌then◌else◌, Option, none, some, Outcome, ok, err, panic,
}
use i_leaf.Prelude.Stream.{IoError, no_handler}
use i_leaf.Prelude.Polls.{Event}
use i_leaf.Session.{Session, domain_addr, is_domain, port_of}
use i_leaf.Router
use i_leaf.Router.{Router, pick_route}
use i_leaf.HandlerManager.{
  Handler, HandlerManager, HandlerType, direct_type, endpoint_type, ensemble_type, handler_type,
  get,
}
use i_leaf.Dispatcher.{sniffing_stream, sniff}

-- The counters of direct and of proxied sessions.
pub data Counter : Type 0 where
  direct_tcp endpoint_tcp : Counter

pub data Action : Type 0 where
  starts ends : Counter → Action
  relays : Action

-- The match on the handler's type in front of `handle`, and those behind the relay and behind an
-- error.
unfoldable pub started_counter : HandlerType → Counter
started_counter direct_type = direct_tcp
started_counter endpoint_type = endpoint_tcp
started_counter ensemble_type = endpoint_tcp

unfoldable pub relayed_counter : HandlerType → Counter
relayed_counter direct_type = direct_tcp
relayed_counter endpoint_type = endpoint_tcp
relayed_counter ensemble_type = endpoint_tcp

unfoldable pub refused_counter : HandlerType → Counter
refused_counter direct_type = direct_tcp
refused_counter endpoint_type = endpoint_tcp
refused_counter ensemble_type = endpoint_tcp

pub record Dispatched : Type 0 where
  pub result : Outcome IoError (Unit {0})
  pub session : Session
  pub actions : List Action

-- Behind `handle`; a panic unwinds.
unfoldable pub handled : {S : Type 0} → Session → HandlerType → Outcome IoError S → Dispatched
unfolding started_counter relayed_counter refused_counter
handled sess type (ok rhs) = record {
  result = ok tt;
  session = sess;
  actions = starts (started_counter type) ∷ relays ∷ ends (relayed_counter type) ∷ [];
}
handled sess type (err e) = record {
  result = err e;
  session = sess;
  actions = starts (started_counter type) ∷ ends (refused_counter type) ∷ [];
}
handled sess type panic = record {
  result = panic;
  session = sess;
  actions = starts (started_counter type) ∷ [];
}

abbrev failed : Outcome IoError (Unit {0}) → Session → Dispatched
failed result sess = record { result = result; session = sess; actions = [] }

-- A sniffed name replaces the destination.
unfoldable pub renamed : Option (List ℕ) → Session → Session
renamed none sess = sess
renamed (some domain) sess = record sess {
  destination = domain_addr domain (port_of sess.destination);
}

-- The first target, or the default handler's tag.
unfoldable pub or_default : Option (List ℕ) → HandlerManager → Option (List ℕ)
or_default (some tag) m = some tag
or_default none m = m.default_handler

-- `handler_manager.get(outbound)`.
unfoldable pub outbound_of : Option (List ℕ) → HandlerManager → Option Handler
outbound_of none m = none
outbound_of (some tag) m = get tag m

module _ (x : Router.External) (r : Router x) (m : HandlerManager) where
  -- The handler that a session is dispatched to; `none` is either of the errors "no available
  -- handler" and "handler not found".
  unfoldable pub outbound : Session → Option Handler
  unfolding or_default outbound_of
  outbound sess = outbound_of (or_default (pick_route x r sess) m) m

  module _ {S : Type 0} (handle : Handler → Session → Outcome IoError S) where
    abbrev pub handle_by : Option Handler → Session → Dispatched
    handle_by none sess = failed (err no_handler) sess
    handle_by (some h) sess = handled sess (handler_type h) (handle h sess)

    unfoldable pub dispatch_to : Session → Dispatched
    unfolding handled
    dispatch_to sess = handle_by (outbound sess) sess

    abbrev pub dispatch_sniffed : Outcome IoError (Option (List ℕ)) → Session → Dispatched
    dispatch_sniffed (ok name) sess = dispatch_to (renamed name sess)
    dispatch_sniffed (err e) sess = failed (err e) sess
    dispatch_sniffed panic sess = failed panic sess

    -- A session to port 443 of a domain is not sniffed.
    unfoldable pub dispatch_tcp : (List ℕ → List ℕ) → Session → List Event → Dispatched
    unfolding dispatch_to renamed
    dispatch_tcp lossy sess t =
        if is_domain sess.destination && port_of sess.destination == 443
        then dispatch_to sess
        else dispatch_sniffed (sniff lossy 2 sniffing_stream t).0 sess

  abbrev connect_by :
      {D : Type 0}
      → (Handler → Session → Outcome IoError D)
      → Option Handler
      → Session
      → Outcome IoError D
  connect_by connect none sess = err no_handler
  connect_by connect (some h) sess = connect h sess

  unfoldable pub dispatch_udp :
      {D : Type 0} → (Handler → Session → Outcome IoError D) → Session → Outcome IoError D
  unfolding outbound
  dispatch_udp connect sess = connect_by connect (outbound sess) sess
