-- ===== src/Dispatcher/Outbound.antt =====
-- leaf/src/app/dispatcher.rs: the handler that a session goes to, with leaf/src/app/router.rs and
-- leaf/src/app/handler_manager.rs, and the actions of a dispatch.
use i_leaf.Prelude.{
  ℕ, ◌≤◌, ◌≡◌, ◌≢◌, refl, sym, List, [], ◌∷◌, false, ◌&&◌, ◌==◌, Bool-cases, inl, inr, Option, none,
  some, Outcome, ok, err, panic,
}
use i_leaf.Prelude.Stream.{IoError, no_handler}
use i_leaf.Prelude.Polls.{Event}
use i_leaf.Session.{Session, SocketAddr, domain_addr, is_domain, port_of}
use i_leaf.Router
use i_leaf.Router.{Router, pick_route}
use i_leaf.HandlerManager
use i_leaf.HandlerManager.{
  Handler, HandlerManager, HandlerType, direct_type, endpoint_type, ensemble_type, Outbound, Dns,
  handler_type, tag_of, get, new,
}
use i_leaf.HandlerManager.Groups.{Leads, get-Leads}
use i_leaf.HandlerManager.Shape.{get-IsBuilt}
use i_leaf.Dispatcher.{sniffing_stream, sniff}
use i_leaf.Dispatcher.Dispatch.{
  Counter, direct_tcp, endpoint_tcp, Action, starts, ends, relays, handled, renamed, outbound,
  or_default, outbound_of, dispatch_to, dispatch_tcp, handle_by, dispatch_sniffed,
}

-- Every placeholder that is taken is given back to the same counter, behind the relay if there is
-- one, and the relay runs exactly where the dispatch succeeds.
pub data IsPaired : Outcome IoError (Unit {0}) → List Action → Type 0 where
  not_started : (e : IoError) → IsPaired (err e) []
  refused : (e : IoError) (c : Counter) → IsPaired (err e) (starts c ∷ ends c ∷ [])
  relayed : (c : Counter) → IsPaired (ok tt) (starts c ∷ relays ∷ ends c ∷ [])

-- The name that a session is routed by: a session to port 443 of a domain is not sniffed, any other
-- has the name that was sniffed, if there was one.
pub data Looked (lossy : List ℕ → List ℕ) (t : List Event)
    : Session → Option (List ℕ) → Type 0 where
  not_looked :
      (source : SocketAddr) (d : List ℕ)
      → Looked lossy t (record { source = source; destination = domain_addr d 443 }) none
  looked :
      (sess : Session) (name : Option (List ℕ))
      → (is_domain sess.destination && port_of sess.destination == 443) ≡ false
      → (sniff lossy 2 sniffing_stream t).0 ≡ ok name
      → Looked lossy t sess name

-- The session that is routed: the name takes the destination's place, its port stays.
abbrev pub Asked : Option (List ℕ) → Session → Session → Type 0
Asked none sess asked = asked ≡ sess
Asked (some d) sess asked =
    (asked.source ≡ sess.source) × (asked.destination ≡ domain_addr d (port_of sess.destination))

-- The dispatch comes to what the handler comes to, less the connection.
abbrev pub Decides : {S : Type 0} → Outcome IoError S → Outcome IoError (Unit {0}) → Type 0
Decides (ok rhs) result = result ≡ ok tt
Decides (err e) result = result ≡ err e
Decides panic result = result ≡ panic

module _ (x : Router.External) (r : Router x) (m : HandlerManager) {S : Type 0}
    (handle : Handler → Session → Outcome IoError S) where
  handled-IsPaired :
      (sess : Session) (type : HandlerType) (o : Outcome IoError S)
      → (handled sess type o).result ≢ panic
      → IsPaired (handled sess type o).result (handled sess type o).actions
  unfolding handled
  handled-IsPaired sess direct_type (ok rhs) h = relayed direct_tcp
  handled-IsPaired sess endpoint_type (ok rhs) h = relayed endpoint_tcp
  handled-IsPaired sess ensemble_type (ok rhs) h = relayed endpoint_tcp
  handled-IsPaired sess direct_type (err e) h = refused e direct_tcp
  handled-IsPaired sess endpoint_type (err e) h = refused e endpoint_tcp
  handled-IsPaired sess ensemble_type (err e) h = refused e endpoint_tcp
  handled-IsPaired sess type panic h = absurd (h refl)

  handle_by-IsPaired :
      (sess : Session) (o : Option Handler)
      → (handle_by x r m handle o sess).result ≢ panic
      → IsPaired (handle_by x r m handle o sess).result (handle_by x r m handle o sess).actions
  handle_by-IsPaired sess none h = not_started no_handler
  handle_by-IsPaired sess (some v) h = handled-IsPaired sess (handler_type v) (handle v sess) h

  dispatch_sniffed-IsPaired :
      (sess : Session) (name : Outcome IoError (Option (List ℕ)))
      → (dispatch_sniffed x r m handle name sess).result ≢ panic
      → IsPaired
          (dispatch_sniffed x r m handle name sess).result
          (dispatch_sniffed x r m handle name sess).actions
  unfolding dispatch_to
  dispatch_sniffed-IsPaired sess (ok name) h =
      handle_by-IsPaired (renamed name sess) (outbound x r m (renamed name sess)) h
  dispatch_sniffed-IsPaired sess (err e) h = not_started e
  dispatch_sniffed-IsPaired sess panic h = absurd (h refl)

  -- On every branch of a dispatch that does not panic, errors included, the placeholder that was
  -- taken is given back to the counter that it was taken from, and the relay runs exactly where
  -- the dispatch succeeds.
  pub dispatch_tcp-IsPaired :
      (lossy : List ℕ → List ℕ) (sess : Session) (t : List Event)
      → (dispatch_tcp x r m handle lossy sess t).result ≢ panic
      → IsPaired
          (dispatch_tcp x r m handle lossy sess t).result
          (dispatch_tcp x r m handle lossy sess t).actions
  unfolding dispatch_tcp dispatch_to
  dispatch_tcp-IsPaired lossy sess t h =
      elim (Bool-cases (is_domain sess.destination && port_of sess.destination == 443)) [
        | inl https ↦ rw https (handle_by-IsPaired sess (outbound x r m sess) (rw https at h))
        | inr other ↦
            rw other
              (dispatch_sniffed-IsPaired sess (sniff lossy 2 sniffing_stream t).0 (rw other at h))
      ]

  module _ (y : HandlerManager.External) (os : List Outbound) (dns : Dns)
      (built : new y os dns ≡ ok m) where
    outbound-Leads :
        (sess : Session) (tag : List ℕ) (n : ℕ)
        → pick_route x r sess ≡ some tag
        → Leads y os n tag
        → n ≤ 4
        → (h : Handler) × (tag_of h ≡ tag) × (outbound x r m sess ≡ some h)
    unfolding outbound or_default outbound_of
    outbound-Leads sess tag n picked leads few =
        let (h, found) = get-Leads y os dns m n tag built leads few in
        let named = get-IsBuilt y os dns m tag h built found in (h, named.0, rw picked found)

    handled-Decides :
        (sess : Session) (type : HandlerType) (o : Outcome IoError S)
        → Decides o (handled sess type o).result × ((handled sess type o).session ≡ sess)
    unfolding handled
    handled-Decides sess type (ok rhs) = (refl, refl)
    handled-Decides sess type (err e) = (refl, refl)
    handled-Decides sess type panic = (refl, refl)

    Asked-renamed :
        (name : Option (List ℕ)) (sess asked : Session)
        → Asked name sess asked
        → renamed name sess ≡ asked
    unfolding renamed
    Asked-renamed none sess asked a = sym a
    Asked-renamed (some d) sess asked (s, a) = cc

    dispatch_tcp-Looked :
        (lossy : List ℕ → List ℕ) (sess : Session) (t : List Event) (name : Option (List ℕ))
        → Looked lossy t sess name
        → dispatch_tcp x r m handle lossy sess t ≡ dispatch_to x r m handle (renamed name sess)
    unfolding dispatch_tcp renamed is_domain port_of
    dispatch_tcp-Looked lossy _ t _ (not_looked source d) = refl
    dispatch_tcp-Looked lossy sess t name (looked _ _ other sniffed) = rw (other, sniffed) refl

    -- A session is routed by the name that is sniffed, if there is one, with its own source and
    -- port; a session to port 443 of a domain is routed as it is. The handler that bears the tag of
    -- the first rule that matches is given this session, and the dispatch succeeds, fails with an
    -- error or panics as that handler does, where an endpoint is reached from the tag through at
    -- most four groups.
    pub dispatch_tcp-Leads :
        (lossy : List ℕ → List ℕ) (sess asked : Session) (t : List Event) (name : Option (List ℕ))
        (tag : List ℕ) (n : ℕ)
        → Looked lossy t sess name
        → Asked name sess asked
        → pick_route x r asked ≡ some tag
        → Leads y os n tag
        → n ≤ 4
        → (h : Handler) × (tag_of h ≡ tag)
          × Decides (handle h asked) (dispatch_tcp x r m handle lossy sess t).result
          × ((dispatch_tcp x r m handle lossy sess t).session ≡ asked)
    unfolding dispatch_to
    dispatch_tcp-Leads lossy sess asked t name tag n look named picked leads few =
        let (h, tagged, found) = outbound-Leads asked tag n picked leads few in
        let same = Asked-renamed name sess asked named in
        let run = dispatch_tcp-Looked lossy sess t name look in
        let (decides, kept) = handled-Decides asked (handler_type h) (handle h asked) in
        (h, tagged, rw (run, same, found) decides, rw (run, same, found) kept)
