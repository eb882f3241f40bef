-- ===== src/Dispatcher/RoutingTests.antt =====
-- leaf/src/app/dispatcher.rs: the routing of a session, and the counters, at concrete inputs.
use i_leaf.Prelude.{
  ℕ, ◌+◌, ◌≡◌, ◌≢◌, refl, List, [], ◌∷◌, ◌++◌, length, replicate, true, false, ◌&&◌, ◌==◌, none,
  some, inl, Outcome, ok, err, panic, arith,
}
use i_leaf.Prelude.Stream.{IoError, refused}
use i_leaf.Prelude.Text.{codes, text_eq}
use i_leaf.Prelude.Assoc.{lookup, insert}
use i_leaf.Prelude.Polls.{Event, bytes, poll_inner}
use i_leaf.Session.{v4, Session, sock4, ip_addr, domain_addr, domain_of, is_domain, port_of}
use i_leaf.Router
use i_leaf.Router.{DomainRule, domain, RoutingRule, Router, pick_route}
use i_leaf.HandlerManager
use i_leaf.HandlerManager.{
  Settings, GroupSettings, Outbound, Dns, HandlerManager, Handler, endpoint, direct_type, direct,
  tag_of, pass, get, kind_of, bind_of, handler_of, endpoint_of,
}
use i_leaf.HandlerManager.Groups.{Leads, leads_endpoint}
use i_leaf.Dispatcher.{sniffing_stream, sniff}
use i_leaf.Dispatcher.Dispatch.{
  dispatch_tcp, dispatch_to, renamed, handled, outbound, or_default, outbound_of,
}
use i_leaf.Dispatcher.Outbound.{
  IsPaired, dispatch_tcp-IsPaired, Asked, looked, Decides, dispatch_tcp-Leads,
}
use i_leaf.Dispatcher.Counters.{
  Shared, no_sessions, Reached, starts, steps, sends, counts_on, IsCounted, Reached-IsCounted,
  count_off-try_recv, send, count_on, count_off, try_recv,
}

abbrev plain_world : Router.External
plain_world = record {
  Cidr = ℕ;
  Reader = ℕ;
  parse_cidr = λ text. some 7;
  cidr_contains = λ c ip. false;
  open_mmap = λ file. none;
  country = λ r ip. none;
  to_lowercase = λ text. text;
}

abbrev rule : RoutingRule
rule = record {
  target_tag = codes "d";
  domains = (record { field_type = domain; value = codes "io" }) ∷ [];
  ip_cidrs = [];
  mmdbs = [];
}

abbrev router : Router plain_world
router = Router.new plain_world (rule ∷ [])

abbrev parsers : HandlerManager.External
parsers = record {
  parse_v4 = λ bind. some (sock4 0 0);
  parse_ip = λ server. some (v4 0x01010101);
  parse_settings = λ p bytes. none;
  parse_group = λ g bytes. none;
}

abbrev direct_out : Outbound
direct_out = record {
  tag = codes "d";
  protocol = codes "direct";
  bind = codes "0.0.0.0";
  settings = [];
}

abbrev dns : Dns
dns = record { servers = codes "1.1.1.1" ∷ []; bind = codes "0.0.0.0" }

abbrev direct_handler : Handler
direct_handler = endpoint (codes "d") direct_type direct none (sock4 0 0)

abbrev manager : HandlerManager
manager = record { handlers = (codes "d", direct_handler) ∷ []; default_handler = some (codes "d") }

manager_built : HandlerManager.new parsers (direct_out ∷ []) dns ≡ ok manager
unfolding HandlerManager.new pass kind_of text_eq insert
manager_built = refl

abbrev to_address : Session
to_address = record { source = sock4 1 1; destination = ip_addr (sock4 9 443) }

abbrev extension_list : List ℕ
extension_list = 0 ∷ 0 ∷ 0 ∷ 9 ∷ 0 ∷ 7 ∷ 0 ∷ 0 ∷ 4 ∷ codes "a.io"

abbrev hello_body : List ℕ
hello_body =
    replicate 38 1 ++ (0 ∷ 0 ∷ 2 ∷ 19 ∷ 1 ∷ 1 ∷ 0 ∷ 0 ∷ length extension_list ∷ extension_list)

abbrev hello : List Event
hello = bytes (0x16 ∷ 3 ∷ 1 ∷ 0 ∷ length hello_body ∷ hello_body) ∷ []

abbrev lossy : List ℕ → List ℕ
lossy s = s

abbrev refuses : Handler → Session → Outcome IoError ℕ
refuses h sess = err refused

sniffs : (sniff lossy 2 sniffing_stream hello).0 ≡ ok (some (codes "a.io"))
unfolding sniff poll_inner sniffing_stream
sniffs = refl

abbrev asked : Session
asked = record { source = sock4 1 1; destination = domain_addr (codes "a.io") 443 }

picks : pick_route plain_world router asked ≡ some (codes "d")
unfolding pick_route Router.first_match Router.new Router.new_rules Router.push_rule
    Router.conditions_of Router.add_domains Router.apply Router.domain_conditions
    Router.domain_condition Router.apply_suffix is_domain domain_of Router.is_sub_domain
    Router.split Router.parts_match text_eq Router.add_cidrs Router.mmdb_conditions
picks = refl

d_Leads : Leads parsers (direct_out ∷ []) 0 (codes "d")
unfolding kind_of text_eq lookup bind_of handler_of endpoint_of
d_Leads = leads_endpoint direct_out (sock4 0 0) direct_handler (inl refl) refl refl

not_https : (is_domain to_address.destination && port_of to_address.destination == 443) ≡ false
unfolding is_domain port_of
not_https = refl

named : Asked (some (codes "a.io")) to_address asked
unfolding port_of
named = (refl, refl)

dispatch_tcp-Leads_example :
    (h : Handler) × (tag_of h ≡ codes "d")
    × Decides
        (refuses h asked)
        (dispatch_tcp plain_world router manager refuses lossy to_address hello).result
    × ((dispatch_tcp plain_world router manager refuses lossy to_address hello).session ≡ asked)
dispatch_tcp-Leads_example =
    dispatch_tcp-Leads plain_world router manager refuses parsers (direct_out ∷ []) dns
      manager_built lossy to_address asked hello (some (codes "a.io")) (codes "d") 0
      (looked to_address (some (codes "a.io")) not_https sniffs) named picks d_Leads (omega arith)

refused_tcp :
    (dispatch_tcp plain_world router manager refuses lossy to_address hello).result ≢ panic
unfolding dispatch_tcp dispatch_to handled renamed outbound or_default outbound_of get lookup
    is_domain port_of text_eq
refused_tcp e = let result : err refused ≡ panic = rw (not_https, sniffs, picks) at e in absurd (cc)

dispatch_tcp-IsPaired_example :
    IsPaired
      (dispatch_tcp plain_world router manager refuses lossy to_address hello).result
      (dispatch_tcp plain_world router manager refuses lossy to_address hello).actions
dispatch_tcp-IsPaired_example =
    dispatch_tcp-IsPaired plain_world router manager refuses lossy to_address hello refused_tcp

-- One task took a placeholder and counted itself on; the channel has room for two.
one_sent :
    Reached 2 (record { queue = 1; num = 0 }) (record { sent = 1; running = 0; received = 0 })
unfolding no_sessions send
one_sent = steps starts (sends no_sessions _ _ refl (omega arith))

one_running :
    Reached 2 (record { queue = 1; num = 1 }) (record { sent = 0; running = 1; received = 0 })
unfolding count_on
one_running = steps one_sent (counts_on (record { queue = 1; num = 0 }) _ (omega arith))

Reached-IsCounted_example :
    IsCounted 2 (record { queue = 1; num = 1 }) (record { sent = 0; running = 1; received = 0 })
Reached-IsCounted_example = Reached-IsCounted one_running

count_off-try_recv_example :
    (s' : Shared) × ((try_recv (record { queue = 1; num = 1 })).0 ≡ true)
    × (count_off (try_recv (record { queue = 1; num = 1 })).1 ≡ ok s')
    × (s'.queue + 1 ≡ 1)
    × (s'.num + 1 ≡ 1)
count_off-try_recv_example =
    count_off-try_recv (record { queue = 1; num = 1 })
      (record { sent = 0; running = 1; received = 0 }) one_running (omega arith)
