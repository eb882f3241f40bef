-- ===== src/HandlerManager/Tests.antt =====
-- leaf/src/app/handler_manager.rs: the statements at concrete configurations, in which the settings of a
-- group are the tag of its only actor.
use i_leaf.Prelude.{ℕ, ◌≡◌, refl, List, [], ◌∷◌, none, some, false, inl, inr, ok, ◌>>=◌, arith}
use i_leaf.Prelude.Assoc.{insert, lookup}
use i_leaf.Prelude.Text.{codes, text_eq}
use i_leaf.Session.{sock4, v4}
use i_leaf.HandlerManager.{
  External, GroupSettings, Outbound, Dns, HandlerManager, Handler, no_handlers, handler_and,
  endpoint, group, direct_type, direct, failover, pass, new, get, kind_of, tag_of, bind_of,
  handler_of, endpoint_of,
}
use i_leaf.HandlerManager.Groups.{Leads, leads_endpoint, leads_group, get-Leads}
use i_leaf.HandlerManager.Shape.{IsBuilt, get-IsBuilt}

abbrev one_actor : List ℕ → GroupSettings
one_actor tag = record {
  actors = tag ∷ [];
  delay_base = 0;
  fail_timeout = 4;
  health_check = false;
  check_interval = 300;
  use_failover = false;
}

abbrev parsers : External
parsers = record {
  parse_v4 = λ bind. some (sock4 0 0);
  parse_ip = λ server. some (v4 0x01010101);
  parse_settings = λ p bytes. some (record { address = bytes; port = 443; texts = [] });
  parse_group = λ g bytes. some (one_actor bytes);
}

abbrev failover_of : List ℕ → List ℕ → Outbound
failover_of tag actor = record {
  tag = tag;
  protocol = codes "failover";
  bind = codes "0.0.0.0";
  settings = actor;
}

abbrev direct_out : Outbound
direct_out = record {
  tag = codes "d";
  protocol = codes "direct";
  bind = codes "0.0.0.0";
  settings = [];
}

abbrev dns : Dns
dns = record { servers = codes "1.1.1.1" ∷ []; bind = codes "0.0.0.0" }

-- Every group stands in front of its actor.
abbrev two_groups : List Outbound
two_groups =
    failover_of (codes "a") (codes "b") ∷ failover_of (codes "b") (codes "d") ∷ direct_out ∷ []

abbrev direct_handler : Handler
direct_handler = endpoint (codes "d") direct_type direct none (sock4 0 0)

abbrev group_b : Handler
group_b =
    group (codes "b") failover (handler_and direct_handler no_handlers) (one_actor (codes "d"))

abbrev group_a : Handler
group_a = group (codes "a") failover (handler_and group_b no_handlers) (one_actor (codes "b"))

abbrev built : HandlerManager
built = record {
  handlers = (codes "d", direct_handler) ∷ (codes "b", group_b) ∷ (codes "a", group_a) ∷ [];
  default_handler = some (codes "a");
}

manager_built : new parsers two_groups dns ≡ ok built
unfolding new pass kind_of text_eq insert
manager_built = refl

-- Of five groups in that order the first gets no handler: four passes end before its turn.
abbrev five_groups : List Outbound
five_groups =
    failover_of (codes "p") (codes "q")
    ∷ failover_of (codes "q") (codes "r")
    ∷ failover_of (codes "r") (codes "a")
    ∷ two_groups

first_of_five : (new parsers five_groups dns >>= λ m. ok (get (codes "p") m)) ≡ ok none
unfolding new pass kind_of text_eq insert get lookup
first_of_five = refl

a_Leads : Leads parsers two_groups 2 (codes "a")
unfolding kind_of text_eq lookup bind_of handler_of endpoint_of
a_Leads =
    leads_group (failover_of (codes "a") (codes "b")) failover (one_actor (codes "b")) (codes "b") 1
      (inl refl) refl refl (inl refl)
      (leads_group (failover_of (codes "b") (codes "d")) failover (one_actor (codes "d"))
        (codes "d") 0 (inr (inl refl)) refl refl (inl refl)
        (leads_endpoint direct_out (sock4 0 0) direct_handler (inr (inr (inl refl))) refl refl))

get-Leads_example : (h : Handler) × (get (codes "a") built ≡ some h)
get-Leads_example =
    get-Leads parsers two_groups dns built 2 (codes "a") manager_built a_Leads (omega arith)

get_a : get (codes "a") built ≡ some group_a
unfolding get lookup text_eq
get_a = refl

get-IsBuilt_example : (tag_of group_a ≡ codes "a") × IsBuilt parsers two_groups group_a
get-IsBuilt_example =
    get-IsBuilt parsers two_groups dns built (codes "a") group_a manager_built get_a
