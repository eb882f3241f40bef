-- ===== src/Router/Tests.antt =====
-- leaf/src/app/router.rs: tests, and the theorems at concrete inputs.
use i_leaf.Prelude.{ℕ, ◌≡◌, ◌↔◌, ◌⊎◌, refl, true, false, ◌==◌, List, [], ◌∷◌, ◌++◌, none, some}
use i_leaf.Prelude.Text.{codes, text_eq}
use i_leaf.Session.{v4, v6, Session, sock4, domain_addr}
use i_leaf.Router.{
  dot, is_sub_domain, split, parts_match, External, DomainRule, domain, RoutingRule, pick_route,
  new,
}
use i_leaf.Router.Suffix.{is_sub_domain_iff}
use i_leaf.Router.Route.{spec_route, pick_route-new}

sub_domain : is_sub_domain (codes "video.google.com") (codes "google.com") ≡ true
unfolding is_sub_domain split parts_match text_eq
sub_domain = refl

not_sub_domain : is_sub_domain (codes "video.google.com") (codes "gle.com") ≡ false
unfolding is_sub_domain split parts_match text_eq
not_sub_domain = refl

-- Blocks are single addresses, and there are no databases.
abbrev plain_world : External
plain_world = record {
  Cidr = ℕ;
  Reader = ℕ;
  parse_cidr = λ text. some 7;
  cidr_contains = λ c ip. elim ip [ v4 n ↦ c == n | v6 n ↦ false ];
  open_mmap = λ file. none;
  country = λ r ip. none;
  to_lowercase = λ text. text;
}

abbrev google : DomainRule
google = record { field_type = domain; value = codes "google.com" }

abbrev to_proxy : RoutingRule
to_proxy = record { target_tag = codes "proxy"; domains = google ∷ []; ip_cidrs = []; mmdbs = [] }

abbrev to_both : RoutingRule
to_both = record to_proxy { ip_cidrs = codes "0.0.0.7/32" ∷ [] }

abbrev visit : Session
visit = record { source = sock4 1 1; destination = domain_addr (codes "video.google.com") 443 }

is_sub_domain_iff_example :
    (is_sub_domain (codes "a.io") (codes "io") ≡ true)
    ↔ ((codes "a.io" ≡ codes "io") ⊎ ((u : List ℕ) × (codes "a.io" ≡ u ++ (dot ∷ codes "io"))))
is_sub_domain_iff_example = is_sub_domain_iff (codes "a.io") (codes "io")

pick_route-new_example :
    pick_route plain_world (new plain_world (to_both ∷ to_proxy ∷ [])) visit
    ≡ spec_route plain_world (to_both ∷ to_proxy ∷ []) visit.destination
pick_route-new_example = pick_route-new plain_world (to_both ∷ to_proxy ∷ []) visit
