-- ===== src/FakeDns/Tests.antt =====
-- leaf/src/common/fake_dns.rs: tests, and the theorems at concrete inputs.
use i_leaf.Prelude.{ℕ, ◌≡◌, refl, true, false, List, [], ◌∷◌, Option, some, arith}
use i_leaf.Prelude.Assoc.{lookup, insert}
use i_leaf.Prelude.Text.{codes}
use i_leaf.Session.{v4}
use i_leaf.FakeDns.{FakeDns, init, allocate_ip, query_domain, Query, Message, ipv4}
use i_leaf.FakeDns.Pool.{IsValid, allocate_all, query_domain-allocate_all}

-- A pool of two addresses.
abbrev small : FakeDns
small = record {
  names = [];
  cursor = 7;
  min_cursor = 7;
  max_cursor = 8;
  ttl = 1;
  exclude_domains = codes "corp" ∷ [];
}

small-IsValid : IsValid small
unfolding lookup
small-IsValid = record {
  low = omega arith;
  high = omega arith;
  fits = omega arith;
  known = λ ip d e. cc;
}

first_is_low : (allocate_ip init (codes "a.io")).1 ≡ ipv4 173 255 0 0
unfolding allocate_ip init
first_is_low = refl

query_domain-allocate_all_example :
    query_domain
      (allocate_all (allocate_ip small (codes "a")).0 (codes "b" ∷ []))
      (v4 (allocate_ip small (codes "a")).1)
    ≡ some (codes "a")
query_domain-allocate_all_example =
    query_domain-allocate_all small (codes "a") (codes "b" ∷ []) small-IsValid (omega arith)

one_name : query_domain (allocate_ip small (codes "a")).0 (v4 7) ≡ some (codes "a")
unfolding query_domain allocate_ip lookup insert
one_name = refl

-- A request parser that reads every request as one question for `a.io.`, and a printer.
abbrev question : Query
question = record { name = record { is_fqdn = true; ascii = codes "a.io." }; class = 1; type = 1 }

abbrev asking : List Query → Message
asking qs = record {
  id = 5;
  is_response = false;
  op_code = 0;
  recursion_desired = true;
  checking_disabled = false;
  response_code = 0;
  queries = qs;
  answers = [];
}

abbrev parse_question : List ℕ → Option Message
parse_question bytes = some (asking (question ∷ []))

abbrev parse_empty : List ℕ → Option Message
parse_empty bytes = some (asking [])

abbrev print_id : Message → Option (List ℕ)
print_id m = some (m.id ∷ [])
