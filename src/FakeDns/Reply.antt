-- ===== src/FakeDns/Reply.antt =====
-- leaf/src/common/fake_dns.rs: `generate_fake_response`, on every branch.
use i_leaf.Prelude.{ℕ, ◌≡◌, ◌≢◌, ◌⊎◌, List, Option, false, ok, err, arith}
use i_leaf.FakeDns.{
  FakeDns, Message, Query, FakeError, print_failed, is_excluded, domain_of_name,
  generate_fake_response, class_in, type_a, type_aaaa, type_https,
}

-- What the checks let through.
abbrev pub Served : FakeDns → Query → List ℕ → Type 0
Served f query domain =
    (query.class ≡ class_in)
    × ((query.type ≡ type_a) ⊎ ((query.type ≡ type_aaaa) ⊎ (query.type ≡ type_https)))
    × (domain_of_name query.name ≡ ok domain)
    × (is_excluded f.exclude_domains domain ≡ false)

module _ (from_vec : List ℕ → Option Message) (to_vec : Message → Option (List ℕ)) where
  -- A request that is refused takes no address: unless printing the response fails, an error
  -- leaves the pool as it was.
  pub generate_err :
      (f : FakeDns) (request : List ℕ) (e : FakeError)
      → (generate_fake_response from_vec to_vec f request).1 ≡ err e
      → e ≢ print_failed
      → (generate_fake_response from_vec to_vec f request).0 ≡ f
  unfolding generate_fake_response
  generate_err f request e h n = ground arith
