-- ===== src/FakeDns/Pool.antt =====
-- leaf/src/common/fake_dns.rs: the pool of addresses, and how long an address keeps its name.
use i_leaf.Prelude.{
  ℕ, ◌+◌, ◌-◌, ◌^◌, ◌≤◌, ◌<◌, ◌≡◌, refl, sym, ◌∙◌, List, [], ◌∷◌, length, some, true, leb, ltb,
  ◌==◌, if◌then◌else◌, arith, Bool-cases, inl, inr,
}
use i_leaf.Prelude.Bytes.{of_be-to_be}
use i_leaf.Prelude.Assoc.{lookup, insert, nat_eq, lookup-insert, lookup-insert_self}
use i_leaf.Session.{IpAddr, v4, v6}
use i_leaf.FakeDns.{FakeDns, init, u32_to_ip, ip_to_u32, allocate_ip, query_domain, is_fake_ip}

-- The cursor stays inside the pool, and every address that has a name is in the pool.
pub record IsValid (f : FakeDns) : Type 0 where
  pub low : f.min_cursor ≤ f.cursor
  pub high : f.cursor ≤ f.max_cursor
  pub fits : f.max_cursor + 1 < 2 ^ 32
  pub known :
      (ip : ℕ) (d : List ℕ) → lookup ip f.names ≡ some d → (f.min_cursor ≤ ip) × (ip ≤ f.max_cursor)

-- The pool that `new` makes is well formed.
pub init-IsValid : IsValid init
unfolding init lookup
init-IsValid = record {
  low = omega arith;
  high = omega arith;
  fits = omega arith;
  known = λ ip d e. cc;
}

module _ (f : FakeDns) (v : IsValid f) where
  -- The next cursor, without the wrap-around of a u32.
  cursor_next :
      (d : List ℕ)
      → (allocate_ip f d).0.cursor
        ≡ (if ltb f.cursor f.max_cursor then f.cursor + 1 else f.min_cursor)
  unfolding allocate_ip
  cursor_next d = let low = v.low in let high = v.high in let fits = v.fits in ground arith

allocated_known :
    (f : FakeDns) (v : IsValid f) (d : List ℕ) (ip : ℕ) (e : List ℕ)
    → lookup ip (insert f.cursor d f.names) ≡ some e
    → (f.min_cursor ≤ ip) × (ip ≤ f.max_cursor)
allocated_known f v d ip e h = elim (Bool-cases (f.cursor == ip)) [
  | inl here ↦
      let same : f.cursor ≡ ip = ground arith in let low = v.low in let high = v.high in omega arith
  | inr other ↦ v.known ip e (rw (lookup-insert f.cursor ip d f.names, other) at h)
]

-- `allocate_ip` keeps the invariant.
pub allocate_ip-IsValid : (f : FakeDns) (d : List ℕ) → IsValid f → IsValid (allocate_ip f d).0
unfolding allocate_ip
allocate_ip-IsValid f d v =
    let next = cursor_next f v d in
    let low = v.low in
    let high = v.high in
    record { low = ground arith; high = ground arith; fits = v.fits; known = allocated_known f v d }

unfoldable pub allocate_all : FakeDns → List (List ℕ) → FakeDns
allocate_all f [] = f
allocate_all f (d ∷ ds) = allocate_all (allocate_ip f d).0 ds

-- How many allocations come before the one that takes `ip`.
unfoldable pub ahead : FakeDns → ℕ → ℕ
ahead f ip =
    if leb f.cursor ip then ip - f.cursor else (f.max_cursor - f.cursor) + 1 + (ip - f.min_cursor)

-- One allocation in front of `ip` brings it one step nearer and leaves its name.
allocate_step :
    (f : FakeDns) (d : List ℕ) (ip : ℕ)
    → IsValid f
    → f.min_cursor ≤ ip
    → ip ≤ f.max_cursor
    → 0 < ahead f ip
    → (ahead (allocate_ip f d).0 ip + 1 ≡ ahead f ip)
      × (lookup ip (allocate_ip f d).0.names ≡ lookup ip f.names)
unfolding allocate_ip ahead
allocate_step f d ip v lo hi h =
    let next = cursor_next f v d in
    let low = v.low in
    let high = v.high in (ground arith, ground (arith, lookup-insert f.cursor ip d f.names))

allocate_run :
    (ds : List (List ℕ)) (f : FakeDns) (ip : ℕ)
    → IsValid f
    → f.min_cursor ≤ ip
    → ip ≤ f.max_cursor
    → length ds ≤ ahead f ip
    → (ahead (allocate_all f ds) ip + length ds ≡ ahead f ip)
      × (lookup ip (allocate_all f ds).names ≡ lookup ip f.names)
unfolding allocate_all
allocate_run [] f ip v lo hi h = (omega arith, refl)
allocate_run (d ∷ ds) f ip v lo hi h =
    let step = allocate_step f d ip v lo hi (omega arith) in
    let rest =
      allocate_run ds (allocate_ip f d).0 ip (allocate_ip-IsValid f d v) (unfold allocate_ip in lo)
        (unfold allocate_ip in hi) (omega arith) in
    (omega arith, rest.1 ∙ step.1)

ahead_after :
    (f : FakeDns) (d : List ℕ)
    → IsValid f
    → ahead (allocate_ip f d).0 f.cursor ≡ f.max_cursor - f.min_cursor
unfolding allocate_ip ahead
ahead_after f d v =
    let next = cursor_next f v d in let low = v.low in let high = v.high in ground arith

ip_to_u32_lem : (ip : ℕ) → ip < 2 ^ 32 → ip_to_u32 ip ≡ ip
unfolding ip_to_u32
ip_to_u32_lem ip h = of_be-to_be 4 ip h

-- An allocated address keeps its name while fewer addresses are handed out after it than the
-- pool has: `query_domain` then returns the name that it was allocated for.
pub query_domain-allocate_all :
    (f : FakeDns) (d : List ℕ) (ds : List (List ℕ))
    → IsValid f
    → length ds ≤ f.max_cursor - f.min_cursor
    → query_domain (allocate_all (allocate_ip f d).0 ds) (v4 (allocate_ip f d).1) ≡ some d
unfolding query_domain
query_domain-allocate_all f d ds v h =
    let low = v.low in
    let high = v.high in
    let fits = v.fits in
    let run =
      allocate_run ds (allocate_ip f d).0 f.cursor (allocate_ip-IsValid f d v)
        (unfold allocate_ip in v.low) (unfold allocate_ip in v.high)
        (omega (arith, ahead_after f d v)) in
    unfold allocate_ip u32_to_ip in
    rw (ip_to_u32_lem f.cursor (omega arith)) (run.1 ∙ lookup-insert_self f.cursor d f.names)

allocated : (f : FakeDns) (d : List ℕ) → (allocate_ip f d).1 ≡ f.cursor
unfolding allocate_ip
allocated f d = refl

cursor_of_ahead : (f : FakeDns) (ip : ℕ) → ahead f ip ≡ 0 → f.cursor ≡ ip
unfolding ahead
cursor_of_ahead f ip h = ground arith

-- After as many further allocations as the pool has addresses the address is handed out again.
allocate_all_wraps :
    (f : FakeDns) (d e : List ℕ) (ds : List (List ℕ))
    → IsValid f
    → length ds ≡ f.max_cursor - f.min_cursor
    → (allocate_ip (allocate_all (allocate_ip f d).0 ds) e).1 ≡ (allocate_ip f d).1
allocate_all_wraps f d e ds v h =
    let run =
      allocate_run ds (allocate_ip f d).0 f.cursor (allocate_ip-IsValid f d v)
        (unfold allocate_ip in v.low) (unfold allocate_ip in v.high)
        (omega (arith, ahead_after f d v)) in
    allocated (allocate_all (allocate_ip f d).0 ds) e
    ∙ cursor_of_ahead (allocate_all (allocate_ip f d).0 ds) f.cursor
        (omega (arith, ahead_after f d v))
    ∙ sym (allocated f d)

-- An address that has a name is a fake one.
query_domain-is_fake_ip :
    (f : FakeDns) (ip : IpAddr) (d : List ℕ)
    → IsValid f
    → query_domain f ip ≡ some d
    → is_fake_ip f ip ≡ true
unfolding query_domain is_fake_ip
query_domain-is_fake_ip f (v4 ip) d v h = let known = v.known (ip_to_u32 ip) d h in ground arith
query_domain-is_fake_ip f (v6 ip) d v h = cc
