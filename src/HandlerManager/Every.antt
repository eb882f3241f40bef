-- ===== src/HandlerManager/Every.antt =====
-- leaf/src/app/handler_manager.rs: what holds of every handler in the map, by the two loops that put
-- handlers there.
use i_leaf.Prelude.{
  ℕ, zero, suc, ◌≡◌, refl, List, [], ◌∷◌, Option, none, some, Bool-cases, inl, inr, ok, >>=-eq-ok,
  arith,
}
use i_leaf.Prelude.Assoc.{lookup, lookup-insert}
use i_leaf.Prelude.Text.{text_beq, text_eq, text_eq_iff}
use i_leaf.Session.{SocketAddr}
use i_leaf.HandlerManager.{
  GroupProtocol, Kind, endpoint_kind, group_kind, unknown, kind_of, GroupSettings, Outbound, Dns,
  Handler, Handlers, no_handlers, handler_and, group, Map, HandlerManager, External, bind_of,
  handler_of, put, endpoints, actors_of, with_actors, with_group, group_of, pass, passes, new, get,
}
use i_leaf.HandlerManager.Groups.{In, Has, Leads, put-Has, passes-Leads, new-eq-ok}

-- The property holds of every entry.
abbrev pub Every : (List ℕ → Handler → Type 0) → Map → Type 0
Every P m = (tag : List ℕ) (h : Handler) → lookup tag m ≡ some h → P tag h

-- The endpoints have their handlers.
abbrev pub Ready : External → List Outbound → Map → Type 0
Ready x os m = (tag : List ℕ) → Leads x os zero tag → Has m tag

with_actors-eq-some :
    (o : Outbound) (g : GroupProtocol) (s : GroupSettings) (hs : Handlers) (h : Handler)
    → with_actors o g s hs ≡ some h
    → (v : Handler) × (vs : Handlers) × (hs ≡ handler_and v vs)
      × (h ≡ group o.tag g (handler_and v vs) s)
unfolding with_actors
with_actors-eq-some o g s no_handlers h e = absurd (cc)
with_actors-eq-some o g s (handler_and v vs) h e = (v, vs, refl, cc)

with_group-eq-some :
    (o : Outbound) (g : GroupProtocol) (m : Map) (p : Option GroupSettings) (h : Handler)
    → with_group o g m p ≡ some h
    → (s : GroupSettings) × (p ≡ some s) × (with_actors o g s (actors_of s.actors m) ≡ some h)
unfolding with_group
with_group-eq-some o g m none h e = absurd (cc)
with_group-eq-some o g m (some s) h e = (s, refl, e)

group_of-eq-some :
    (x : External) (o : Outbound) (m : Map) (k : Kind) (h : Handler)
    → group_of x o m k ≡ some h
    → (g : GroupProtocol) × (k ≡ group_kind g)
      × (with_group o g m (x.parse_group g o.settings) ≡ some h)
unfolding group_of
group_of-eq-some x o m (endpoint_kind p) h e = absurd (cc)
group_of-eq-some x o m (group_kind g) h e = (g, refl, e)
group_of-eq-some x o m unknown h e = absurd (cc)

module _ (x : External) (os : List Outbound) (P : List ℕ → Handler → Type 0)
    (of_endpoint : (o : Outbound) (bind : SocketAddr) (h : Handler)
      → In o os
      → bind_of x o.bind ≡ ok bind
      → handler_of x o bind (kind_of o.protocol) ≡ some h
      → P o.tag h)
    (of_group : (o : Outbound) (g : GroupProtocol) (s : GroupSettings) (m : Map) (h : Handler)
        (hs : Handlers)
      → In o os
      → kind_of o.protocol ≡ group_kind g
      → x.parse_group g o.settings ≡ some s
      → Every P m
      → Ready x os m
      → actors_of s.actors m ≡ handler_and h hs
      → P o.tag (group o.tag g (handler_and h hs) s)) where
  put-Every :
      (k : List ℕ) (v : Option Handler) (m : Map)
      → ((h : Handler) → v ≡ some h → P k h)
      → Every P m
      → Every P (put k v m)
  put-Every k none m new_one all tag h e = all tag h e
  put-Every k (some v) m new_one all tag h e = elim (Bool-cases (text_eq k tag)) [
    | inl same ↦
        let first : some v ≡ some h = rw (lookup-insert k tag v m, same) at e in
        let key : k ≡ tag = (text_eq_iff k tag).0 same in rw (← key) (new_one h first)
    | inr other ↦ all tag h (rw (lookup-insert k tag v m, other) at e)
  ]

  endpoints-Every :
      (left : List Outbound) (m m' : HandlerManager)
      → ((o : Outbound) → In o left → In o os)
      → endpoints x left m ≡ ok m'
      → Every P m.handlers
      → Every P m'.handlers
  unfolding endpoints
  endpoints-Every [] m m' sub e all = let same : m ≡ m' = cc in rw (← same) all
  endpoints-Every (o ∷ left) m m' sub e all =
      let (bind, b, rest) = >>=-eq-ok (bind_of x o.bind) _ e in
      endpoints-Every left _ m' (λ q i. sub q (inr i)) rest
        (put-Every o.tag (handler_of x o bind (kind_of o.protocol)) m.handlers
          (λ h made. of_endpoint o bind h (sub o (inl refl)) b made) all)

  group_of-P :
      (o : Outbound) (m : Map) (h : Handler)
      → In o os
      → Every P m
      → Ready x os m
      → group_of x o m (kind_of o.protocol) ≡ some h
      → P o.tag h
  group_of-P o m h i all ready e =
      let (g, k, e1) = group_of-eq-some x o m (kind_of o.protocol) h e in
      let (s, p, e2) = with_group-eq-some o g m (x.parse_group g o.settings) h e1 in
      let (v, vs, a, q) = with_actors-eq-some o g s (actors_of s.actors m) h e2 in
      rw q (of_group o g s m v vs i k p all ready a)

  pass-Every :
      (left : List Outbound) (m : Map)
      → ((o : Outbound) → In o left → In o os)
      → Every P m
      → Ready x os m
      → Every P (pass x left m)
  unfolding pass
  pass-Every [] m sub all ready = all
  pass-Every (o ∷ left) m sub all ready =
      let made_of = group_of x o m (kind_of o.protocol) in
      pass-Every left _ (λ q i. sub q (inr i))
        (put-Every o.tag made_of m (λ h made. group_of-P o m h (sub o (inl refl)) all ready made)
          all)
        (λ tag d. put-Has o.tag tag made_of m (ready tag d))

  passes-Every :
      (n : ℕ) (m : Map)
      → Every P m
      → ((rounds : ℕ) → Ready x os (passes x rounds os m))
      → Every P (passes x n os m)
  unfolding passes
  passes-Every zero m all ready = all
  passes-Every (suc n) m all ready =
      pass-Every os (passes x n os m) (λ o i. i) (passes-Every n m all ready) (ready n)

  pub get-Every :
      (dns : Dns) (hm : HandlerManager) (tag : List ℕ) (h : Handler)
      → new x os dns ≡ ok hm
      → get tag hm ≡ some h
      → P tag h
  unfolding get lookup
  get-Every dns hm tag h e found =
      let (m, b, q) = new-eq-ok x os dns hm e in
      let all =
        passes-Every 4 m.handlers
          (endpoints-Every os _ m (λ o i. i) b (λ t v (none_yet : none ≡ some v). absurd (cc)))
          (λ rounds tag d. passes-Leads x os _ m zero rounds tag b d (omega arith)) in
      all tag h (rw q at found)
