-- ===== src/HandlerManager/Groups.antt =====
-- leaf/src/app/handler_manager.rs: which outbounds get a handler. A group needs an actor that has one.
use i_leaf.Prelude.{
  ℕ, zero, suc, ◌≤◌, ◌≡◌, refl, List, [], ◌∷◌, Option, none, some, Option-cases, Bool-cases, ◌⊎◌,
  inl, inr, ok, >>=-eq-ok, arith,
}
use i_leaf.Prelude.Assoc.{lookup, insert, lookup-insert}
use i_leaf.Prelude.Text.{text_beq, text_eq, text_eq_iff}
use i_leaf.Session.{SocketAddr}
use i_leaf.HandlerManager.{
  GroupProtocol, group_kind, kind_of, GroupSettings, Outbound, Dns, Handler, Handlers, handler_and,
  group, Map, HandlerManager, External, bind_of, handler_of, put, endpoints, actors_of, with_actors,
  with_group, group_of, pass, passes, new, new_dns_client, get,
}

abbrev pub In : {A : Type 0} → A → List A → Type 0
In a [] = ⊥
In a (x ∷ xs) = (a ≡ x) ⊎ In a xs

-- A handler of the tag is in the map.
abbrev pub Has : Map → List ℕ → Type 0
Has m tag = (h : Handler) × (lookup tag m ≡ some h)

module _ (x : External) (os : List Outbound) where
  -- The tag leads to an endpoint through this many groups, each with settings that parse.
  pub data Leads : ℕ → List ℕ → Type 0 where
    leads_endpoint :
        (o : Outbound) (bind : SocketAddr) (h : Handler)
        → In o os
        → bind_of x o.bind ≡ ok bind
        → handler_of x o bind (kind_of o.protocol) ≡ some h
        → Leads zero o.tag
    leads_group :
        (o : Outbound) (g : GroupProtocol) (s : GroupSettings) (actor : List ℕ) (n : ℕ)
        → In o os
        → kind_of o.protocol ≡ group_kind g
        → x.parse_group g o.settings ≡ some s
        → In actor s.actors
        → Leads n actor
        → Leads (suc n) o.tag

insert-Has : (k j : List ℕ) (h : Handler) (m : Map) → Has m j → Has (insert k h m) j
insert-Has k j h m (h', e) = elim (Bool-cases (text_eq k j)) [
  | inl same ↦ (h, rw (lookup-insert k j h m, same) refl)
  | inr other ↦ (h', rw (lookup-insert k j h m, other) e)
]

insert-Has_self : (k : List ℕ) (h : Handler) (m : Map) → Has (insert k h m) k
insert-Has_self k h m = (h, rw (lookup-insert k k h m, (text_eq_iff k k).1 refl) refl)

pub put-Has : (k j : List ℕ) (o : Option Handler) (m : Map) → Has m j → Has (put k o m) j
put-Has k j none m h = h
put-Has k j (some v) m h = insert-Has k j v m h

actors_of_some :
    (names : List (List ℕ)) (m : Map) (actor : List ℕ)
    → In actor names
    → Has m actor
    → (h : Handler) × (hs : Handlers) × (actors_of names m ≡ handler_and h hs)
unfolding actors_of
actors_of_some [] m actor i h = absurd i
actors_of_some (a ∷ names) m actor i (h, e) = elim (Option-cases (lookup a m)) [
  | inr (v, found) ↦ (v, actors_of names m, rw found refl)
  | inl gone ↦ elim i [
    | inl same ↦ absurd (cc)
    | inr later ↦ rw gone (actors_of_some names m actor later (h, e))
  ]
]

module _ (x : External) where
  group_of-some :
      (o : Outbound) (g : GroupProtocol) (s : GroupSettings) (actor : List ℕ) (m : Map)
      → kind_of o.protocol ≡ group_kind g
      → x.parse_group g o.settings ≡ some s
      → In actor s.actors
      → Has m actor
      → (h : Handler) × (group_of x o m (kind_of o.protocol) ≡ some h)
  unfolding group_of with_group with_actors
  group_of-some o g s actor m k p i h =
      let (v, vs, e) = actors_of_some s.actors m actor i h in
      (group o.tag g (handler_and v vs) s, rw (k, p, e) refl)

  pass-Has : (os : List Outbound) (m : Map) (tag : List ℕ) → Has m tag → Has (pass x os m) tag
  unfolding pass
  pass-Has [] m tag h = h
  pass-Has (o ∷ os) m tag h =
      pass-Has os _ tag (put-Has o.tag tag (group_of x o m (kind_of o.protocol)) m h)

  pass-Has_group :
      (os : List Outbound) (o : Outbound) (g : GroupProtocol) (s : GroupSettings) (actor : List ℕ)
      (m : Map)
      → In o os
      → kind_of o.protocol ≡ group_kind g
      → x.parse_group g o.settings ≡ some s
      → In actor s.actors
      → Has m actor
      → Has (pass x os m) o.tag
  unfolding pass
  pass-Has_group [] o g s actor m i k p a h = absurd i
  pass-Has_group (q ∷ os) o g s actor m (inl same) k p a h =
      let (v, e) = group_of-some o g s actor m k p a h in
      let here : Has (put q.tag (group_of x q m (kind_of q.protocol)) m) o.tag =
        rw (← same, e) (insert-Has_self o.tag v m) in
      pass-Has os _ o.tag here
  pass-Has_group (q ∷ os) o g s actor m (inr later) k p a h =
      pass-Has_group os o g s actor _ later k p a
        (put-Has q.tag actor (group_of x q m (kind_of q.protocol)) m h)

  passes-Has :
      (n : ℕ) (os : List Outbound) (m : Map) (tag : List ℕ) → Has m tag → Has (passes x n os m) tag
  unfolding passes
  passes-Has zero os m tag h = h
  passes-Has (suc n) os m tag h = pass-Has os (passes x n os m) tag (passes-Has n os m tag h)

  endpoints-Has :
      (os : List Outbound) (m m' : HandlerManager) (tag : List ℕ)
      → endpoints x os m ≡ ok m'
      → Has m.handlers tag
      → Has m'.handlers tag
  unfolding endpoints
  endpoints-Has [] m m' tag e h = let same : m ≡ m' = cc in rw (← same) h
  endpoints-Has (o ∷ os) m m' tag e h =
      let (bind, b, later) = >>=-eq-ok (bind_of x o.bind) _ e in
      endpoints-Has os _ m' tag later
        (put-Has o.tag tag (handler_of x o bind (kind_of o.protocol)) m.handlers h)

  endpoints-Has_endpoint :
      (os : List Outbound) (m m' : HandlerManager) (o : Outbound) (bind : SocketAddr) (h : Handler)
      → endpoints x os m ≡ ok m'
      → In o os
      → bind_of x o.bind ≡ ok bind
      → handler_of x o bind (kind_of o.protocol) ≡ some h
      → Has m'.handlers o.tag
  unfolding endpoints
  endpoints-Has_endpoint [] m m' o bind h e i b k = absurd i
  endpoints-Has_endpoint (q ∷ os) m m' o bind h e (inr later) b k =
      let (bind', b', rest) = >>=-eq-ok (bind_of x q.bind) _ e in
      endpoints-Has_endpoint os _ m' o bind h rest later b k
  endpoints-Has_endpoint (q ∷ os) m m' o bind h e (inl same) b k =
      let (bind', b', rest) = >>=-eq-ok (bind_of x q.bind) _ e in
      let to_q : bind_of x q.bind ≡ ok bind = rw (← same) b in
      let bind_eq : bind' ≡ bind = cc in
      let here : Has (put q.tag (handler_of x q bind' (kind_of q.protocol)) m.handlers) o.tag =
        rw (bind_eq, ← same, k) (insert-Has_self o.tag h m.handlers) in
      endpoints-Has os _ m' o.tag rest here

  pub new-eq-ok :
      (os : List Outbound) (dns : Dns) (hm : HandlerManager)
      → new x os dns ≡ ok hm
      → (m : HandlerManager) × (endpoints x os (record { handlers = []; default_handler = none })
          ≡ ok m)
        × (hm ≡ record m { handlers = passes x 4 os m.handlers })
  unfolding new
  new-eq-ok os dns hm e =
      let (client, c, rest) = >>=-eq-ok (new_dns_client x dns) _ e in
      let (m, b, last) =
        >>=-eq-ok (endpoints x os (record { handlers = []; default_handler = none })) _ rest in
      (m, b, cc)

  pub passes-Leads :
      (os : List Outbound) (m m' : HandlerManager) (n rounds : ℕ) (tag : List ℕ)
      → endpoints x os m ≡ ok m'
      → Leads x os n tag
      → n ≤ rounds
      → Has (passes x rounds os m'.handlers) tag
  unfolding passes
  passes-Leads os m m' n rounds tag e (leads_endpoint o bind h i b k) l =
      passes-Has rounds os m'.handlers o.tag (endpoints-Has_endpoint os m m' o bind h e i b k)
  passes-Leads os m m' n zero tag e (leads_group o g s actor j i k p a d) l = absurd (omega arith)
  passes-Leads os m m' n (suc rounds) tag e (leads_group o g s actor j i k p a d) l =
      pass-Has_group os o g s actor (passes x rounds os m'.handlers) i k p a
        (passes-Leads os m m' j rounds actor e d (omega arith))

  -- Every outbound from which an endpoint is reached through at most four groups, each with
  -- settings that parse, has a handler, in whatever order the configuration lists them.
  pub get-Leads :
      (os : List Outbound) (dns : Dns) (hm : HandlerManager) (n : ℕ) (tag : List ℕ)
      → new x os dns ≡ ok hm
      → Leads x os n tag
      → n ≤ 4
      → (h : Handler) × (get tag hm ≡ some h)
  unfolding get
  get-Leads os dns hm n tag e d l =
      let (m, b, q) = new-eq-ok os dns hm e in
      let (h, found) = passes-Leads os _ m n 4 tag b d l in (h, rw q found)
