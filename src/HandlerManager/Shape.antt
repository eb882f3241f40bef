-- ===== src/HandlerManager/Shape.antt =====
-- leaf/src/app/handler_manager.rs: where every handler comes from, and how it is built.
use i_leaf.Prelude.{
  ℕ, zero, suc, ◌≡◌, ◌≢◌, refl, sym, ◌%◌, ◌^◌, List, [], ◌∷◌, Option, none, some, Option-cases, ◌⊎◌,
  inl, inr, ok,
}
use i_leaf.Prelude.Assoc.{lookup}
use i_leaf.Prelude.Text.{text_beq}
use i_leaf.Session.{SocketAddr}
use i_leaf.HandlerManager.{
  HandlerType, direct_type, endpoint_type, bind_of, Protocol, Settings, endpoint_kind, group_kind,
  unknown, Outbound, Dns, Kind, kind_of, Handler, Handlers, no_handlers, handler_and, endpoint,
  group, Map, HandlerManager, External, handler_of, endpoint_of, actors_of, new, get, tag_of,
  direct, drop, with_settings,
}
use i_leaf.HandlerManager.Groups.{In, Leads, leads_endpoint, leads_group}
use i_leaf.HandlerManager.Every.{Every, get-Every}

some_actor :
    (names : List (List ℕ)) (m : Map) (h : Handler) (hs : Handlers)
    → actors_of names m ≡ handler_and h hs
    → (actor : List ℕ) × (v : Handler) × In actor names × (lookup actor m ≡ some v)
unfolding actors_of
some_actor [] m h hs e = absurd (cc)
some_actor (a ∷ names) m h hs e = elim (Option-cases (lookup a m)) [
  | inr (v, found) ↦ (a, v, inl refl, found)
  | inl gone ↦
      let (actor, v, i, found) = some_actor names m h hs (rw gone at e) in (actor, v, inr i, found)
]

-- A tag that has a handler leads to an endpoint: a group gets no handler from groups alone.
Leads-get :
    (x : External) (os : List Outbound) (dns : Dns) (hm : HandlerManager) (tag : List ℕ)
    (h : Handler)
    → new x os dns ≡ ok hm
    → get tag hm ≡ some h
    → (n : ℕ) × Leads x os n tag
Leads-get x os dns hm tag h =
    get-Every x os (λ tag h. (n : ℕ) × Leads x os n tag)
      (λ o bind h i b made. (zero, leads_endpoint o bind h i b made))
      (λ o g s m h hs i k p all ready a.
        let (actor, v, in_actors, found) = some_actor s.actors m h hs a in
        let (n, d) = all actor v found in (suc n, leads_group o g s actor n i k p in_actors d))
      dns hm tag h

-- The first list is the second with some members left out.
abbrev pub Within : List (List ℕ) → List (List ℕ) → Type 0
Within [] ys = Unit {0}
Within (x ∷ xs) [] = ⊥
Within (x ∷ xs) (y ∷ ys) = ((x ≡ y) × Within xs ys) ⊎ Within (x ∷ xs) ys

Within-skip : (xs ys : List (List ℕ)) (y : List ℕ) → Within xs ys → Within xs (y ∷ ys)
Within-skip [] ys y w = tt
Within-skip (x ∷ xs) ys y w = inr w

abbrev pub tags : Handlers → List (List ℕ)
tags no_handlers = []
tags (handler_and h hs) = tag_of h ∷ tags hs

pub some_injective : {h h' : Handler} → ◌≡◌ {A = Option Handler} (some h) (some h') → h ≡ h'
some_injective e = cc

abbrev pub expected_type : Protocol → HandlerType
expected_type direct = direct_type
expected_type p = endpoint_type

module _ (x : External) (os : List Outbound) where
  -- What an endpoint holds of its outbound's settings: nothing for `direct` and `drop`, and what they
  -- parse to for all others, the port as 16 bits.
  abbrev pub Configured : Outbound → Protocol → Option Settings → Type 0
  Configured o direct settings = settings ≡ none
  Configured o drop settings = settings ≡ none
  Configured o p settings =
      (s : Settings) × (x.parse_settings p o.settings ≡ some s)
      × (settings ≡ some (record s { port = s.port % 2 ^ 16 }))

  -- An outbound of the configuration, of the kind that is asked for.
  abbrev pub Comes : List ℕ → Kind → Outbound → Type 0
  Comes tag kind o = In o os × (o.tag ≡ tag) × (kind_of o.protocol ≡ kind)

  -- An endpoint is what an outbound of the configuration with its tag and protocol says. A group
  -- has the settings of such an outbound; its actors are some of those that these settings name, in
  -- their order, at least one, and they are built so themselves.
  abbrev mutual
    pub IsBuilt : Handler → Type 0
    IsBuilt (endpoint tag type protocol settings bind) =
        (o : Outbound) × Comes tag (endpoint_kind protocol) o
        × (type ≡ expected_type protocol)
        × (bind_of x o.bind ≡ ok bind)
        × Configured o protocol settings
    IsBuilt (group tag protocol hs settings) =
        ((o : Outbound) × Comes tag (group_kind protocol) o
          × (x.parse_group protocol o.settings ≡ some settings))
        × (hs ≢ no_handlers)
        × Within (tags hs) settings.actors
        × AreBuilt hs

    pub AreBuilt : Handlers → Type 0
    AreBuilt no_handlers = Unit {0}
    AreBuilt (handler_and h hs) = IsBuilt h × AreBuilt hs

  abbrev Named : List ℕ → Handler → Type 0
  Named tag h = (tag_of h ≡ tag) × IsBuilt h

  actors_of-AreBuilt :
      (names : List (List ℕ)) (m : Map)
      → Every Named m
      → Within (tags (actors_of names m)) names × AreBuilt (actors_of names m)
  unfolding actors_of
  actors_of-AreBuilt [] m all = (tt, tt)
  actors_of-AreBuilt (a ∷ names) m all =
      let (w, b) = actors_of-AreBuilt names m all in
      elim (Option-cases (lookup a m)) [
        | inl gone ↦ rw gone (Within-skip (tags (actors_of names m)) names a w, b)
        | inr (v, found) ↦ let (t, built) = all a v found in rw found (inl (t, w), (built, b))
      ]

  module _ (o : Outbound) (bind : SocketAddr) (i : In o os) (bound : bind_of x o.bind ≡ ok bind)
      (h : Handler) where
    settings-Named :
        (p : Protocol) (s : Option Settings)
        → kind_of o.protocol ≡ endpoint_kind p
        → expected_type p ≡ endpoint_type
        → ((v : Settings)
            → s ≡ some v
            → Configured o p (some (record v { port = v.port % 2 ^ 16 })))
        → with_settings o p bind s ≡ some h
        → Named o.tag h
    unfolding tag_of
    settings-Named p none k t c e = absurd (cc)
    settings-Named p (some s) k t c e =
        let q = some_injective e in rw (← q) (refl, (o, (i, refl, k), sym t, bound, c s refl))

    endpoint_of-Named :
        (p : Protocol)
        → kind_of o.protocol ≡ endpoint_kind p
        → endpoint_of x o bind p ≡ some h
        → Named o.tag h
    unfolding endpoint_of tag_of
    endpoint_of-Named direct k e =
        let q = some_injective e in rw (← q) (refl, (o, (i, refl, k), refl, bound, refl))
    endpoint_of-Named drop k e =
        let q = some_injective e in rw (← q) (refl, (o, (i, refl, k), refl, bound, refl))
    endpoint_of-Named p k e =
        settings-Named p (x.parse_settings p o.settings) k refl (λ v parsed. (v, parsed, refl)) e

    pub endpoint-Named :
        (k : Kind) → kind_of o.protocol ≡ k → handler_of x o bind k ≡ some h → Named o.tag h
    unfolding handler_of
    endpoint-Named (endpoint_kind p) k e = endpoint_of-Named p k e
    endpoint-Named (group_kind g) k e = absurd (cc)
    endpoint-Named unknown k e = absurd (cc)

-- The handler of a tag comes from an outbound of the configuration with this tag: for an endpoint
-- the outbound has its protocol, its address, and settings that parse to its own, and the handler's
-- type is direct for the protocol `direct` only; for a group it has its protocol and settings that
-- parse to its own, and the group's actors are handlers that come from the configuration in the
-- same way and bear tags that these settings name, in their order, at least one.
pub get-IsBuilt :
    (x : External) (os : List Outbound) (dns : Dns) (hm : HandlerManager) (tag : List ℕ)
    (h : Handler)
    → new x os dns ≡ ok hm
    → get tag hm ≡ some h
    → (tag_of h ≡ tag) × IsBuilt x os h
unfolding tag_of
get-IsBuilt x os dns hm tag h =
    get-Every x os (Named x os)
      (λ o bind h i b made. endpoint-Named x os o bind i b h (kind_of o.protocol) refl made)
      (λ o g s m h hs i k p all ready a.
        let (w, b) = actors_of-AreBuilt x os s.actors m all in
        (refl, ((o, (i, refl, k), p), (cc), rw a at w, rw a at b)))
      dns hm tag h
