-- ===== src/HandlerManager/Whole.antt =====
-- leaf/src/app/handler_manager.rs: the groups that get all of their actors.
use i_leaf.Prelude.{ℕ, zero, ◌≡◌, refl, ap₂, List, [], ◌∷◌, All, Option, none, some, ok}
use i_leaf.Prelude.Text.{text_beq}
use i_leaf.Session.{SocketAddr}
use i_leaf.HandlerManager.{
  Protocol, direct, drop, Settings, Outbound, Dns, Kind, endpoint_kind, group_kind, unknown,
  kind_of, Handler, endpoint, group, Map, HandlerManager, External, with_settings, endpoint_of,
  handler_of, actors_of, new, get, tag_of,
}
use i_leaf.HandlerManager.Groups.{Leads}
use i_leaf.HandlerManager.Every.{Every, Ready, get-Every}
use i_leaf.HandlerManager.Shape.{tags, some_injective, endpoint-Named}

module _ (x : External) (os : List Outbound) where
  -- A group whose actors are all endpoints has a handler for each of them.
  abbrev pub IsWhole : Handler → Type 0
  IsWhole (endpoint tag type protocol settings bind) = Unit {0}
  IsWhole (group tag protocol hs settings) =
      All (λ (a : List ℕ). Leads x os zero a) settings.actors → tags hs ≡ settings.actors

  abbrev pub Whole : List ℕ → Handler → Type 0
  Whole tag h = (tag_of h ≡ tag) × IsWhole h

  settings-IsWhole :
      (o : Outbound) (bind : SocketAddr) (p : Protocol) (s : Option Settings) (h : Handler)
      → with_settings o p bind s ≡ some h
      → IsWhole h
  settings-IsWhole o bind p none h e = absurd (cc)
  settings-IsWhole o bind p (some s) h e = let q = some_injective e in rw (← q) tt

  endpoint_of-IsWhole :
      (o : Outbound) (bind : SocketAddr) (p : Protocol) (h : Handler)
      → endpoint_of x o bind p ≡ some h
      → IsWhole h
  unfolding endpoint_of
  endpoint_of-IsWhole o bind direct h e = let q = some_injective e in rw (← q) tt
  endpoint_of-IsWhole o bind drop h e = let q = some_injective e in rw (← q) tt
  endpoint_of-IsWhole o bind p h e = settings-IsWhole o bind p (x.parse_settings p o.settings) h e

  handler_of-IsWhole :
      (o : Outbound) (bind : SocketAddr) (k : Kind) (h : Handler)
      → handler_of x o bind k ≡ some h
      → IsWhole h
  unfolding handler_of
  handler_of-IsWhole o bind (endpoint_kind p) h e = endpoint_of-IsWhole o bind p h e
  handler_of-IsWhole o bind (group_kind g) h e = absurd (cc)
  handler_of-IsWhole o bind unknown h e = absurd (cc)

  tags-actors_of :
      (names : List (List ℕ)) (m : Map)
      → Every Whole m
      → Ready x os m
      → All (λ (a : List ℕ). Leads x os zero a) names
      → tags (actors_of names m) ≡ names
  unfolding actors_of
  tags-actors_of [] m all ready leads = refl
  tags-actors_of (a ∷ names) m all ready (d, leads) =
      let (h, found) = ready a d in
      rw found (ap₂ ◌∷◌ (all a h found).0 (tags-actors_of names m all ready leads))

  -- Where all the actors that a group's settings name are endpoints, it has all of them, in their
  -- order.
  pub get-Whole :
      (dns : Dns) (hm : HandlerManager) (tag : List ℕ) (h : Handler)
      → new x os dns ≡ ok hm
      → get tag hm ≡ some h
      → Whole tag h
  unfolding tag_of
  get-Whole dns hm tag h =
      get-Every x os Whole
        (λ o bind h i b made. (
          (endpoint-Named x os o bind i b h (kind_of o.protocol) refl made).0,
          handler_of-IsWhole o bind (kind_of o.protocol) h made,
        ))
        (λ o g s m h hs i k p all ready a.
          (refl, λ leads. rw a at (tags-actors_of s.actors m all ready leads)))
        dns hm tag h
