-- ===== src/Chain/Hops.antt =====
-- leaf/src/proxy/chain/tcp.rs: which server an actor of the chain is asked to reach.
use i_leaf.Prelude.{
  ℕ, ◌≡◌, ◌⊎◌, inl, inr, refl, sym, ap, ◌∙◌, List, [], ◌∷◌, ◌++◌, All, Option, none, some,
  Option-cases, Outcome, ok, >>=_ext,
}
use i_leaf.Prelude.Stream.{IoError}
use i_leaf.Session.{IpAddr, SocksAddr}
use i_leaf.Chain.{Actor, hop, replaced, next_hop, last_hop, run, handle}

-- The list from its end.
abbrev pub backwards {ℓ} : {A : Type ℓ} → List A → List A
backwards [] = []
backwards (x ∷ xs) = backwards xs ++ (x ∷ [])

module _ {S : Type 0} (parse_ip : List ℕ → Option IpAddr)
    (dial : List ℕ → ℕ → Outcome IoError S) where
  -- The first actor whose server's address parses decides, if there is one.
  abbrev pub FirstHop : SocksAddr → List (Actor S) → SocksAddr → Type 0
  FirstHop destination later result =
      (All (λ (a : Actor S). hop parse_ip dial a ≡ none) later × (result ≡ destination))
      ⊎ ((before : List (Actor S)) × (a : Actor S) × (after : List (Actor S)) × (later
            ≡ before ++ (a ∷ after))
          × All (λ (b : Actor S). hop parse_ip dial b ≡ none) before
          × (hop parse_ip dial a ≡ some result))

  next_hop-some :
      (destination addr : SocksAddr) (a : Actor S) (later : List (Actor S))
      → hop parse_ip dial a ≡ some addr
      → next_hop parse_ip dial destination (a ∷ later) ≡ addr
  unfolding next_hop
  next_hop-some destination addr a later h = rw h refl

  next_hop-none :
      (destination : SocksAddr) (a : Actor S) (later : List (Actor S))
      → hop parse_ip dial a ≡ none
      → next_hop parse_ip dial destination (a ∷ later) ≡ next_hop parse_ip dial destination later
  unfolding next_hop
  next_hop-none destination a later h = rw h refl

  -- On a connection that the chain dials itself, each actor is asked for the first later server
  -- whose address parses, and for the session's destination where there is none.
  next_hop-FirstHop :
      (destination : SocksAddr) (later : List (Actor S))
      → FirstHop destination later (next_hop parse_ip dial destination later)
  next_hop-FirstHop destination [] = unfold next_hop in inl (tt, refl)
  next_hop-FirstHop destination (a ∷ later) = elim (Option-cases (hop parse_ip dial a)) [
    | inr (addr, h) ↦
        rw (next_hop-some destination addr a later h) (inr ([], a, later, refl, tt, h))
    | inl h ↦ elim (next_hop-FirstHop destination later) [
      | inl (none_later, e) ↦ inl ((h, none_later), next_hop-none destination a later h ∙ e)
      | inr (before, b, after, e, f, g) ↦ inr (
        a ∷ before,
        b,
        after,
        ap (◌∷◌ a) e,
        (h, f),
        g ∙ ap some (sym (next_hop-none destination a later h)),
      )
    ]
  ]

  next_hop-append :
      (destination : SocksAddr) (xs ys : List (Actor S))
      → next_hop parse_ip dial destination (xs ++ ys)
        ≡ next_hop parse_ip dial (next_hop parse_ip dial destination ys) xs
  unfolding next_hop
  next_hop-append destination [] ys = refl
  next_hop-append destination (a ∷ xs) ys = elim (Option-cases (hop parse_ip dial a)) [
    | inr (addr, h) ↦ rw h refl
    | inl h ↦ rw h (next_hop-append destination xs ys)
  ]

  -- On a connection that the chain is given, the inner loop does not stop at the first later
  -- server: what an actor is asked for is the first one from the end of the chain.
  pub last_hop-next_hop :
      (destination : SocksAddr) (later : List (Actor S))
      → last_hop parse_ip dial destination later
        ≡ next_hop parse_ip dial destination (backwards later)
  unfolding last_hop
  last_hop-next_hop destination [] = unfold next_hop in refl
  last_hop-next_hop destination (a ∷ later) = elim (Option-cases (hop parse_ip dial a)) [
    | inr (addr, h) ↦ rw h (
        last_hop-next_hop addr later
        ∙ sym (
            next_hop-append destination (backwards later) (a ∷ [])
            ∙ ap (λ (d : SocksAddr). next_hop parse_ip dial d (backwards later))
                (next_hop-some destination addr a [] h)))
    | inl h ↦ rw h (
        last_hop-next_hop destination later
        ∙ sym (
            next_hop-append destination (backwards later) (a ∷ [])
            ∙ ap (λ (d : SocksAddr). next_hop parse_ip dial d (backwards later))
                (next_hop-none destination a [] h ∙ unfold next_hop in refl)))
  ]

  abbrev pub NoHop : List (Actor S) → Type 0
  NoHop later = All (λ (a : Actor S). hop parse_ip dial a ≡ none) later

  -- At most one of the actors has a server whose address parses.
  abbrev pub AtMostOneHop : List (Actor S) → Type 0
  AtMostOneHop [] = Unit {0}
  AtMostOneHop (a ∷ later) = ((hop parse_ip dial a ≡ none) × AtMostOneHop later) ⊎ NoHop later

  last_hop-NoHop :
      (destination : SocksAddr) (later : List (Actor S))
      → NoHop later
      → last_hop parse_ip dial destination later ≡ destination
  unfolding last_hop
  last_hop-NoHop destination [] h = refl
  last_hop-NoHop destination (a ∷ later) (h, t) = rw h (last_hop-NoHop destination later t)

  next_hop-NoHop :
      (destination : SocksAddr) (later : List (Actor S))
      → NoHop later
      → next_hop parse_ip dial destination later ≡ destination
  unfolding next_hop
  next_hop-NoHop destination [] h = refl
  next_hop-NoHop destination (a ∷ later) (h, t) = rw h (next_hop-NoHop destination later t)

  hops_agree :
      (destination : SocksAddr) (later : List (Actor S))
      → AtMostOneHop later
      → last_hop parse_ip dial destination later ≡ next_hop parse_ip dial destination later
  unfolding last_hop next_hop
  hops_agree destination [] h = refl
  hops_agree destination (a ∷ later) (inl (h, t)) = rw h (hops_agree destination later t)
  hops_agree destination (a ∷ later) (inr t) =
      last_hop-NoHop (replaced (hop parse_ip dial a) destination) later t
      ∙ ap (replaced (hop parse_ip dial a)) (sym (next_hop-NoHop destination later t))

  AtMostOneHop-of_NoHop : (later : List (Actor S)) → NoHop later → AtMostOneHop later
  AtMostOneHop-of_NoHop [] h = tt
  AtMostOneHop-of_NoHop (a ∷ later) (h, t) = inr t

  AtMostOneHop-tail :
      (a : Actor S) (later : List (Actor S)) → AtMostOneHop (a ∷ later) → AtMostOneHop later
  AtMostOneHop-tail a later (inl (h, t)) = t
  AtMostOneHop-tail a later (inr t) = AtMostOneHop-of_NoHop later t

  runs_agree :
      (destination : SocksAddr) (a : Actor S) (later : List (Actor S)) (stream : S)
      → AtMostOneHop later
      → run parse_ip dial (last_hop parse_ip dial) destination (a ∷ later) stream
        ≡ run parse_ip dial (next_hop parse_ip dial) destination (a ∷ later) stream
  unfolding run
  runs_agree destination a [] stream h = rw (hops_agree destination [] h) refl
  runs_agree destination a (b ∷ rest) stream h = rw (hops_agree destination (b ∷ rest) h) (
      >>=_ext (a.handle (next_hop parse_ip dial destination (b ∷ rest)) (some stream)) _ _
        (λ next. runs_agree destination b rest next (AtMostOneHop-tail b rest h)))

  -- Where at most one actor behind the first has a server whose address parses, a chain behaves
  -- on the stream that it is given as on the one that it dials; the first actor has a server, and
  -- dialling it gives the stream.
  pub handle-given :
      (destination : SocksAddr) (a : Actor S) (later : List (Actor S)) (stream : S)
      (server : List ℕ × ℕ)
      → a.connect_addr ≡ some server
      → dial server.0 server.1 ≡ ok stream
      → AtMostOneHop later
      → handle parse_ip dial (a ∷ later) destination (some stream)
        ≡ handle parse_ip dial (a ∷ later) destination none
  unfolding handle
  handle-given destination a later stream server c d h =
      runs_agree destination a later stream h ∙ rw (c, d) refl
