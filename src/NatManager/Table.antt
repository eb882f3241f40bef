-- ===== src/NatManager/Table.antt =====
-- leaf/src/app/nat_manager.rs: what the operations do to the sessions in the table.
use i_leaf.Prelude.{
  ℕ, ◌-◌, ◌≡◌, refl, ap, ◌∙◌, List, [], ◌∷◌, All, false, leb, if◌then◌else◌, Bool-cases, inl, inr,
  Option, none, some, arith,
}
use i_leaf.Prelude.Assoc.{lookup, insert, remove, lookup-insert, lookup-remove}
use i_leaf.Session.{SocketAddr}
use i_leaf.NatManager.{same_socket, same_socket_iff, socket_eq, Entry, is_idle, retained}

abbrev pub Sessions : Type 0
Sessions = List (SocketAddr × Entry)

-- No key stands twice.
abbrev pub IsUnique : Sessions → Type 0
IsUnique [] = Unit {0}
IsUnique ((k, e) ∷ m) = (lookup k m ≡ none) × IsUnique m

abbrev pub kept : ℕ → Option Entry → Option Entry
kept now none = none
kept now (some e) = if leb 30 (now - e.last_active) then none else some e

pub lookup-retained :
    (now : ℕ) (k : SocketAddr) (m : Sessions)
    → IsUnique m
    → lookup k (retained now m) ≡ kept now (lookup k m)
unfolding lookup retained is_idle
lookup-retained now k [] h = refl
lookup-retained now k ((j, e) ∷ m) (h, u) =
    let rest = lookup-retained now k m u in
    elim (Bool-cases (same_socket j k)) [
      | inl same ↦
          let eq : j ≡ k = (same_socket_iff j k).0 same in
          let gone : lookup k m ≡ none = rw eq at h in
          elim (Bool-cases (is_idle now e)) [
            | inl idle ↦ rw (idle, same, idle) (rest ∙ ap (kept now) gone)
            | inr busy ↦ rw (busy, same) (rw busy refl)
          ]
      | inr other ↦ elim (Bool-cases (is_idle now e)) [
        | inl idle ↦ rw (idle, other) rest
        | inr busy ↦ rw (busy, other) rest
      ]
    ]

pub IsUnique-insert :
    (k : SocketAddr) (v : Entry) (m : Sessions) → IsUnique m → IsUnique (insert k v m)
unfolding insert lookup
IsUnique-insert k v [] h = (refl, tt)
IsUnique-insert k v ((j, e) ∷ m) (h, u) = elim (Bool-cases (same_socket j k)) [
  | inl same ↦
      let eq : j ≡ k = (same_socket_iff j k).0 same in
      let gone : lookup k m ≡ none = rw eq at h in rw same (gone, u)
  | inr other ↦
      let apart : same_socket k j ≡ false =
        ground (arith, same_socket_iff k j, same_socket_iff j k) in
      let gone : lookup j (insert k v m) ≡ none = rw (lookup-insert k j v m, apart) h in
      rw other (gone, IsUnique-insert k v m u)
]

lookup-remove-none :
    (j k : SocketAddr) (m : Sessions) → lookup j m ≡ none → lookup j (remove k m) ≡ none
lookup-remove-none j k m h = elim (Bool-cases (same_socket k j)) [
  | inl same ↦ rw (lookup-remove k j m, same) refl
  | inr other ↦ rw (lookup-remove k j m, other) h
]

pub IsUnique-remove : (k : SocketAddr) (m : Sessions) → IsUnique m → IsUnique (remove k m)
unfolding remove
IsUnique-remove k [] h = tt
IsUnique-remove k ((j, e) ∷ m) (h, u) = elim (Bool-cases (same_socket j k)) [
  | inl same ↦ rw same (IsUnique-remove k m u)
  | inr other ↦ rw other (lookup-remove-none j k m h, IsUnique-remove k m u)
]

pub IsUnique-retained : (now : ℕ) (m : Sessions) → IsUnique m → IsUnique (retained now m)
unfolding retained is_idle
IsUnique-retained now [] h = tt
IsUnique-retained now ((j, e) ∷ m) (h, u) = elim (Bool-cases (is_idle now e)) [
  | inl idle ↦ rw idle (IsUnique-retained now m u)
  | inr busy ↦ rw busy (lookup-retained now j m u ∙ ap (kept now) h, IsUnique-retained now m u)
]

module _ (P : Entry → Type 0) where
  abbrev pub Entries : Sessions → Type 0
  Entries m = All (λ (p : SocketAddr × Entry). P p.1) m

  pub Entries-insert :
      (k : SocketAddr) (v : Entry) (m : Sessions) → P v → Entries m → Entries (insert k v m)
  unfolding insert
  Entries-insert k v [] h a = (h, tt)
  Entries-insert k v ((j, e) ∷ m) h (p, a) = elim (Bool-cases (same_socket j k)) [
    | inl same ↦ rw same (h, a)
    | inr other ↦ rw other (p, Entries-insert k v m h a)
  ]

  pub Entries-remove : (k : SocketAddr) (m : Sessions) → Entries m → Entries (remove k m)
  unfolding remove
  Entries-remove k [] a = tt
  Entries-remove k ((j, e) ∷ m) (p, a) = elim (Bool-cases (same_socket j k)) [
    | inl same ↦ rw same (Entries-remove k m a)
    | inr other ↦ rw other (p, Entries-remove k m a)
  ]

  pub Entries-retained : (now : ℕ) (m : Sessions) → Entries m → Entries (retained now m)
  unfolding retained
  Entries-retained now [] a = tt
  Entries-retained now ((j, e) ∷ m) (p, a) = elim (Bool-cases (is_idle now e)) [
    | inl idle ↦ rw idle (Entries-retained now m a)
    | inr busy ↦ rw busy (p, Entries-retained now m a)
  ]

  pub Entries-lookup :
      (k : SocketAddr) (e : Entry) (m : Sessions) → lookup k m ≡ some e → Entries m → P e
  unfolding lookup
  Entries-lookup k e [] h a = absurd cc
  Entries-lookup k e ((j, v) ∷ m) h (p, a) = elim (Bool-cases (same_socket j k)) [
    | inl same ↦ let here : some v ≡ some e = rw same at h in let eq : v ≡ e = cc in rw (← eq) p
    | inr other ↦ Entries-lookup k e m (rw other at h) a
  ]

pub Entries-mono :
    (P Q : Entry → Type 0) (m : Sessions) → ((e : Entry) → P e → Q e) → Entries P m → Entries Q m
Entries-mono P Q [] f a = tt
Entries-mono P Q ((k, e) ∷ m) f (p, a) = (f e p, Entries-mono P Q m f a)
