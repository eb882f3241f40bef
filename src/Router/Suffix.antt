-- ===== src/Router/Suffix.antt =====
-- leaf/src/app/router.rs: `is_sub_domain` against its meaning on whole names.
use i_leaf.Prelude.{
  ℕ, ◌≡◌, ◌↔◌, ◌⊎◌, inl, inr, refl, sym, ap, ap₂, ◌∙◌, List, [], ◌∷◌, ◌++◌, length-append, true,
  ◌==◌, arith, Bool-cases,
}
use i_leaf.Prelude.Text.{text_eq_iff}
use i_leaf.Router.{dot, split, extend_first, parts_match, is_sub_domain}
use mathlib.Core.List.{reverse, reverse-append, reverse-reverse, append_assoc}

-- The text of parts, with dots between them; the opposite of `split`.
abbrev join : List (List ℕ) → List ℕ
join [] = []
join (p ∷ []) = p
join (p ∷ q ∷ ps) = p ++ (dot ∷ join (q ∷ ps))

join-extend_first :
    (c : ℕ) (p : List ℕ) (ps : List (List ℕ)) → join (extend_first c (p ∷ ps)) ≡ c ∷ join (p ∷ ps)
join-extend_first c p [] = refl
join-extend_first c p (q ∷ ps) = refl

-- `split` gives a part at least.
split-cons : (s : List ℕ) → (p : List ℕ) × (ps : List (List ℕ)) × (split s ≡ p ∷ ps)
unfolding split
split-cons [] = ([], [], refl)
split-cons (c ∷ s) = elim (Bool-cases (c == dot)) [
  | inl e ↦ ([], split s, rw e refl)
  | inr e ↦ let (p, ps, h) = split-cons s in (c ∷ p, ps, rw (e, h) refl)
]

join-split : (s : List ℕ) → join (split s) ≡ s
unfolding split
join-split [] = refl
join-split (c ∷ s) =
    let (p, ps, h) = split-cons s in
    elim (Bool-cases (c == dot)) [
      | inl e ↦
          let same : dot ≡ c = ground arith in
          rw (e, h) ((ap₂ (λ (x : ℕ) (y : List ℕ). x ∷ y) same (rw h at (join-split s))))
      | inr e ↦ rw (e, h, join-extend_first c p ps) (ap (◌∷◌ c) (rw h at (join-split s)))
    ]

split-append_dot : (u v : List ℕ) → split (u ++ (dot ∷ v)) ≡ split u ++ split v
unfolding split
split-append_dot [] v = refl
split-append_dot (c ∷ u) v =
    let (p, ps, h) = split-cons u in
    elim (Bool-cases (c == dot)) [
      | inl e ↦ rw e (ap (◌∷◌ []) (split-append_dot u v))
      | inr e ↦ rw (e, split-append_dot u v, h) refl
    ]

join-append :
    (q : List ℕ) (qs : List (List ℕ)) (p : List ℕ) (ps : List (List ℕ))
    → join ((q ∷ qs) ++ (p ∷ ps)) ≡ join (q ∷ qs) ++ (dot ∷ join (p ∷ ps))
join-append q [] p ps = refl
join-append q (r ∷ qs) p ps =
    rw (join-append r qs p ps) (sym (append_assoc q (dot ∷ join (r ∷ qs)) (dot ∷ join (p ∷ ps))))

-- The loop accepts when the parts of the second begin those of the first.
parts_match_prefix :
    (ps vs : List (List ℕ)) → parts_match ps vs ≡ true → (rest : List (List ℕ)) × (ps ≡ vs ++ rest)
unfolding parts_match
parts_match_prefix ps [] h = (ps, refl)
parts_match_prefix [] (v ∷ vs) h = cc
parts_match_prefix (p ∷ ps) (v ∷ vs) h =
    let same : p ≡ v = (text_eq_iff p v).0 (ground arith) in
    let (rest, e) = parts_match_prefix ps vs (ground arith) in
    (rest, ap₂ (λ (x : List ℕ) (y : List (List ℕ)). x ∷ y) same e)

parts_match_append : (vs rest : List (List ℕ)) → parts_match (vs ++ rest) vs ≡ true
unfolding parts_match
parts_match_append [] rest = refl
parts_match_append (v ∷ vs) rest = rw ((text_eq_iff v v).1 refl) (parts_match_append vs rest)

Below : List ℕ → List ℕ → Type 0
Below d1 d2 = (d1 ≡ d2) ⊎ ((u : List ℕ) × (d1 ≡ u ++ (dot ∷ d2)))

names_of_parts :
    (d1 d2 : List ℕ) (front : List (List ℕ)) → split d1 ≡ front ++ split d2 → Below d1 d2
unfolding Below
names_of_parts d1 d2 [] e = inl (sym (join-split d1) ∙ ap join e ∙ join-split d2)
names_of_parts d1 d2 (q ∷ qs) e =
    let (p, ps, h) = split-cons d2 in
    let tail : join (p ∷ ps) ≡ d2 = rw h at (join-split d2) in
    inr (
      join (q ∷ qs),
      sym (join-split d1)
          ∙ ap join (rw h at e)
          ∙ join-append q qs p ps
          ∙ ap (λ (t : List ℕ). join (q ∷ qs) ++ (dot ∷ t)) tail,
    )

parts_of_names :
    (d1 d2 : List ℕ) → Below d1 d2 → (front : List (List ℕ)) × (split d1 ≡ front ++ split d2)
unfolding Below
parts_of_names d1 d2 (inl e) = ([], ap split e)
parts_of_names d1 d2 (inr (u, e)) = (split u, ap split e ∙ split-append_dot u d2)

is_sub_domain_parts :
    (d1 d2 : List ℕ)
    → is_sub_domain d1 d2 ≡ true
    → (front : List (List ℕ)) × (split d1 ≡ front ++ split d2)
unfolding is_sub_domain
is_sub_domain_parts d1 d2 h =
    let (rest, e) = parts_match_prefix (reverse (split d1)) (reverse (split d2)) (ground arith) in
    (
      reverse rest,
      sym (reverse-reverse (split d1))
          ∙ ap reverse e
          ∙ reverse-append (reverse (split d2)) rest
          ∙ ap (λ (t : List (List ℕ)). reverse rest ++ t) (reverse-reverse (split d2)),
    )

is_sub_domain_of_parts :
    (d1 d2 : List ℕ) (front : List (List ℕ))
    → split d1 ≡ front ++ split d2
    → is_sub_domain d1 d2 ≡ true
unfolding is_sub_domain
is_sub_domain_of_parts d1 d2 front e =
    let back : reverse (split d1) ≡ reverse (split d2) ++ reverse front =
      ap reverse e ∙ reverse-append front (split d2) in
    rw back (
      ground (
        arith,
        length-append (reverse (split d2)) (reverse front),
        parts_match_append (reverse (split d2)) (reverse front),
      ))

-- `is_sub_domain d1 d2` holds exactly when the names are equal, or `d1` ends in `d2` with a dot
-- in front of it.
pub is_sub_domain_iff :
    (d1 d2 : List ℕ)
    → (is_sub_domain d1 d2 ≡ true) ↔ ((d1 ≡ d2) ⊎ ((u : List ℕ) × (d1 ≡ u ++ (dot ∷ d2))))
unfolding Below
is_sub_domain_iff d1 d2 = (
  (λ h. let (front, e) = is_sub_domain_parts d1 d2 h in names_of_parts d1 d2 front e),
  λ h. let (front, e) = parts_of_names d1 d2 h in is_sub_domain_of_parts d1 d2 front e,
)
