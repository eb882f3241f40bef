-- ===== src/Conf/Final.antt =====
-- leaf/src/config/conf/config.rs and leaf/src/app/handler_manager.rs: the `FINAL` rule, and the default
-- handler that it comes to.
use i_leaf.Prelude.{
  ℕ, suc, ◌+◌, ◌≡◌, refl, sym, if◌then◌else◌, ok, >>=-eq-ok, ap, ◌∙◌, List, [], ◌∷◌, ◌++◌, length,
  drop, get_elem?, true, false, Option, none, some, All, Bool-cases, ◌⊎◌, inl, inr,
  take-append_left, arith,
}
use i_leaf.Prelude.Text.{text_eq, text_eq_iff}
use i_leaf.HandlerManager.{Outbound}
use i_leaf.HandlerManager.Groups.{In}
use i_leaf.Conf.Texts.{Chars}
use i_leaf.Conf.Records.{Rule}
use i_leaf.Conf.Rules.{
  External, last_index, make_final, is_final, Converting, convert_rule, convert_rules, filtered,
}
use i_leaf.Conf.Outbounds.{Converted}
use i_leaf.Router.{RoutingRule}

abbrev pub NoTag : Chars → List Outbound → Type 0
NoTag tag = All (λ o. text_eq o.tag tag ≡ false)

last_index-none :
    (tag : Chars) (i : ℕ) (idx : Option ℕ) (os : List Outbound)
    → NoTag tag os
    → last_index tag i idx os ≡ idx
unfolding last_index
last_index-none tag i idx [] h = refl
last_index-none tag i idx (o ∷ os) (h, hs) = rw h (last_index-none tag (i + 1) idx os hs)

last_index-found :
    (tag : Chars) (i : ℕ) (idx : Option ℕ) (us vs : List Outbound) (o : Outbound)
    → text_eq o.tag tag ≡ true
    → NoTag tag vs
    → last_index tag i idx (us ++ (o ∷ vs)) ≡ some (i + length us)
unfolding last_index
last_index-found tag i idx [] vs o h k =
    let n : i ≡ i + 0 = omega arith in
    rw (last_index, h) (last_index-none tag (i + 1) (some i) vs k ∙ ap some n)
last_index-found tag i idx (u ∷ us) vs o h k =
    let n : (i + 1) + length us ≡ i + suc (length us) = omega arith in
    last_index-found tag (i + 1) _ us vs o h k ∙ ap some n

get_elem?-append :
    (us vs : List Outbound) (o : Outbound) → get_elem? (us ++ (o ∷ vs)) (length us) ≡ some o
get_elem?-append [] vs o = refl
get_elem?-append (u ∷ us) vs o = get_elem?-append us vs o

drop-append_suc :
    (us vs : List Outbound) (o : Outbound) → drop (suc (length us)) (us ++ (o ∷ vs)) ≡ vs
drop-append_suc [] vs o = refl
drop-append_suc (u ∷ us) vs o = drop-append_suc us vs o

make_final-absent : (tag : Chars) (os : List Outbound) → NoTag tag os → make_final tag os ≡ os
unfolding make_final
make_final-absent tag os k = rw (last_index-none tag 0 none os k) refl

-- The last outbound that bears the tag of a `FINAL` rule comes first, and the others keep their
-- order; where none bears it, all of them do.
pub make_final_lem :
    (tag : Chars) (us vs : List Outbound) (o : Outbound)
    → text_eq o.tag tag ≡ true
    → NoTag tag vs
    → (make_final tag (us ++ (o ∷ vs)) ≡ o ∷ (us ++ vs)) × (make_final tag vs ≡ vs)
unfolding make_final
make_final_lem tag us vs o h k = (
  let n : 0 + length us ≡ length us = omega arith in
      rw
        (
          last_index-found tag 0 none us vs o h k,
          n,
          get_elem?-append us vs o,
          take-append_left us (o ∷ vs),
          drop-append_suc us vs o,
        )
        refl,
  make_final-absent tag vs k,
)

-- Where the last outbound with the tag stands, if there is one.
last_tagged :
    (tag : Chars) (os : List Outbound)
    → NoTag tag os
      ⊎ ((us : List Outbound) × (vs : List Outbound) × (o : Outbound) × (os ≡ us ++ (o ∷ vs))
          × (text_eq o.tag tag ≡ true)
          × NoTag tag vs)
last_tagged tag [] = inl tt
last_tagged tag (o ∷ os) = elim (last_tagged tag os) [
  | inr (us, vs, p, e, h, k) ↦ inr (o ∷ us, vs, p, ap (◌∷◌ o) e, h, k)
  | inl absent ↦ elim (Bool-cases (text_eq o.tag tag)) [
    | inl here ↦ inr ([], os, o, refl, here, absent)
    | inr other ↦ inl (other, absent)
  ]
]

pub In-append_left : (o : Outbound) (us vs : List Outbound) → In o us → In o (us ++ vs)
In-append_left o [] vs i = absurd i
In-append_left o (u ∷ us) vs (inl same) = inl same
In-append_left o (u ∷ us) vs (inr later) = inr (In-append_left o us vs later)

pub In-append_right : (o : Outbound) (us vs : List Outbound) → In o vs → In o (us ++ vs)
In-append_right o [] vs i = i
In-append_right o (u ∷ us) vs i = inr (In-append_right o us vs i)

In-moved : (q o : Outbound) (us vs : List Outbound) → In q (us ++ (o ∷ vs)) → In q (o ∷ (us ++ vs))
In-moved q o [] vs i = i
In-moved q o (u ∷ us) vs (inl same) = inr (inl same)
In-moved q o (u ∷ us) vs (inr later) = elim (In-moved q o us vs later) [
  | inl same ↦ inl same
  | inr rest ↦ inr (inr rest)
]

make_final-In :
    (tag : Chars) (q : Outbound) (os : List Outbound) → In q os → In q (make_final tag os)
make_final-In tag q os i = elim (last_tagged tag os) [
  | inl absent ↦ rw (make_final-absent tag os absent) i
  | inr (us, vs, o, e, h, k) ↦
      rw (e, (make_final_lem tag us vs o h k).0) (In-moved q o us vs (rw e at i))
]

NoTag-not_In :
    (tag : Chars) (q : Outbound) (os : List Outbound)
    → NoTag tag os
    → In q os
    → text_eq q.tag tag ≡ false
NoTag-not_In tag q [] h i = absurd i
NoTag-not_In tag q (o ∷ os) (h, hs) (inl same) = rw same h
NoTag-not_In tag q (o ∷ os) (h, hs) (inr later) = NoTag-not_In tag q os hs later

make_final_first :
    (tag : Chars) (q : Outbound) (os : List Outbound)
    → In q os
    → text_eq q.tag tag ≡ true
    → (o : Outbound) × (os' : List Outbound) × (make_final tag os ≡ o ∷ os') × (o.tag ≡ tag)
make_final_first tag q os i e = elim (last_tagged tag os) [
  | inl absent ↦ let no = NoTag-not_In tag q os absent i in absurd (cc)
  | inr (us, vs, o, parts, h, k) ↦
      (o, us ++ vs, rw parts (make_final_lem tag us vs o h k).0, (text_eq_iff o.tag tag).0 h)
]

abbrev outbounds_of : Converted (List RoutingRule × Converting) → List Outbound
outbounds_of (ok p) = p.1.outbounds
outbounds_of e = []

module _ (x : External) where
  convert_rule-outbounds :
      (r : Rule) (c : Converting) (p : List RoutingRule × Converting)
      → convert_rule x r c ≡ ok p
      → p.1.outbounds ≡ (if is_final r then make_final r.target c.outbounds else c.outbounds)
  unfolding convert_rule
  convert_rule-outbounds r c p e = elim (Bool-cases (is_final r)) [
    | inl final ↦
        let same : ◌≡◌ {A = Converted (List RoutingRule × Converting)}
            (ok ([], record c { outbounds = make_final r.target c.outbounds })) (ok p) =
          rw final at e in
        rw final (ap outbounds_of (sym same))
    | inr other ↦
        let (f, e', last) =
          >>=-eq-ok (filtered x r r.filter c.site_group_lists) _ (rw other at e) in
        rw other (ap outbounds_of (sym last))
  ]

  convert_rule-In :
      (r : Rule) (c : Converting) (p : List RoutingRule × Converting) (q : Outbound)
      → convert_rule x r c ≡ ok p
      → In q c.outbounds
      → In q p.1.outbounds
  convert_rule-In r c p q e i = elim (Bool-cases (is_final r)) [
    | inl final ↦
        rw (convert_rule-outbounds r c p e, final) (make_final-In r.target q c.outbounds i)
    | inr other ↦ rw (convert_rule-outbounds r c p e, other) i
  ]

  rules-eq-ok :
      (r : Rule) (rs : List Rule) (c : Converting) (p : List RoutingRule × Converting)
      → convert_rules x (r ∷ rs) c ≡ ok p
      → (first : List RoutingRule × Converting) × (rest : List RoutingRule × Converting)
        × (convert_rule x r c ≡ ok first)
        × (convert_rules x rs first.1 ≡ ok rest)
        × (p.1.outbounds ≡ rest.1.outbounds)
  unfolding convert_rules
  rules-eq-ok r rs c p e =
      let (first, f, later) = >>=-eq-ok (convert_rule x r c) _ e in
      let (rest, g, last) = >>=-eq-ok (convert_rules x rs first.1) _ later in
      (first, rest, f, g, ap outbounds_of (sym last))

  -- No rule takes an outbound away.
  pub convert_rules-In :
      (rs : List Rule) (c : Converting) (p : List RoutingRule × Converting) (q : Outbound)
      → convert_rules x rs c ≡ ok p
      → In q c.outbounds
      → In q p.1.outbounds
  unfolding convert_rules
  convert_rules-In [] c p q e i = rw (ap outbounds_of (sym e)) i
  convert_rules-In (r ∷ rs) c p q e i =
      let (first, rest, f, g, same) = rules-eq-ok r rs c p e in
      rw same (convert_rules-In rs first.1 rest q g (convert_rule-In r c first q f i))

  convert_rules-others :
      (rs : List Rule) (c : Converting) (p : List RoutingRule × Converting)
      → convert_rules x rs c ≡ ok p
      → All (λ r. is_final r ≡ false) rs
      → p.1.outbounds ≡ c.outbounds
  unfolding convert_rules
  convert_rules-others [] c p e h = ap outbounds_of (sym e)
  convert_rules-others (r ∷ rs) c p e (h, hs) =
      let (first, rest, f, g, same) = rules-eq-ok r rs c p e in
      let kept : first.1.outbounds ≡ c.outbounds = rw h at (convert_rule-outbounds r c first f) in
      same ∙ convert_rules-others rs first.1 rest g hs ∙ kept

  -- Behind the last `FINAL` rule, an outbound with its tag comes first.
  pub convert_rules-final :
      (rs later : List Rule) (r : Rule) (c : Converting) (p : List RoutingRule × Converting)
      (q : Outbound)
      → convert_rules x (rs ++ (r ∷ later)) c ≡ ok p
      → is_final r ≡ true
      → All (λ r. is_final r ≡ false) later
      → In q c.outbounds
      → text_eq q.tag r.target ≡ true
      → (o : Outbound) × (os : List Outbound) × (p.1.outbounds ≡ o ∷ os) × (o.tag ≡ r.target)
  convert_rules-final [] later r c p q run f h i e =
      let (first, rest, e1, g, same) = rules-eq-ok r later c p run in
      let final : first.1.outbounds ≡ make_final r.target c.outbounds =
        rw f at (convert_rule-outbounds r c first e1) in
      let (o, os, head, tagged) = make_final_first r.target q c.outbounds i e in
      (o, os, same ∙ convert_rules-others later first.1 rest g h ∙ final ∙ head, tagged)
  convert_rules-final (s ∷ rs) later r c p q run f h i e =
      let (first, rest, e1, g, same) = rules-eq-ok s (rs ++ (r ∷ later)) c p run in
      let (o, os, head, tagged) =
        convert_rules-final rs later r first.1 rest q g f h (convert_rule-In s c first q e1 i) e in
      (o, os, same ∙ head, tagged)
