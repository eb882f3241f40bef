-- ===== src/Prelude/Text.antt =====
-- Texts as the bytes that they hold. `String::from_utf8` accepts the well-formed sequences of
-- the UTF-8 standard: here a reader that knows how many continuation bytes are due and the range
-- of the next one.
use i_leaf.Prelude.Assoc.{Eq}
use i_leaf.Prelude.Tests.{leb, ltb, ◌==◌, if◌then◌else◌, Bool-cases}
use Prim.Native.Nat.{ℕ, zero, suc}
use Prim.Native.Char.{code}
use Prim.Native.String.{String}
use mathlib.Core.Bool.{Bool, true, false, ◌&&◌, ◌||◌}
use mathlib.Core.Path.{◌≡◌, refl, ap}
use mathlib.Core.Logic.{◌↔◌, inl, inr}
use native.Mathlib.Omega.{arith}
use mathlib.Core.Option.{Option, none, some}
use mathlib.Core.List.{List, [], ◌∷◌, ◌++◌}

-- The bytes of an ASCII literal of the source.
abbrev pub codes : String → List ℕ
codes String.[] = []
codes (String.◌∷◌ c s) = code c ∷ codes s

abbrev in_range : ℕ → ℕ → ℕ → Bool
in_range lo hi b = leb lo b && leb b hi

pub record Due : Type 0 where
  pub count : ℕ
  pub low : ℕ
  pub high : ℕ

abbrev due : ℕ → ℕ → ℕ → Option Due
due n lo hi = some (record { count = n; low = lo; high = hi })

lead : ℕ → Option Due
lead b =
    if ltb b 0x80
    then due 0 0x80 0xbf
    else if in_range 0xc2 0xdf b
    then due 1 0x80 0xbf
    else if b == 0xe0
    then due 2 0xa0 0xbf
    else if in_range 0xe1 0xec b
    then due 2 0x80 0xbf
    else if b == 0xed
    then due 2 0x80 0x9f
    else if in_range 0xee 0xef b
    then due 2 0x80 0xbf
    else if b == 0xf0
    then due 3 0x90 0xbf
    else if in_range 0xf1 0xf3 b
    then due 3 0x80 0xbf
    else if b == 0xf4
    then due 3 0x80 0x8f
    else none

next : ℕ → ℕ → ℕ → ℕ → Option Due
next zero lo hi b = lead b
next (suc n) lo hi b = if in_range lo hi b then due n 0x80 0xbf else none

valid_from : Due → List ℕ → Bool
valid_from d [] = d.count == 0
valid_from d (b ∷ bs) = elim (next d.count d.low d.high b) [
  | none ↦ false
  | some e ↦ valid_from e bs
]

unfoldable pub is_utf8 : List ℕ → Bool
unfolding valid_from next lead
is_utf8 bs = valid_from (record { count = 0; low = 0x80; high = 0xbf }) bs

unfoldable pub starts_with : List ℕ → List ℕ → Bool
starts_with [] s = true
starts_with (c ∷ cs) [] = false
starts_with (c ∷ cs) (d ∷ s) = c == d && starts_with cs s

-- `domain.contains(pattern)`, the pattern second as in the source.
unfoldable pub contains : List ℕ → List ℕ → Bool
contains [] p = starts_with p []
contains (c ∷ s) p = starts_with p (c ∷ s) || contains s p

unfoldable pub text_eq : List ℕ → List ℕ → Bool
text_eq [] [] = true
text_eq [] (d ∷ t) = false
text_eq (c ∷ s) [] = false
text_eq (c ∷ s) (d ∷ t) = c == d && text_eq s t

pub text_eq_iff : (s t : List ℕ) → (text_eq s t ≡ true) ↔ (s ≡ t)
unfolding text_eq
text_eq_iff [] [] = ground arith
text_eq_iff [] (d ∷ t) = ground arith
text_eq_iff (c ∷ s) [] = ground arith
text_eq_iff (c ∷ s) (d ∷ t) = ground (arith, text_eq_iff s t)

instance abbrev pub text_beq : Eq (List ℕ)
text_beq = record { beq = text_eq; beq_iff = text_eq_iff }

-- `starts_with p s` says that `s` is `p` with something behind it.
pub starts_with_iff : (p s : List ℕ) → (starts_with p s ≡ true) ↔ ((t : List ℕ) × (s ≡ p ++ t))
unfolding starts_with
starts_with_iff [] s = ((λ h. (s, refl)), λ h. refl)
starts_with_iff (c ∷ cs) [] = ((λ h. cc), λ h. let (t, e) = h in cc)
starts_with_iff (c ∷ cs) (d ∷ s) = (
  (λ h.
      let (t, e) = (starts_with_iff cs s).0 (ground arith) in
      let same : c ≡ d = ground arith in (t, rw (e, same) refl)),
  λ h.
      let (t, e) = h in
      let same : d ≡ c = ground arith in
      let rest : s ≡ cs ++ t = ground arith in
      let inner = (starts_with_iff cs s).1 (t, rest) in ground arith,
)

contains_parts :
    (s p : List ℕ) → contains s p ≡ true → (u : List ℕ) × (v : List ℕ) × (s ≡ u ++ (p ++ v))
unfolding contains
contains_parts [] p h = let (v, e) = (starts_with_iff p []).0 h in ([], v, e)
contains_parts (c ∷ s) p h = elim (Bool-cases (starts_with p (c ∷ s))) [
  | inl here ↦ let (v, e) = (starts_with_iff p (c ∷ s)).0 here in ([], v, e)
  | inr later ↦ let (u, v, e) = contains_parts s p (ground arith) in (c ∷ u, v, ap (◌∷◌ c) e)
]

contains_of_parts : (s p u v : List ℕ) → s ≡ u ++ (p ++ v) → contains s p ≡ true
unfolding contains
contains_of_parts [] p [] v e = (starts_with_iff p []).1 (v, e)
contains_of_parts [] p (x ∷ u) v e = cc
contains_of_parts (c ∷ s) p [] v e = rw ((starts_with_iff p (c ∷ s)).1 (v, e)) refl
contains_of_parts (c ∷ s) p (x ∷ u) v e = ground (arith, contains_of_parts s p u v)

-- `contains s p` says that `p` stands in `s` with something before and behind it.
pub contains_iff :
    (s p : List ℕ) → (contains s p ≡ true) ↔ ((u : List ℕ) × (v : List ℕ) × (s ≡ u ++ (p ++ v)))
contains_iff s p = (contains_parts s p, λ h. let (u, v, e) = h in contains_of_parts s p u v e)
