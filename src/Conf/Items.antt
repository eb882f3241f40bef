-- ===== src/Conf/Items.antt =====
-- leaf/src/config/conf/config.rs: the items of a list, as they are read back from it.
use i_leaf.Prelude.{
  ℕ, ◌≡◌, refl, sym, ap, List, [], ◌∷◌, ◌++◌, true, false, ◌==◌, some, All, ◌∙◌, arith,
}
use i_leaf.Conf.Texts.{
  Chars, is_whitespace, trim_start, trim_end, trim, kept_before, split, has_char,
}
use i_leaf.Conf.Lines.{items_of, push_line, get_char_sep_slice}

-- A text that is not empty, without white space at its ends and without the separator.
abbrev pub IsItem : ℕ → Chars → Type 0
IsItem sep [] = ⊥
IsItem sep (c ∷ s) =
    (is_whitespace c ≡ false) × (trim_end (c ∷ s) ≡ c ∷ s) × (has_char sep (c ∷ s) ≡ false)

abbrev pub join : ℕ → List Chars → Chars
join sep [] = []
join sep (s ∷ []) = s
join sep (s ∷ t ∷ ss) = s ++ (sep ∷ join sep (t ∷ ss))

pub trim_end-append :
    (u : Chars) (c : ℕ) (v : Chars)
    → trim_end (c ∷ v) ≡ c ∷ v
    → trim_end (u ++ (c ∷ v)) ≡ u ++ (c ∷ v)
unfolding trim_end
trim_end-append [] c v h = h
trim_end-append (d ∷ []) c v h = ap (kept_before d) h
trim_end-append (d ∷ e ∷ u) c v h = ap (kept_before d) (trim_end-append (e ∷ u) c v h)

pub trim_item : (sep : ℕ) (s : Chars) → IsItem sep s → trim s ≡ s
unfolding trim trim_start
trim_item sep [] h = absurd h
trim_item sep (c ∷ s) (starts, ends, h) = rw starts ends

join-cons :
    (sep : ℕ) (s : Chars) (ss : List Chars)
    → All (IsItem sep) (s ∷ ss)
    → (c : ℕ) × (r : Chars) × (join sep (s ∷ ss) ≡ c ∷ r)
      × (is_whitespace c ≡ false)
      × (trim_end (join sep (s ∷ ss)) ≡ join sep (s ∷ ss))
unfolding trim_end
join-cons sep [] ss (h, hs) = absurd h
join-cons sep (c ∷ s) [] ((starts, ends, h), hs) = (c, s, refl, starts, ends)
join-cons sep (c ∷ s) (t ∷ ss) ((starts, ends, h), hs) =
    let (d, r, e, d_starts, d_ends) = join-cons sep t ss hs in
    let kept : trim_end (sep ∷ join sep (t ∷ ss)) ≡ sep ∷ join sep (t ∷ ss) =
      ap (kept_before sep) (d_ends ∙ e) ∙ ap (◌∷◌ sep) (sym e) in
    (
      c,
      s ++ (sep ∷ join sep (t ∷ ss)),
      refl,
      starts,
      trim_end-append (c ∷ s) sep (join sep (t ∷ ss)) kept,
    )

trim-join :
    (sep : ℕ) (s : Chars) (ss : List Chars)
    → All (IsItem sep) (s ∷ ss)
    → trim (join sep (s ∷ ss)) ≡ join sep (s ∷ ss)
unfolding trim trim_start
trim-join sep s ss h =
    let (c, r, e, starts, ends) = join-cons sep s ss h in
    let same : trim_start (c ∷ r) ≡ c ∷ r = rw starts refl in
    ap (λ (t : Chars). trim_end (trim_start t)) e ∙ ap trim_end (same ∙ sym e) ∙ ends

pub split-none : (sep : ℕ) (s : Chars) → has_char sep s ≡ false → split sep s ≡ s ∷ []
unfolding split has_char
split-none sep [] h = refl
split-none sep (c ∷ s) h =
    let other : (c == sep) ≡ false = ground arith in
    let rest = split-none sep s (ground arith) in rw (other, rest) refl

pub split-append :
    (sep : ℕ) (s rest : Chars)
    → has_char sep s ≡ false
    → split sep (s ++ (sep ∷ rest)) ≡ s ∷ split sep rest
unfolding split has_char
split-append sep [] rest h = let same : (sep == sep) ≡ true = ground arith in rw same refl
split-append sep (c ∷ s) rest h =
    let other : (c == sep) ≡ false = ground arith in
    let more = split-append sep s rest (ground arith) in rw (other, more) refl

item-no_sep : (sep : ℕ) (s : Chars) → IsItem sep s → has_char sep s ≡ false
item-no_sep sep [] h = absurd h
item-no_sep sep (c ∷ s) (starts, ends, h) = h

split-join :
    (sep : ℕ) (s : Chars) (ss : List Chars)
    → All (IsItem sep) (s ∷ ss)
    → split sep (join sep (s ∷ ss)) ≡ s ∷ ss
split-join sep s [] (h, hs) = split-none sep s (item-no_sep sep s h)
split-join sep s (t ∷ ss) (h, hs) =
    split-append sep s (join sep (t ∷ ss)) (item-no_sep sep s h)
    ∙ ap (◌∷◌ s) (split-join sep t ss hs)

push_line-item : (sep : ℕ) (s : Chars) (ss : List Chars) → IsItem sep s → push_line s ss ≡ s ∷ ss
push_line-item sep [] ss h = absurd h
push_line-item sep (c ∷ s) ss h = refl

items_of-items : (sep : ℕ) (ss : List Chars) → All (IsItem sep) ss → items_of ss ≡ ss
unfolding items_of
items_of-items sep [] h = refl
items_of-items sep (s ∷ ss) (h, hs) =
    rw (trim_item sep s h, items_of-items sep ss hs) (push_line-item sep s ss h)

-- The items of a list that is joined by the separator are read back from it.
pub get_char_sep_slice-join :
    (sep : ℕ) (s : Chars) (ss : List Chars)
    → All (IsItem sep) (s ∷ ss)
    → get_char_sep_slice (join sep (s ∷ ss)) sep ≡ some (s ∷ ss)
unfolding get_char_sep_slice
get_char_sep_slice-join sep s ss h =
    rw (trim-join sep s ss h, split-join sep s ss h, items_of-items sep (s ∷ ss) h) refl
