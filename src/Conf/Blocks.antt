-- ===== src/Conf/Blocks.antt =====
-- leaf/src/config/conf/config.rs: the lines of a section, in a text that is cut into its sections.
use i_leaf.Prelude.{
  ◌≡◌, refl, List, [], ◌∷◌, ◌++◌, false, Option, none, some, Bool-cases, inl, inr, if◌then◌else◌,
}
use i_leaf.Prelude.Text.{text_eq}
use i_leaf.Conf.Texts.{Chars, trim}
use i_leaf.Conf.Lines.{remove_comments, get_section, push_line, lines_from, get_lines_by_section}

-- A head and the lines below it; `none` is a line that could not be read.
pub record Block : Type 0 where
  pub head : Chars
  pub body : List (Option Chars)

abbrev pub IsBody : List (Option Chars) → Type 0
IsBody [] = Unit {0}
IsBody (none ∷ body) = IsBody body
IsBody (some line ∷ body) = (get_section (remove_comments line) ≡ none) × IsBody body

abbrev pub AreBlocks : List Block → List Chars → Type 0
AreBlocks [] [] = Unit {0}
AreBlocks (b ∷ bs) (name ∷ names) =
    (get_section (remove_comments b.head) ≡ some name) × IsBody b.body × AreBlocks bs names
AreBlocks bs names = ⊥

abbrev pub text_of : List Block → List (Option Chars)
text_of [] = []
text_of (b ∷ bs) = some b.head ∷ (b.body ++ text_of bs)

-- The lines without their comments, trimmed, that are not empty.
abbrev pub cleaned : List (Option Chars) → List Chars
cleaned [] = []
cleaned (none ∷ body) = cleaned body
cleaned (some line ∷ body) = push_line (trim (remove_comments line)) (cleaned body)

-- The lines below the heads that have the name.
abbrev pub bodies : Chars → List Block → List Chars → List Chars
bodies section (b ∷ bs) (name ∷ names) =
    if text_eq name section
    then cleaned b.body ++ bodies section bs names
    else bodies section bs names
bodies section bs names = []

push_line-append : (s : Chars) (xs ys : List Chars) → push_line s xs ++ ys ≡ push_line s (xs ++ ys)
push_line-append [] xs ys = refl
push_line-append (c ∷ s) xs ys = refl

lines_from-append :
    (section curr : Chars) (body rest : List (Option Chars))
    → IsBody body
    → lines_from section curr (body ++ rest)
      ≡ (if text_eq curr section then cleaned body else []) ++ lines_from section curr rest
unfolding lines_from
lines_from-append section curr [] rest h = elim (Bool-cases (text_eq curr section)) [
  | inl same ↦ rw same refl
  | inr other ↦ rw other refl
]
lines_from-append section curr (none ∷ body) rest h = lines_from-append section curr body rest h
lines_from-append section curr (some line ∷ body) rest (no_head, h) =
    let more = lines_from-append section curr body rest h in
    elim (Bool-cases (text_eq curr section)) [
      | inl same ↦
          rw
            (
              no_head,
              same,
              push_line-append (trim (remove_comments line)) (cleaned body)
                  (lines_from section curr rest),
              rw same at more,
            )
            refl
      | inr other ↦ rw (no_head, other, rw other at more) refl
    ]

lines_from-blocks :
    (section curr : Chars) (bs : List Block) (names : List Chars)
    → AreBlocks bs names
    → lines_from section curr (text_of bs) ≡ bodies section bs names
unfolding lines_from
lines_from-blocks section curr [] [] h = refl
lines_from-blocks section curr [] (name ∷ names) h = absurd h
lines_from-blocks section curr (b ∷ bs) [] h = absurd h
lines_from-blocks section curr (b ∷ bs) (name ∷ names) (head, body, h) =
    let more = lines_from-append section name b.body (text_of bs) body in
    let rest = lines_from-blocks section name bs names h in
    elim (Bool-cases (text_eq name section)) [
      | inl same ↦ rw (head, same, rw (same, rest) at more) refl
      | inr other ↦ rw (head, other, rw (other, rest) at more) refl
    ]

-- The lines of a section are those below every head with its name, in the order of the text,
-- without comments, trimmed, empty lines and unreadable ones left out. Lines in front of the first
-- head, and below other heads, are not among them.
pub get_lines_by_section-blocks :
    (section : Chars) (preamble : List (Option Chars)) (bs : List Block) (names : List Chars)
    → text_eq [] section ≡ false
    → IsBody preamble
    → AreBlocks bs names
    → get_lines_by_section section (preamble ++ text_of bs) ≡ bodies section bs names
unfolding get_lines_by_section
get_lines_by_section-blocks section preamble bs names named p h =
    rw
      (
        lines_from-append section [] preamble (text_of bs) p,
        named,
        lines_from-blocks section [] bs names h,
      )
      refl
