-- ===== src/Conf/Headers.antt =====
-- leaf/src/config/conf/config.rs: what a comment leaves of a line, and which line is the head of a section.
use i_leaf.Prelude.{
  ℕ, ◌≡◌, refl, [], ◌∷◌, ◌++◌, true, false, ◌==◌, some, Bool-cases, inl, inr, arith,
}
use mathlib.Core.List.{append-nil}
use i_leaf.Conf.Texts.{Chars, is_whitespace, trim_start, split_once, has_char, behind}
use i_leaf.Conf.Lines.{from_star, remove_comments, all_whitespace, get_section}

from_star_none : (s : Chars) → has_char b'*' s ≡ false → from_star s ≡ []
unfolding from_star has_char
from_star_none [] h = refl
from_star_none (c ∷ s) h = ground (arith, from_star_none s)

from_star_some :
    (s rest : Chars) → has_char b'*' s ≡ false → from_star (s ++ (b'*' ∷ rest)) ≡ b'*' ∷ rest
unfolding from_star has_char
from_star_some [] rest h = refl
from_star_some (c ∷ s) rest h = ground (arith, from_star_some s rest)

remove_comments-append :
    (s rest : Chars)
    → has_char b'#' s ≡ false
    → remove_comments (s ++ (b'#' ∷ rest)) ≡ s ++ from_star rest
unfolding remove_comments has_char
remove_comments-append [] rest h = refl
remove_comments-append (c ∷ s) rest h = ground (arith, remove_comments-append s rest)

-- A comment begins at the first `#` of a line and ends in front of the first `*` behind it: the
-- star and what follows it stay. Without a star the rest of the line goes.
pub remove_comments_lem :
    (before comment rest : Chars)
    → has_char b'#' before ≡ false
    → has_char b'*' comment ≡ false
    → (remove_comments (before ++ (b'#' ∷ (comment ++ (b'*' ∷ rest)))) ≡ before ++ (b'*' ∷ rest))
      × (remove_comments (before ++ (b'#' ∷ comment)) ≡ before)
remove_comments_lem before comment rest h k = (
  rw (remove_comments-append before (comment ++ (b'*' ∷ rest)) h, from_star_some comment rest k)
      refl,
  rw (remove_comments-append before comment h, from_star_none comment k) (append-nil before),
)

trim_start-append : (w s : Chars) → all_whitespace w ≡ true → trim_start (w ++ s) ≡ trim_start s
unfolding trim_start all_whitespace
trim_start-append [] s h = refl
trim_start-append (c ∷ w) s h = elim (Bool-cases (is_whitespace c)) [
  | inl blank ↦ rw blank (trim_start-append w s (rw blank at h))
  | inr other ↦ absurd (let e : false ≡ true = rw other at h in cc)
]

pub split_once-append :
    (sep : ℕ) (s rest : Chars)
    → has_char sep s ≡ false
    → split_once sep (s ++ (sep ∷ rest)) ≡ some (s, rest)
unfolding split_once has_char
split_once-append sep [] rest h = ground arith
split_once-append sep (c ∷ s) rest h =
    let e : has_char sep s ≡ false = ground arith in
    let other : (c == sep) ≡ false = ground arith in rw (other, split_once-append sep s rest e) refl

bracket_kept : is_whitespace b']' ≡ false
unfolding is_whitespace
bracket_kept = refl

trim_start-append_bracket :
    (s rest : Chars)
    → has_char b']' s ≡ false
    → (trim_start (s ++ (b']' ∷ rest)) ≡ trim_start s ++ (b']' ∷ rest))
      × (has_char b']' (trim_start s) ≡ false)
unfolding trim_start has_char
trim_start-append_bracket [] rest h = (rw bracket_kept refl, refl)
trim_start-append_bracket (c ∷ s) rest h = elim (Bool-cases (is_whitespace c)) [
  | inl w ↦ rw w (trim_start-append_bracket s rest (ground arith))
  | inr n ↦ rw n (refl, h)
]

-- A name in brackets, white space around them, is the head of a section. The name that it gives is
-- not trimmed at its end: white space in front of the closing bracket is part of it.
pub get_section_lem :
    (before name behind : Chars)
    → all_whitespace before ≡ true
    → has_char b']' name ≡ false
    → all_whitespace behind ≡ true
    → get_section (before ++ (b'[' ∷ (name ++ (b']' ∷ behind)))) ≡ some (trim_start name)
unfolding get_section trim_start is_whitespace
get_section_lem before name behind h k l =
    let (cut, none_left) = trim_start-append_bracket name behind k in
    rw
      (
        trim_start-append before (b'[' ∷ (name ++ (b']' ∷ behind))) h,
        cut,
        split_once-append b']' (trim_start name) behind none_left,
        l,
      )
      refl
