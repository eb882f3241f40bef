-- ===== src/Conf/Texts.antt =====
-- leaf/src/config/conf/config.rs: what the reader of configurations uses of `str` and `FromStr`. A text is
-- here the list of its characters' code points.
use i_leaf.Prelude.{
  ℕ, zero, suc, ◌+◌, ◌-◌, ◌*◌, ◌^◌, List, [], ◌∷◌, Bool, false, ◌&&◌, ◌||◌, leb, ◌==◌,
  if◌then◌else◌, Option, none, some,
}

abbrev pub Chars : Type 0
Chars = List ℕ

-- The Unicode property `White_Space`.
unfoldable pub is_whitespace : ℕ → Bool
is_whitespace c =
    (leb 9 c && leb c 13)
    || c == 32
    || c == 0x85
    || c == 0xa0
    || c == 0x1680
    || (leb 0x2000 c && leb c 0x200a)
    || c == 0x2028
    || c == 0x2029
    || c == 0x202f
    || c == 0x205f
    || c == 0x3000

unfoldable pub trim_start : Chars → Chars
trim_start [] = []
trim_start (c ∷ s) = if is_whitespace c then trim_start s else c ∷ s

-- In front of what is left of the rest.
abbrev pub kept_before : ℕ → Chars → Chars
kept_before c [] = if is_whitespace c then [] else c ∷ []
kept_before c (d ∷ s) = c ∷ d ∷ s

unfoldable pub trim_end : Chars → Chars
trim_end [] = []
trim_end (c ∷ s) = kept_before c (trim_end s)

unfoldable pub trim : Chars → Chars
unfolding trim_start trim_end
trim s = trim_end (trim_start s)

abbrev pub onto_first : ℕ → List Chars → List Chars
onto_first c [] = (c ∷ []) ∷ []
onto_first c (p ∷ ps) = (c ∷ p) ∷ ps

-- `split(sep)`: one part at least.
unfoldable pub split : ℕ → Chars → List Chars
split sep [] = [] ∷ []
split sep (c ∷ s) = let rest = split sep s in if c == sep then [] ∷ rest else onto_first c rest

abbrev pub behind : ℕ → Option (Chars × Chars) → Option (Chars × Chars)
behind c none = none
behind c (some (before, rest)) = some (c ∷ before, rest)

-- `splitn(2, sep)`, where it gives two parts.
unfoldable pub split_once : ℕ → Chars → Option (Chars × Chars)
split_once sep [] = none
split_once sep (c ∷ s) =
    let rest = split_once sep s in if c == sep then some ([], s) else behind c rest

unfoldable pub has_char : ℕ → Chars → Bool
has_char x [] = false
has_char x (c ∷ s) = c == x || has_char x s

-- Integers with a sign.
pub data ℤ : Type 0 where
  pos negsuc : ℕ → ℤ

abbrev pub minus : ℕ → ℤ
minus zero = pos 0
minus (suc n) = negsuc n

-- `i as u32` of an `i32`.
unfoldable pub as_u32 : ℤ → ℕ
as_u32 (pos n) = n
as_u32 (negsuc n) = 2 ^ 32 - (n + 1)

unfoldable pub digits : ℕ → Chars → Option ℕ
digits acc [] = some acc
digits acc (c ∷ s) =
    let rest = digits (acc * 10 + (c - 48)) s in if leb 48 c && leb c 57 then rest else none

-- A number without its sign, up to the limit.
abbrev at_most : ℕ → Option ℕ → Option ℕ
at_most limit none = none
at_most limit (some n) = if leb n limit then some n else none

unfoldable pub parse_digits : ℕ → Chars → Option ℕ
unfolding digits
parse_digits limit [] = none
parse_digits limit (c ∷ s) = at_most limit (digits 0 (c ∷ s))

-- `u16::from_str`.
unfoldable pub parse_u16 : Chars → Option ℕ
unfolding parse_digits
parse_u16 [] = none
parse_u16 (c ∷ s) =
    if c == b'+' then parse_digits (2 ^ 16 - 1) s else parse_digits (2 ^ 16 - 1) (c ∷ s)

abbrev signed : (ℕ → ℤ) → Option ℕ → Option ℤ
signed f none = none
signed f (some n) = some (f n)

-- `i32::from_str`.
unfoldable pub parse_i32 : Chars → Option ℤ
unfolding parse_digits
parse_i32 [] = none
parse_i32 (c ∷ s) =
    if c == b'+'
    then signed pos (parse_digits (2 ^ 31 - 1) s)
    else if c == b'-'
    then signed minus (parse_digits (2 ^ 31) s)
    else signed pos (parse_digits (2 ^ 31 - 1) (c ∷ s))
