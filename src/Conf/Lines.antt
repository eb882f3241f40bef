-- ===== src/Conf/Lines.antt =====
-- leaf/src/config/conf/config.rs: comments, sections and the parts of a line. The two regular
-- expressions are written out: each of their repetitions takes as much as it can, and none of them
-- gives a character back in a match.
use i_leaf.Prelude.{ℕ, List, [], ◌∷◌, Bool, true, ◌&&◌, ◌==◌, if◌then◌else◌, Option, none, some}
use i_leaf.Prelude.Text.{text_eq}
use i_leaf.Conf.Texts.{
  Chars, ℤ, is_whitespace, trim, trim_start, split, split_once, parse_u16, parse_i32,
}

-- Behind `[^*]*`.
unfoldable pub from_star : Chars → Chars
from_star [] = []
from_star (c ∷ s) = if c == b'*' then c ∷ s else from_star s

-- `(#[^*]*)` is replaced by nothing, at its first match.
unfoldable pub remove_comments : Chars → Chars
unfolding from_star
remove_comments [] = []
remove_comments (c ∷ s) = if c == b'#' then from_star s else c ∷ remove_comments s

unfoldable pub all_whitespace : Chars → Bool
all_whitespace [] = true
all_whitespace (c ∷ s) = is_whitespace c && all_whitespace s

-- `([^\]]*)\s*\]\s*$`.
abbrev pub name_in : Option (Chars × Chars) → Option Chars
name_in none = none
name_in (some (name, rest)) = if all_whitespace rest then some name else none

-- `\[\s*([^\]]*)\s*\]\s*$`.
abbrev pub header_in : Chars → Option Chars
header_in [] = none
header_in (c ∷ r) = if c == b'[' then name_in (split_once b']' (trim_start r)) else none

-- `^\s*\[\s*([^\]]*)\s*\]\s*$`; the name keeps the white space behind it.
unfoldable pub get_section : Chars → Option Chars
unfolding trim_start split_once all_whitespace
get_section text = header_in (trim_start text)

abbrev pub push_line : Chars → List Chars → List Chars
push_line [] lines = lines
push_line (c ∷ s) lines = (c ∷ s) ∷ lines

abbrev section_at : Option Chars → Chars → Chars
section_at none curr_sect = curr_sect
section_at (some s) curr_sect = s

abbrev kept_line : Option Chars → Bool → Chars → List Chars → List Chars
kept_line (some s) own line lines = lines
kept_line none own line lines = if own then push_line line lines else lines

-- The loop over the lines; a line that could not be read is passed over.
unfoldable pub lines_from : Chars → Chars → List (Option Chars) → List Chars
unfolding remove_comments get_section trim text_eq
lines_from section curr_sect [] = []
lines_from section curr_sect (none ∷ lines) = lines_from section curr_sect lines
lines_from section curr_sect (some line ∷ lines) =
    let text = remove_comments line in
    kept_line (get_section text) (text_eq curr_sect section) (trim text)
      (lines_from section (section_at (get_section text) curr_sect) lines)

unfoldable pub get_lines_by_section : Chars → List (Option Chars) → List Chars
unfolding lines_from
get_lines_by_section section lines = lines_from section [] lines

-- The parts that are not empty, trimmed.
unfoldable pub items_of : List Chars → List Chars
unfolding trim
items_of [] = []
items_of (p ∷ ps) = push_line (trim p) (items_of ps)

abbrev pub unless_empty : List Chars → Option (List Chars)
unless_empty [] = none
unless_empty (i ∷ is) = some (i ∷ is)

unfoldable pub get_char_sep_slice : Chars → ℕ → Option (List Chars)
unfolding items_of split trim
get_char_sep_slice text pat = unless_empty (items_of (split pat (trim text)))

abbrev text_unless_empty : Chars → Option Chars
text_unless_empty [] = none
text_unless_empty (c ∷ s) = some (c ∷ s)

unfoldable pub get_string : Chars → Option Chars
unfolding trim
get_string text = text_unless_empty (trim text)

-- `get_value::<i32>` and `get_value::<u16>`; neither parser takes the empty text.
unfoldable pub get_i32 : Chars → Option ℤ
unfolding trim parse_i32
get_i32 text = parse_i32 (trim text)

unfoldable pub get_u16 : Chars → Option ℕ
unfolding trim parse_u16
get_u16 text = parse_u16 (trim text)
