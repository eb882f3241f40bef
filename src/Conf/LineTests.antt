-- ===== src/Conf/LineTests.antt =====
-- leaf/src/config/conf/config.rs: the statements about lines at concrete inputs.
use i_leaf.Prelude.{◌≡◌, refl, List, [], ◌∷◌, false, none, some}
use i_leaf.Prelude.Text.{codes, text_eq}
use i_leaf.Conf.Texts.{is_whitespace, trim_start, has_char, trim_end, parse_u16}
use i_leaf.Conf.Lines.{remove_comments, get_section, get_lines_by_section, all_whitespace}
use i_leaf.Conf.Records.{default_proxy}
use i_leaf.Conf.Sections.{proxy_of, set_param}
use i_leaf.Conf.Headers.{remove_comments_lem, get_section_lem}
use i_leaf.Conf.Blocks.{Block, AreBlocks, text_of, bodies, get_lines_by_section-blocks}
use i_leaf.Conf.Items.{IsItem}
use i_leaf.Conf.ProxyLine.{IsPlain, IsParam, is_built_in, protocol_named, proxy_of_lem}

remove_comments_lem_example :
    (remove_comments (codes "a # b * c") ≡ codes "a * c")
    × (remove_comments (codes "a # b ") ≡ codes "a ")
unfolding has_char
remove_comments_lem_example = remove_comments_lem (codes "a ") (codes " b ") (codes " c") refl refl

get_section_lem_example :
    get_section (codes " [ General ] ") ≡ some (trim_start (codes " General "))
unfolding has_char all_whitespace is_whitespace
get_section_lem_example = get_section_lem (codes " ") (codes " General ") (codes " ") refl refl refl

abbrev two_blocks : List Block
two_blocks =
    record { head = codes "[Proxy]"; body = some (codes " D = direct # x") ∷ none ∷ [] }
    ∷ record { head = codes "[Rule]"; body = some (codes "FINAL, D") ∷ [] }
    ∷ []

are_blocks : AreBlocks two_blocks (codes "Proxy" ∷ codes "Rule" ∷ [])
unfolding get_section remove_comments is_whitespace
are_blocks = (refl, (refl, tt), (refl, (refl, tt), tt))

has_name : text_eq [] (codes "Rule") ≡ false
unfolding text_eq
has_name = refl

get_lines_by_section-blocks_example :
    get_lines_by_section (codes "Rule") (none ∷ text_of two_blocks)
    ≡ bodies (codes "Rule") two_blocks (codes "Proxy" ∷ codes "Rule" ∷ [])
get_lines_by_section-blocks_example =
    get_lines_by_section-blocks (codes "Rule") (none ∷ []) two_blocks
      (codes "Proxy" ∷ codes "Rule" ∷ []) has_name tt are_blocks

p-IsItem : IsItem b'=' (codes "P")
unfolding has_char is_whitespace trim_end
p-IsItem = (refl, refl, refl)

ss-IsPlain : IsPlain (codes "ss")
unfolding has_char is_whitespace trim_end
ss-IsPlain = ((refl, refl, refl), refl)

address-IsPlain : IsPlain (codes "a.io")
unfolding has_char is_whitespace trim_end
address-IsPlain = ((refl, refl, refl), refl)

port-IsPlain : IsPlain (codes "443")
unfolding has_char is_whitespace trim_end
port-IsPlain = ((refl, refl, refl), refl)

password-IsParam : IsParam (codes "password", codes "pw")
unfolding has_char is_whitespace trim_end
password-IsParam = ((refl, refl, refl), refl, (refl, refl, refl), refl)

not_built_in : is_built_in (codes "ss") ≡ false
unfolding text_eq
not_built_in = refl

port_443 : parse_u16 (codes "443") ≡ some 443
unfolding parse_u16
port_443 = refl

proxy_of_lem_example :
    proxy_of (codes "P=ss,a.io,443,password=pw")
    ≡ some
        (record (set_param
          (codes "password", codes "pw")
          (record default_proxy { tag = codes "P"; protocol = codes "ss" })) {
            address = some (codes "a.io");
            port = some 443;
            protocol = protocol_named (codes "ss");
          })
proxy_of_lem_example =
    proxy_of_lem (codes "P") (codes "ss") (codes "a.io") (codes "443") 443
      ((codes "password", codes "pw") ∷ []) p-IsItem ss-IsPlain address-IsPlain port-IsPlain
      (password-IsParam, tt) not_built_in port_443
