-- ===== src/Conf/PanicTests.antt =====
-- leaf/src/config/conf/config.rs: configurations that panic, at concrete inputs.
use i_leaf.Prelude.{◌≡◌, refl, List, [], ◌∷◌, Option, none, some, All, ok, panic, inr}
use i_leaf.Prelude.Text.{codes}
use i_leaf.HandlerManager.{new}
use i_leaf.Conf.Texts.{Chars, is_whitespace, split}
use i_leaf.Conf.Records.{Rule}
use i_leaf.Conf.FromLines.{from_lines}
use i_leaf.Conf.Settings.{InternalConfig, or_else}
use i_leaf.Conf.ToInternal.{to_internal}
use i_leaf.Conf.Managed.{NoServer, new-no_servers}
use i_leaf.Conf.Panics.{AsksFile, to_internal-eq-panic}
use i_leaf.Conf.Lines.{get_lines_by_section, items_of}
use i_leaf.Conf.Sections.{two_parts}
use i_leaf.HandlerManager.Groups.{In}
use i_leaf.Conf.Tests.{write, outside, parsers, converted_to}

abbrev silent : List (Option Chars)
silent =
    some (codes "[General]")
    ∷ some (codes "dns-server = # none")
    ∷ some (codes "[Proxy]")
    ∷ some (codes "D = direct")
    ∷ []

abbrev silent_internal : InternalConfig
silent_internal = converted_to (to_internal write outside (from_lines silent))

silent_converts : to_internal write outside (from_lines silent) ≡ ok silent_internal
unfolding to_internal from_lines is_whitespace
silent_converts = refl

silent_lines :
    All
      (λ (line : Chars). NoServer (two_parts (split b'=' line)))
      (get_lines_by_section (codes "General") silent)
unfolding get_lines_by_section is_whitespace split items_of
silent_lines = (inr refl, tt)

new-no_servers_example : new parsers silent_internal.outbounds silent_internal.dns ≡ panic
new-no_servers_example =
    new-no_servers write outside parsers silent silent_internal silent_lines silent_converts

-- The program's own path is not a text.
abbrev lost : List (Option Chars)
lost = some (codes "[Rule]") ∷ some (codes "GEOIP, us, D") ∷ []

lost_panics : to_internal write outside (from_lines lost) ≡ panic
unfolding to_internal from_lines is_whitespace
lost_panics = refl

to_internal-eq-panic_example :
    (r : Rule) × In r (or_else [] (from_lines lost).rule)
    × AsksFile r
    × (file : Chars) × (outside.beside_exe file ≡ none)
to_internal-eq-panic_example = to_internal-eq-panic write outside lost lost_panics
