-- ===== src/Conf/Panics.antt =====
-- leaf/src/config/conf/config.rs and leaf/src/config/external_rule.rs: which texts make their conversion
-- panic.
use i_leaf.Prelude.{
  ℕ, ◌≡◌, refl, List, [], ◌∷◌, true, ◌⊎◌, Outcome, Option, none, some, Option-cases, Bool-cases,
  inl, inr, ok, err, panic, ◌>>=◌,
}
use i_leaf.Prelude.Text.{codes, text_eq, starts_with}
use i_leaf.Conf.Texts.{Chars}
use i_leaf.Conf.Lines.{get_lines_by_section}
use i_leaf.Conf.Records.{Rule}
use i_leaf.Conf.Sections.{proxy_of}
use i_leaf.Conf.FromLines.{each_line, rule_of, from_lines}
use i_leaf.Conf.Settings.{Message, or_else}
use i_leaf.Conf.Outbounds.{Converted, proxies_outbounds}
use i_leaf.Router.{RoutingRule}
use i_leaf.HandlerManager.Groups.{In}
use i_leaf.Conf.Rules
use i_leaf.Conf.Rules.{
  Converting, SiteGroupLists, Placed, unwrapped, placed, file_and_code, load_file_or_default,
  with_mmdb, with_sites, add_external_rule, country_rule, rule_with, filtered, convert_rule,
  convert_rules, is_final,
}
use i_leaf.Conf.ToInternal.{to_internal}
use i_leaf.Conf.Managed.{before_rules}
use i_leaf.Conf.Safe.{proxies-HasLayers, proxies_outbounds-ne-panic}

-- A rule of the two types that name a file beside the program.
abbrev pub AsksFile : Rule → Type 0
AsksFile r =
    (text_eq r.type_field (codes "GEOIP") ≡ true) ⊎ (text_eq r.type_field (codes "EXTERNAL") ≡ true)

>>=-eq-panic :
    {E A B : Type 0} (m : Outcome E A) (f : A → Outcome E B)
    → (m >>= f) ≡ panic
    → (m ≡ panic) ⊎ ((a : A) × (m ≡ ok a) × (f a ≡ panic))
>>=-eq-panic (ok a) f e = inr (a, refl, e)
>>=-eq-panic (err e') f e = absurd (cc)
>>=-eq-panic panic f e = inl refl

module _ (x : Rules.External) where
  -- The place of a file is not known.
  abbrev pub Misplaced : Type 0
  Misplaced = (file : Chars) × (x.beside_exe file ≡ none)

  unwrapped-panic : (file : Chars) → unwrapped x (x.beside_exe file) ≡ panic → Misplaced
  unwrapped-panic file e = elim (Option-cases (x.beside_exe file)) [
    | inl gone ↦ (file, gone)
    | inr (path, found) ↦
        let no : ◌≡◌ {A = Placed Chars} (ok path) panic = rw found at e in absurd (cc)
  ]

  placed-panic : (file : Chars) → placed x file ≡ panic → Misplaced
  placed-panic file e = elim (Bool-cases (x.is_absolute file)) [
    | inl absolute ↦
        let no : ◌≡◌ {A = Placed Chars} (ok file) panic = rw absolute at e in absurd (cc)
    | inr relative ↦ unwrapped-panic file (rw relative at e)
  ]

  file_and_code-panic :
      (default : Chars) (parts : List Chars) → file_and_code x default parts ≡ panic → Misplaced
  file_and_code-panic default [] e = absurd (cc)
  file_and_code-panic default (kind ∷ []) e = absurd (cc)
  file_and_code-panic default (kind ∷ code ∷ []) e =
      elim (>>=-eq-panic (unwrapped x (x.beside_exe default)) _ e) [
        | inl p ↦ unwrapped-panic default p
        | inr (path, found, bad) ↦ absurd (cc)
      ]
  file_and_code-panic default (kind ∷ file ∷ code ∷ []) e =
      elim (>>=-eq-panic (placed x file) _ e) [
        | inl p ↦ placed-panic file p
        | inr (path, found, bad) ↦ absurd (cc)
      ]
  file_and_code-panic default (kind ∷ file ∷ code ∷ more ∷ parts) e = absurd (cc)

  with_mmdb-panic :
      (at : Placed (Chars × Chars)) (rule : RoutingRule) (lists : SiteGroupLists)
      → with_mmdb x at rule lists ≡ panic
      → at ≡ panic
  with_mmdb-panic (ok (file, code)) rule lists e = absurd (cc)
  with_mmdb-panic (err e') rule lists e = absurd (cc)
  with_mmdb-panic panic rule lists e = refl

  with_sites-panic :
      (at : Placed (Chars × Chars)) (rule : RoutingRule) (lists : SiteGroupLists)
      → with_sites x at rule lists ≡ panic
      → at ≡ panic
  with_sites-panic (ok (file, code)) rule lists e = absurd (cc)
  with_sites-panic (err e') rule lists e = absurd (cc)
  with_sites-panic panic rule lists e = refl

  add_external_rule-panic :
      (rule : RoutingRule) (filter : Chars) (lists : SiteGroupLists)
      → add_external_rule x rule filter lists ≡ panic
      → Misplaced
  unfolding add_external_rule load_file_or_default
  add_external_rule-panic rule filter lists e =
      elim (Bool-cases (starts_with (codes "mmdb") filter)) [
        | inl mmdb ↦ file_and_code-panic _ _ (with_mmdb-panic _ rule lists (rw mmdb at e))
        | inr other ↦ elim (Bool-cases (starts_with (codes "site") filter)) [
          | inl site ↦
              file_and_code-panic _ _ (with_sites-panic _ rule lists (rw (other, site) at e))
          | inr neither ↦
              let no : ◌≡◌ {A = Converted (RoutingRule × SiteGroupLists)} (ok (rule, lists)) panic =
                rw (other, neither) at e in
              absurd (cc)
        ]
      ]

  country_rule-panic :
      (target filter : Chars) (lists : SiteGroupLists) (file : Chars)
      → country_rule x target filter lists (unwrapped x (x.beside_exe file)) ≡ panic
      → Misplaced
  country_rule-panic target filter lists file e = elim (Option-cases (x.beside_exe file)) [
    | inl gone ↦ (file, gone)
    | inr (path, found) ↦ absurd (let no = rw found at e in cc)
  ]

  rule_with-panic :
      (r : Rule) (filter : Chars) (lists : SiteGroupLists)
      → rule_with x r filter lists ≡ panic
      → AsksFile r × Misplaced
  unfolding rule_with
  rule_with-panic r filter lists e = elim (Bool-cases (text_eq r.type_field (codes "IP-CIDR"))) [
    | inl t1 ↦ absurd (let bad = rw t1 at e in cc)
    | inr f1 ↦ elim (Bool-cases (text_eq r.type_field (codes "DOMAIN"))) [
      | inl t2 ↦ absurd (let bad = rw (f1, t2) at e in cc)
      | inr f2 ↦ elim (Bool-cases (text_eq r.type_field (codes "DOMAIN-KEYWORD"))) [
        | inl t3 ↦ absurd (let bad = rw (f1, f2, t3) at e in cc)
        | inr f3 ↦ elim (Bool-cases (text_eq r.type_field (codes "DOMAIN-SUFFIX"))) [
          | inl t4 ↦ absurd (let bad = rw (f1, f2, f3, t4) at e in cc)
          | inr f4 ↦ elim (Bool-cases (text_eq r.type_field (codes "GEOIP"))) [
            | inl geoip ↦ (
              inl geoip,
              country_rule-panic r.target filter lists _ (rw (f1, f2, f3, f4, geoip) at e),
            )
            | inr f5 ↦ elim (Bool-cases (text_eq r.type_field (codes "EXTERNAL"))) [
              | inl external ↦ (
                inr external,
                add_external_rule-panic _ filter lists (rw (f1, f2, f3, f4, f5, external) at e),
              )
              | inr f6 ↦ absurd (let bad = rw (f1, f2, f3, f4, f5, f6) at e in cc)
            ]
          ]
        ]
      ]
    ]
  ]

  filtered-panic :
      (r : Rule) (filter : Option Chars) (lists : SiteGroupLists)
      → filtered x r filter lists ≡ panic
      → AsksFile r × Misplaced
  filtered-panic r none lists e = absurd (cc)
  filtered-panic r (some filter) lists e = elim (>>=-eq-panic (rule_with x r filter lists) _ e) [
    | inl p ↦ rule_with-panic r filter lists p
    | inr (made, found, bad) ↦ absurd (cc)
  ]

  convert_rule-panic :
      (r : Rule) (c : Converting) → convert_rule x r c ≡ panic → AsksFile r × Misplaced
  unfolding convert_rule
  convert_rule-panic r c e = elim (Bool-cases (is_final r)) [
    | inl final ↦ absurd (let no = rw final at e in cc)
    | inr other ↦ elim (>>=-eq-panic (filtered x r r.filter c.site_group_lists) _ (rw other at e)) [
      | inl p ↦ filtered-panic r r.filter c.site_group_lists p
      | inr (made, found, bad) ↦ absurd (cc)
    ]
  ]

  convert_rules-panic :
      (rs : List Rule) (c : Converting)
      → convert_rules x rs c ≡ panic
      → (r : Rule) × In r rs × AsksFile r × Misplaced
  unfolding convert_rules
  convert_rules-panic [] c e = absurd (cc)
  convert_rules-panic (r ∷ rs) c e = elim (>>=-eq-panic (convert_rule x r c) _ e) [
    | inl p ↦ let (asks, gone) = convert_rule-panic r c p in (r, inl refl, asks, gone)
    | inr (first, f, later) ↦ elim (>>=-eq-panic (convert_rules x rs first.1) _ later) [
      | inl p ↦ let (s, i, asks, gone) = convert_rules-panic rs first.1 p in (s, inr i, asks, gone)
      | inr (rest, g, bad) ↦ absurd (cc)
    ]
  ]

-- Whatever the lines of a text are, those included that cannot be read, the conversion of the
-- configuration that is read from them panics only where one of its rules is of the type GEOIP or
-- EXTERNAL and the path of some file in the program's directory cannot be told: no proxy, no group
-- and no other rule makes it panic.
pub to_internal-eq-panic :
    (write : Message → List ℕ) (x : Rules.External) (lines : List (Option Chars))
    → to_internal write x (from_lines lines) ≡ panic
    → (r : Rule) × In r (or_else [] (from_lines lines).rule)
      × AsksFile r
      × (file : Chars) × (x.beside_exe file ≡ none)
unfolding to_internal from_lines
to_internal-eq-panic write x lines e =
    let proxies = each_line proxy_of (get_lines_by_section (codes "Proxy") lines) in
    elim (>>=-eq-panic (proxies_outbounds write proxies) _ e) [
      | inl p ↦ absurd (
          proxies_outbounds-ne-panic write proxies
            (proxies-HasLayers (get_lines_by_section (codes "Proxy") lines)) p)
      | inr (os, made, later) ↦
          elim (>>=-eq-panic
            (convert_rules x (each_line rule_of (get_lines_by_section (codes "Rule") lines))
              (before_rules write (from_lines lines) os))
            _ later) [
              | inl p ↦
                  let (r, i, asks, (file, gone)) = convert_rules-panic x _ _ p in
                  (r, i, asks, file, gone)
              | inr (c, run, bad) ↦ absurd (cc)
            ]
    ]
