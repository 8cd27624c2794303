-- ===== src/Acl/Document.antt =====
-- ext/acl/config.go: a file of sections does what the options do.
use xun.Base.{
  suc, ◌≡◌, ◌≢◌, refl, sym, ap, ◌∙◌, false, none, some, List, [], ◌∷◌, ◌++◌, append-nil,
  append_assoc, Bytes, codes, length, equal, All, arith,
}
use xun.Acl.Options.{
  Net, Options, allow_hosts, allow_ip_nets, deny_ip_nets, allow_countries, deny_countries,
  with_host_whitelist,
}
use xun.Acl.Config.{
  Section, section_na, section_ah, section_an, section_dn, section_ac, section_dc, section_wl,
  remove_spaces, is_skipped, section_of, add_entry, switch, load_sections,
}
use xun.Acl.OnePass.{entries, within, pass, load_sections-pass}

-- The line that starts a section; no line starts `section_na`.
abbrev pub header : Section → Bytes
header section_na = []
header section_ah = codes "[allow_hosts]"
header section_an = codes "[allow_ipnets]"
header section_dn = codes "[deny_ipnets]"
header section_ac = codes "[allow_countries]"
header section_dc = codes "[deny_countries]"
header section_wl = codes "[host_whitelist]"

-- A line that is read as an entry: it has no space, is not passed over and starts no section.
abbrev pub IsEntry : Bytes → Type 0
IsEntry l =
    (remove_spaces l ≡ l)
    × (is_skipped l ≡ false)
    × (section_of l ≡ none)
    × (equal l (codes "[host_redirect]") ≡ false)

-- A section that has a header, with entries.
abbrev pub IsBlock : Section × List Bytes → Type 0
IsBlock (section, ls) = (section ≢ section_na) × All IsEntry ls

-- The lines of a file.
abbrev pub print : List (Section × List Bytes) → List Bytes
print [] = []
print ((section, ls) ∷ doc) = header section ∷ (ls ++ print doc)

module _ (net : Net) where
  -- The option of a section.
  abbrev pub option_of : Section → List Bytes → Options → Options
  option_of section_na ls o = o
  option_of section_ah ls o = allow_hosts ls o
  option_of section_an ls o = allow_ip_nets net ls o
  option_of section_dn ls o = deny_ip_nets net ls o
  option_of section_ac ls o = allow_countries ls o
  option_of section_dc ls o = deny_countries ls o
  option_of section_wl ls o = with_host_whitelist ls o

  abbrev pub apply : List (Section × List Bytes) → Options → Options
  apply [] o = o
  apply ((section, ls) ∷ doc) o = apply doc (option_of section ls o)

  -- One entry after another is the option of all of them.
  option_of_cons :
      (section : Section) (l : Bytes) (ls : List Bytes) (o : Options)
      → option_of section ls (add_entry net section l o) ≡ option_of section (l ∷ ls) o
  unfolding add_entry
  option_of_cons section_na l ls o = refl
  option_of_cons section_ah l ls o = refl
  option_of_cons section_an l ls o = refl
  option_of_cons section_dn l ls o = refl
  option_of_cons section_ac l ls o = refl
  option_of_cons section_dc l ls o = refl
  option_of_cons section_wl l ls o =
      ap (λ w. record o { host_whitelist = w }) (append_assoc o.host_whitelist (l ∷ []) ls)

  option_of_nil : (section : Section) (o : Options) → option_of section [] o ≡ o
  unfolding allow_hosts allow_ip_nets deny_ip_nets allow_countries deny_countries
      with_host_whitelist
  option_of_nil section_na o = refl
  option_of_nil section_ah o = refl
  option_of_nil section_an o = refl
  option_of_nil section_dn o = refl
  option_of_nil section_ac o = refl
  option_of_nil section_dc o = refl
  option_of_nil section_wl o =
      ap (λ w. record o { host_whitelist = w }) (append-nil o.host_whitelist)

  pass-entries :
      (section : Section) (ls rest : List Bytes) (o : Options)
      → All IsEntry ls
      → pass net (within section) (entries (ls ++ rest)) o
        ≡ pass net (within section) (entries rest) (option_of section ls o)
  unfolding entries pass switch
  pass-entries section [] rest o h =
      ap (λ p. pass net (within section) (entries rest) p) (sym (option_of_nil section o))
  pass-entries section (l ∷ ls) rest o ((a, b, c, d), h) =
      rw (a, b, entries, d, pass, c, switch)
        (pass-entries section ls rest (add_entry net section l o) h
          ∙ ap (λ p. pass net (within section) (entries rest) p) (option_of_cons section l ls o))

  -- A header is an entry that starts its section.
  pass-header :
      (from section : Section) (ls : List Bytes) (o : Options)
      → section ≢ section_na
      → pass net (within from) (entries (header section ∷ ls)) o
        ≡ pass net (within section) (entries ls) o
  unfolding entries pass switch
  pass-header from section_na ls o h = absurd (h refl)
  pass-header from section_ah ls o h = refl
  pass-header from section_an ls o h = refl
  pass-header from section_dn ls o h = refl
  pass-header from section_ac ls o h = refl
  pass-header from section_dc ls o h = refl
  pass-header from section_wl ls o h = refl

  pass-print :
      (from : Section) (doc : List (Section × List Bytes)) (o : Options)
      → All IsBlock doc
      → pass net (within from) (entries (print doc)) o ≡ apply doc o
  unfolding entries pass
  pass-print from [] o h = refl
  pass-print from ((section, ls) ∷ doc) o ((n, e), h) =
      pass-header from section (ls ++ print doc) o n
      ∙ pass-entries section ls (print doc) o e
      ∙ pass-print section doc (option_of section ls o) h

  -- Loading a file that consists of sections, each a header with entries below it, does to the
  -- options what the option functions of the sections do with those entries, in the order of the
  -- file. An entry is a line without spaces that is no comment and no header.
  pub load_sections-print :
      (doc : List (Section × List Bytes)) (o : Options)
      → All IsBlock doc
      → load_sections net (suc (length (print doc))) section_na (print doc) o ≡ some (apply doc o)
  load_sections-print doc o h =
      load_sections-pass net (suc (length (print doc))) section_na (print doc) o (omega arith)
      ∙ ap some (pass-print section_na doc o h)
