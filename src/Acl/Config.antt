-- ===== src/Acl/Config.antt =====
-- ext/acl/config.go: loading the options from a file. A file that opens is its text, which the
-- scanner gives line by line; the loops run on fuel, and `none` says that it ran out.
use xun.Base.{
  ◌*◌, ◌+◌, true, ℕ, zero, suc, ◌^◌, Bool, false, ◌||◌, Option, none, some, List, [], ◌∷◌, Bytes,
  codes, length, drop, ltb, leb, ◌-◌, ◌&&◌, ◌==◌, equal, has_prefix, split, trim_suffix,
  if◌then◌else◌,
}
use xun.Sse.Event.{ℤ, pos, negsuc, atoi}
use xun.Acl.Options.{
  Net, Options, allow_hosts, allow_ip_nets, deny_ip_nets, allow_countries, deny_countries,
  with_host_whitelist,
}

-- bufio.Scanner with its default split: lines without their ends, up to the first line that does
-- not fit into 64 KB. The text behind the last line end is a line unless it is empty.
unfoldable pub scan : List Bytes → List Bytes
unfolding trim_suffix
scan [] = []
scan ([] ∷ []) = []
scan (l ∷ ls) =
    let rest = scan ls in if ltb (length l) (2 ^ 16) then trim_suffix l (codes "\r") ∷ rest else []

unfoldable pub lines : Bytes → List Bytes
unfolding split scan
lines text = scan (split text b'\n')

-- strings.ReplaceAll(s, " ", "")
unfoldable pub remove_spaces : Bytes → Bytes
remove_spaces [] = []
remove_spaces (c ∷ s) = if c == b' ' then remove_spaces s else c ∷ remove_spaces s

-- A line that loadLine passes over, once its spaces are removed.
unfoldable pub is_skipped : Bytes → Bool
unfolding equal has_prefix
is_skipped l = equal l [] || has_prefix l (codes "#") || has_prefix l (codes ";")

-- loadLine, with the lines that are left; io.EOF is `none`.
unfoldable pub load_line : List Bytes → Option (Bytes × List Bytes)
unfolding remove_spaces is_skipped
load_line [] = none
load_line (t ∷ ls) =
    let l = remove_spaces t in
    let rest = load_line ls in if is_skipped l then rest else some (l, ls)

pub data Section : Type 0 where
  section_na section_ah section_an section_dn section_ac section_dc section_wl : Section

-- The first switch: the section that a line starts.
unfoldable pub section_of : Bytes → Option Section
unfolding equal
section_of l =
    if equal l (codes "[allow_hosts]")
    then some section_ah
    else if equal l (codes "[allow_ipnets]")
    then some section_an
    else if equal l (codes "[deny_ipnets]")
    then some section_dn
    else if equal l (codes "[allow_countries]")
    then some section_ac
    else if equal l (codes "[deny_countries]")
    then some section_dc
    else if equal l (codes "[host_whitelist]")
    then some section_wl
    else none

abbrev is_digit : ℕ → Bool
is_digit c = leb b'0' c && leb c b'9'

-- Whether digits leave the range, `n` being those read so far: a number of more than 64 bits does
-- at its first digit too many, whatever follows it.
unfoldable pub overflows : ℕ → Bytes → Bool
overflows n [] = leb (2 ^ 63) n
overflows n (c ∷ s) =
    let n' = n * 10 + (c - b'0') in
    let rest = overflows n' s in
    if is_digit c then (if leb (2 ^ 64) n' then true else rest) else false

-- What strconv.Atoi gives beside an error: the bound of the range that the digits leave, or 0.
unfoldable pub out_of_range : Bytes → ℤ
unfolding overflows
out_of_range [] = pos 0
out_of_range (c ∷ s) =
    if c == b'-'
    then (if overflows 0 s then negsuc (2 ^ 63 - 1) else pos 0)
    else if overflows 0 (if c == b'+' then s else c ∷ s)
    then pos (2 ^ 63 - 1)
    else pos 0

unfoldable pub atoi_value : Bytes → ℤ
unfolding atoi out_of_range
atoi_value s = elim (atoi s) [ some n ↦ n | none ↦ out_of_range s ]

-- The last test of loadHostRedirect's loop, behind the tests of its two keys.
unfoldable pub starts_section : Bytes → Bool
unfolding has_prefix
starts_section l =
    if has_prefix l (codes "url=") || has_prefix l (codes "status_code=")
    then false
    else has_prefix l (codes "[")

module _ (net : Net) where
  -- The second switch: the option of the section, with the line.
  unfoldable pub add_entry : Section → Bytes → Options → Options
  unfolding allow_hosts allow_ip_nets deny_ip_nets allow_countries deny_countries
      with_host_whitelist
  add_entry section_na l o = o
  add_entry section_ah l o = allow_hosts (l ∷ []) o
  add_entry section_an l o = allow_ip_nets net (l ∷ []) o
  add_entry section_dn l o = deny_ip_nets net (l ∷ []) o
  add_entry section_ac l o = allow_countries (l ∷ []) o
  add_entry section_dc l o = deny_countries (l ∷ []) o
  add_entry section_wl l o = with_host_whitelist (l ∷ []) o

  -- Both switches.
  unfoldable pub switch : Section → Bytes → Options → Section × Options
  unfolding section_of add_entry
  switch section l o = elim (section_of l) [
    | some section' ↦ (section', o)
    | none ↦ (section, add_entry section l o)
  ]

  abbrev pub set_url : Option Bytes → Options → Options
  set_url none o = o
  set_url (some u) o = record o { host_redirect_url = u }

  -- A line of [host_redirect] that starts no other section.
  unfoldable pub set_redirect : Bytes → Options → Options
  unfolding has_prefix atoi_value
  set_redirect l o =
      if has_prefix l (codes "url=")
      then set_url (net.parse_url (drop 4 l)) o
      else if has_prefix l (codes "status_code=")
      then record o { host_redirect_status_code = atoi_value (drop 12 l) }
      else o

  -- loadHostRedirect: the line that it returns, the lines left and the options.
  unfoldable pub load_host_redirect :
      ℕ → List Bytes → Options → Option (Bytes × List Bytes × Options)
  unfolding load_line starts_section set_redirect
  load_host_redirect zero ls o = none
  load_host_redirect (suc n) ls o = elim (load_line ls) [
    | none ↦ some ([], [], o)
    | some (l, rest) ↦
        let again = load_host_redirect n rest (set_redirect l o) in
        if starts_section l then some (l, rest, o) else again
  ]

  -- The branch for [host_redirect], in front of the switches.
  unfoldable pub enter :
      ℕ → Section → Bytes → List Bytes → Options → Option (Section × Bytes × List Bytes × Options)
  unfolding equal load_host_redirect
  enter n section l ls o =
      if equal l (codes "[host_redirect]")
      then elim (load_host_redirect n ls o) [
        | none ↦ none
        | some (l', ls', o') ↦ some (section_na, l', ls', o')
      ]
      else some (section, l, ls, o)

  -- The loop of loadOptions.
  unfoldable pub load_sections : ℕ → Section → List Bytes → Options → Option Options
  unfolding load_line enter switch
  load_sections zero section ls o = none
  load_sections (suc n) section ls o = elim (load_line ls) [
    | none ↦ some o
    | some (l, rest) ↦ elim (enter n section l rest o) [
      | none ↦ none
      | some (section', l', rest', o') ↦
          let (section'', o'') = switch section' l' o' in load_sections n section'' rest' o''
    ]
  ]
