-- ===== src/Acl/Reload.antt =====
-- ext/acl/watcher.go: a newer file that can be read is in force after one tick.
use xun.Base.{
  false, ℕ, suc, ◌<◌, ◌≡◌, refl, ap, ◌∙◌, Option, none, some, List, [], ◌∷◌, ◌++◌, Bytes, drop,
  length, ltb, lt→ltb, equal, codes, has_prefix, All, arith, inl, inr, Bool-cases, Option-cases,
}
use xun.Sse.Event.{pos}
use xun.Acl.Options.{Net, Options, new_options}
use xun.Acl.Config.{
  Section, section_na, section_ah, section_an, section_dn, section_ac, section_dc, section_wl,
  lines, section_of, add_entry, switch, set_url, set_redirect, starts_section,
}
use xun.Acl.OnePass.{Place, within, redirecting, entries, step, pass, load_sections-pass}
use xun.Acl.Watch.{File, get_last_mod, Watch, fresh, load_options, watch, tick, ticks}

-- The viewer and the lookup function, which no file sets, are the same.
abbrev Keeps : Options → Options → Type 0
Keeps o o' = (o'.viewer_name ≡ o.viewer_name) × (o'.lookup_func ≡ o.lookup_func)

Keeps-trans : (a b c : Options) → Keeps a b → Keeps b c → Keeps a c
Keeps-trans a b c (p, q) (r, s) = (r ∙ p, s ∙ q)

module _ (net : Net) where
  add_entry-Keeps :
      (section : Section) (l : Bytes) (o : Options) → Keeps o (add_entry net section l o)
  unfolding add_entry
  add_entry-Keeps section_na l o = (refl, refl)
  add_entry-Keeps section_ah l o = (refl, refl)
  add_entry-Keeps section_an l o = (refl, refl)
  add_entry-Keeps section_dn l o = (refl, refl)
  add_entry-Keeps section_ac l o = (refl, refl)
  add_entry-Keeps section_dc l o = (refl, refl)
  add_entry-Keeps section_wl l o = (refl, refl)

  switch-Keeps : (section : Section) (l : Bytes) (o : Options) → Keeps o (switch net section l o).1
  unfolding switch
  switch-Keeps section l o = elim (Option-cases (section_of l)) [
    | inl e ↦ rw (e, switch) (add_entry-Keeps section l o)
    | inr (section', e) ↦ rw (e, switch) (refl, refl)
  ]

  set_url-Keeps : (u : Option Bytes) (o : Options) → Keeps o (set_url net u o)
  set_url-Keeps none o = (refl, refl)
  set_url-Keeps (some u) o = (refl, refl)

  set_redirect-Keeps : (l : Bytes) (o : Options) → Keeps o (set_redirect net l o)
  unfolding set_redirect
  set_redirect-Keeps l o = elim (Bool-cases (has_prefix l (codes "url="))) [
    | inl e ↦ rw (e, set_redirect) (set_url-Keeps (net.parse_url (drop 4 l)) o)
    | inr e ↦ elim (Bool-cases (has_prefix l (codes "status_code="))) [
      | inl e' ↦ rw (e, e', set_redirect) (refl, refl)
      | inr e' ↦ rw (e, e', set_redirect) (refl, refl)
    ]
  ]

  step-Keeps : (p : Place) (l : Bytes) (o : Options) → Keeps o (step net p l o).1
  unfolding step
  step-Keeps (within section) l o = elim (Bool-cases (equal l (codes "[host_redirect]"))) [
    | inl e ↦ rw (e, step) (refl, refl)
    | inr e ↦ rw (e, step) (switch-Keeps section l o)
  ]
  step-Keeps redirecting l o = elim (Bool-cases (starts_section l)) [
    | inl e ↦ rw (e, step) (switch-Keeps section_na l o)
    | inr e ↦ rw (e, step) (set_redirect-Keeps l o)
  ]

  pass-Keeps : (p : Place) (ls : List Bytes) (o : Options) → Keeps o (pass net p ls o)
  unfolding pass
  pass-Keeps p [] o = (refl, refl)
  pass-Keeps p (l ∷ ls) o =
      let (p', o') = step net p l o in
      Keeps-trans o o' (pass net p' ls o') (step-Keeps p l o) (pass-Keeps p' ls o')

  -- Options that allow all, with a file's name, a viewer and a lookup function.
  abbrev pub options_with : Bytes → Bytes → Option (Bytes → Bytes) → Options
  options_with file viewer_name lookup_func = record {
    allow_hosts = [];
    host_redirect_url = [];
    host_redirect_status_code = pos 302;
    host_whitelist = [];
    allow_ip_nets = [];
    deny_ip_nets = [];
    allow_countries = record { items = []; has_any = false };
    deny_countries = record { items = []; has_any = false };
    lookup_func = lookup_func;
    viewer_name = viewer_name;
    config = file;
  }

  -- What a file says, on options that have nothing but a viewer and a lookup function.
  abbrev pub loaded : Bytes → Bytes → Options → Options
  loaded file text o =
      pass net (within section_na) (entries (lines text))
        (options_with file o.viewer_name o.lookup_func)

  fresh-options_with :
      (file : Bytes) (o : Options) → fresh file o ≡ options_with file o.viewer_name o.lookup_func
  unfolding fresh new_options
  fresh-options_with file o = refl

  load_options-loaded :
      (file text : Bytes) (f : File) (o : Options)
      → f.text ≡ some text
      → load_options net f (fresh file o) ≡ some (loaded file text o)
  unfolding load_options
  load_options-loaded file text f o e =
      rw (e, load_options, fresh-options_with file o)
        (load_sections-pass net (suc (length (lines text))) section_na (lines text)
          (options_with file o.viewer_name o.lookup_func) (omega arith))

  -- The file is older than a time.
  abbrev pub Before : ℕ → File → Type 0
  Before t f = get_last_mod f < t

  loaded-Keeps : (file text : Bytes) (o : Options) → Keeps o (loaded file text o)
  loaded-Keeps file text o =
      pass-Keeps (within section_na) (entries (lines text))
        (options_with file o.viewer_name o.lookup_func)

  tick-Before :
      (file : Bytes) (w : Watch) (f : File) (t : ℕ)
      → w.last_mod < t
      → Before t f
      → ((tick net file w f).last_mod < t) × Keeps w.current (tick net file w f).current
  unfolding tick
  tick-Before file w f t h k = elim (Bool-cases (ltb w.last_mod (get_last_mod f))) [
    | inr e ↦ rw (e, tick) (h, (refl, refl))
    | inl e ↦ elim (Option-cases f.text) [
      | inl n ↦ rw (e, tick, n, load_options) (h, (refl, refl))
      | inr (text, n) ↦
          rw (e, tick, load_options-loaded file text f w.current n)
            (k, loaded-Keeps file text w.current)
    ]
  ]

  ticks-Before :
      (file : Bytes) (w : Watch) (fs : List File) (t : ℕ)
      → w.last_mod < t
      → All (Before t) fs
      → ((ticks net file w fs).last_mod < t) × Keeps w.current (ticks net file w fs).current
  unfolding ticks
  ticks-Before file w [] t h k = (h, (refl, refl))
  ticks-Before file w (f ∷ fs) t h (k, ks) =
      let w' = tick net file w f in
      let (h', kept) = tick-Before file w f t h k in
      let (h'', kept') = ticks-Before file w' fs t h' ks in
      (h'', Keeps-trans w.current w'.current (ticks net file w' fs).current kept kept')

  ticks-append :
      (file : Bytes) (w : Watch) (fs : List File) (f : File)
      → ticks net file w (fs ++ f ∷ []) ≡ tick net file (ticks net file w fs) f
  unfolding ticks
  ticks-append file w [] f = refl
  ticks-append file w (g ∷ fs) f = ticks-append file (tick net file w g) fs f

  loaded-eq :
      (file text : Bytes) (o o' : Options) → Keeps o o' → loaded file text o' ≡ loaded file text o
  loaded-eq file text o o' (p, q) = rw (p, q) refl

  -- Whatever the file was at the ticks so far, a file that is newer than at any of them, and newer
  -- than when the watcher started, is in force after the tick that finds it, if it can be opened:
  -- the viewer and the lookup function are still those that were given at the start, and the options
  -- are what a pass over the file makes of options that have nothing but these two and the file's
  -- name, so that nothing else is left of the options before.
  pub ticks-newer :
      (file text : Bytes) (o : Options) (start : File) (fs : List File) (f : File)
      → f.text ≡ some text
      → Before (get_last_mod f) start
      → All (Before (get_last_mod f)) fs
      → let now = (ticks net file (watch o start) (fs ++ f ∷ [])).current in
        (now ≡ loaded file text o)
        × (now.viewer_name ≡ o.viewer_name)
        × (now.lookup_func ≡ o.lookup_func)
  unfolding watch tick
  ticks-newer file text o start fs f n h hs =
      let w = ticks net file (watch o start) fs in
      let (older, kept) = ticks-Before file (watch o start) fs (get_last_mod f) h hs in
      let e : (ticks net file (watch o start) (fs ++ f ∷ [])).current ≡ loaded file text o =
        ap (λ (v : Watch). v.current) (ticks-append file (watch o start) fs f)
        ∙ rw
            (
              lt→ltb w.last_mod (get_last_mod f) older,
              tick,
              load_options-loaded file text f w.current n,
            )
            (loaded-eq file text o w.current kept) in
      let (viewer, lookup) = loaded-Keeps file text o in
      (
        e,
        ap (λ (o' : Options). o'.viewer_name) e ∙ viewer,
        ap (λ (o' : Options). o'.lookup_func) e ∙ lookup,
      )
