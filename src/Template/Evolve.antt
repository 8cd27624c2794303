-- ===== src/Template/Evolve.antt =====
-- template_html.go: Load and Reload keep names and paths.
use mathlib.Core.Path.{subst}
use xun.Base.{
  ℕ, zero, suc, refl, sym, inl, inr, Option, none, some, List, [], ◌∷◌, ◌++◌, Bytes, Dict, codes,
  lookup, delete, get_elem?, Bool-cases, Option-cases,
}
use xun.Template.Store.{Library, Read, content, missing, unreadable, HtmlTemplate, Store, put}
use xun.Template.Load.{
  End, done, failed, panicked, not_exist, other_error, Work, own_names, layout_name, copy_trees,
  from_layout, with_template, with_object, use_layout, set_layout, unless_ended, do_layout, add_one,
  add_dependencies, finish, finish_work, load_parsed, load_read, load_object, load, dependents_of,
  go_on, reload_all, then_all, reload,
}
use xun.Template.Links.{OneMore, add_one-OneMore, End-cases, unless_done, unless_not}
use xun.Template.Names.{
  HasName, Evolves, Evolves-refl, Evolves-trans, put-Evolves, link-Evolves, delete-Evolves,
}

module _ {T Tree : Type 0} (lib : Library T Tree) where
  -- A work on the template of the name goes on to another one.
  abbrev Goes : Bytes → ℕ → Work lib → Work lib → Type 0
  Goes name p w w' = HasName w.store p name → Evolves w.store w'.store

  Goes-trans :
      (name : Bytes) (p : ℕ) (w w' w'' : Work lib)
      → Goes name p w w'
      → Goes name p w' w''
      → Goes name p w w''
  Goes-trans name p w w' w'' f g h =
      Evolves-trans w.store w'.store w''.store (f h) (g ((f h).names p name h))

  unless-Goes :
      (name : Bytes) (p : ℕ) (w : Work lib) (f : Work lib → Work lib)
      → Goes name p w (f w)
      → Goes name p w (unless_ended lib w f)
  unless-Goes name p w f g = elim (End-cases lib w.end) [
    | inl e ↦ subst (Goes name p w) (sym (unless_done lib w f e)) g
    | inr e ↦ subst (Goes name p w) (sym (unless_not lib w f e)) (λ h. Evolves-refl w.store)
  ]

  from_layout-Goes :
      (name : Bytes) (p : ℕ) (layout : Bytes) (w : Work lib) (q : ℕ) (l : HtmlTemplate T) (lt : T)
      → Goes name p w (from_layout lib name p layout w q l lt)
  from_layout-Goes name p layout w q l lt h =
      elim (Bool-cases (copy_trees lib layout (lib.trees lt) w.nt).1) [
        | inl e ↦ rw (e, from_layout) (link-Evolves w.store q name p h)
        | inr e ↦ rw (e, from_layout) (Evolves-refl w.store)
      ]

  with_template-Goes :
      (name : Bytes) (p : ℕ) (layout : Bytes) (w : Work lib) (q : ℕ) (l : HtmlTemplate T)
      (o : Option T)
      → Goes name p w (with_template lib name p layout w q l o)
  with_template-Goes name p layout w q l none h = Evolves-refl w.store
  with_template-Goes name p layout w q l (some lt) h = from_layout-Goes name p layout w q l lt h

  with_object-Goes :
      (name : Bytes) (p : ℕ) (layout : Bytes) (w : Work lib) (q : ℕ) (o : Option (HtmlTemplate T))
      → Goes name p w (with_object lib name p layout w q o)
  with_object-Goes name p layout w q none h = Evolves-refl w.store
  with_object-Goes name p layout w q (some l) h =
      with_template-Goes name p layout w q l l.template h

  found-Goes :
      (name : Bytes) (p : ℕ) (layout : Bytes) (w : Work lib) (o : Option ℕ)
      → Goes name p w (elim o [
        | none ↦ w
        | some q ↦ with_object lib name p layout w q (get_elem? w.store.heap q)
      ])
  found-Goes name p layout w none h = Evolves-refl w.store
  found-Goes name p layout w (some q) h =
      with_object-Goes name p layout w q (get_elem? w.store.heap q) h

  use_layout-Goes :
      (name : Bytes) (p : ℕ) (layout : Bytes) (w : Work lib)
      → Goes name p w (use_layout lib name p layout w)
  unfolding use_layout
  use_layout-Goes name p layout w = found-Goes name p layout w (lookup layout w.store.templates)

  set_layout-Goes :
      (name : Bytes) (p : ℕ) (layout : Bytes) (w : Work lib)
      → Goes name p w (set_layout lib p layout w)
  set_layout-Goes name p layout w h =
      put-Evolves w.store p (λ t. record t { layout = layout }) (λ t. (refl, refl)) (λ t n q l. l)

  do_layout-Goes :
      (name : Bytes) (p : ℕ) (o : Option Bytes) (w : Work lib)
      → Goes name p w (do_layout lib name p o w)
  unfolding do_layout
  do_layout-Goes name p none w h = Evolves-refl w.store
  do_layout-Goes name p (some []) w h = set_layout-Goes name p [] w h
  do_layout-Goes name p (some (c ∷ l)) w h =
      let full = codes "layouts/" ++ (c ∷ l) in
      let w' = use_layout lib name p full w in
      Goes-trans name p w w' (unless_ended lib w' (set_layout lib p full))
        (use_layout-Goes name p full w)
        (unless-Goes name p w' (set_layout lib p full) (set_layout-Goes name p full w')) h

  OneMore-Goes :
      (name : Bytes) (p : ℕ) (n : Bytes) (w w' : Work lib)
      → OneMore lib name p n w w'
      → Goes name p w w'
  OneMore-Goes name p n w w' (a, b, inl (e, f)) h =
      subst (λ (v : Work lib). Evolves w.store v.store) (sym f) (Evolves-refl w.store)
  OneMore-Goes name p n w w' (a, b, inr (inl (e, f))) h =
      subst (Evolves w.store) (sym e) (Evolves-refl w.store)
  OneMore-Goes name p n w w' (a, b, inr (inr (q, t, e, g, f, i))) h =
      subst (Evolves w.store) (sym f) (link-Evolves w.store q name p h)

  add_one-Goes :
      (name : Bytes) (p : ℕ) (n : Bytes) (w : Work lib) → Goes name p w (add_one lib name p n w)
  add_one-Goes name p n w h =
      OneMore-Goes name p n w (add_one lib name p n w) (add_one-OneMore lib name p n w) h

  add_dependencies-Goes :
      (name : Bytes) (p : ℕ) (ns : List Bytes) (w : Work lib)
      → Goes name p w (add_dependencies lib name p ns w)
  unfolding add_dependencies
  add_dependencies-Goes name p [] w h = Evolves-refl w.store
  add_dependencies-Goes name p (n ∷ ns) w h =
      let w' = add_one lib name p n w in
      let rest : Work lib → Work lib = λ v. add_dependencies lib name p ns v in
      Goes-trans name p w w' (unless_ended lib w' rest) (add_one-Goes name p n w)
        (unless-Goes name p w' rest (add_dependencies-Goes name p ns w')) h

  finish-Evolves :
      (p : ℕ) (nt : Option T) (names : List Bytes) (s : Store T)
      → Evolves s (finish lib p nt names s)
  finish-Evolves p nt names s =
      put-Evolves s p (λ t. record t { template = nt; dependencies = names }) (λ t. (refl, refl))
        (λ t n q l. l)

  load_parsed-Evolves :
      (name : Bytes) (p : ℕ) (buf : Bytes) (nt : T) (s : Store T)
      → HasName s p name
      → Evolves s (load_parsed lib name p buf nt s).0
  unfolding load_parsed
  load_parsed-Evolves name p buf nt s h =
      let w0 : Work lib = record {
        store = s;
        nt = nt;
        names = own_names name (lib.trees nt) [];
        end = done;
      } in
      let w = do_layout lib name p (layout_name buf) w0 in
      let rest : Work lib → Work lib = λ v. add_dependencies lib name p v.names v in
      let w' = unless_ended lib w rest in
      Evolves-trans s w'.store (finish_work lib p w').0
        (Goes-trans name p w0 w w' (do_layout-Goes name p (layout_name buf) w0)
          (unless-Goes name p w rest (add_dependencies-Goes name p w.names w)) h)
        (finish-Evolves p (some w'.nt) w'.names w'.store)

  load_read-Evolves :
      (t : HtmlTemplate T) (p : ℕ) (r : Read) (s : Store T)
      → HasName s p t.name
      → Evolves s (load_read lib t p r s).0
  unfolding load_read
  load_read-Evolves t p missing s h = Evolves-refl s
  load_read-Evolves t p unreadable s h = Evolves-refl s
  load_read-Evolves t p (content []) s h = finish-Evolves p (lib.parse t.name []) [] s
  load_read-Evolves t p (content (c ∷ buf)) s h = elim (Option-cases (lib.parse t.name (c ∷ buf))) [
    | inl e ↦ rw (e, load_read) (finish-Evolves p none [] s)
    | inr (nt, e) ↦ rw (e, load_read) (load_parsed-Evolves t.name p (c ∷ buf) nt s h)
  ]

  module _ (read_file : Bytes → Read) where
    pub load-Evolves : (p : ℕ) (s : Store T) → Evolves s (load lib read_file p s).0
    unfolding load
    load-Evolves p s = elim (Option-cases (get_elem? s.heap p)) [
      | inl e ↦ subst (λ o. Evolves s (load_object lib read_file p s o).0) (sym e) (Evolves-refl s)
      | inr (t, e) ↦
          subst (λ o. Evolves s (load_object lib read_file p s o).0) (sym e)
            (load_read-Evolves t p (read_file t.path) s (t, e, refl))
    ]

    -- The result of a Reload, if there is one.
    abbrev pub Reloads : Store T → Option (Store T × End) → Type 0
    Reloads s none = Unit
    Reloads s (some (s', e)) = Evolves s s'

    Reloads-after :
        (s s' : Store T) (o : Option (Store T × End)) → Evolves s s' → Reloads s' o → Reloads s o
    Reloads-after s s' none a b = tt
    Reloads-after s s' (some (s'', e)) a b = Evolves-trans s s' s'' a b

    -- The function reloads one template.
    abbrev pub Reloading : (ℕ → Store T → Option (Store T × End)) → Type 0
    Reloading f = (q : ℕ) (s : Store T) → Reloads s (f q s)

    go_on-Reloads :
        (p : ℕ) (n : Bytes) (s : Store T) (r : Store T × End)
        (next : Store T → Option (Store T × End))
        → Evolves s r.0
        → ((s' : Store T) → Reloads s' (next s'))
        → Reloads s (go_on lib read_file p n r next)
    go_on-Reloads p n s (s', done) next a b = Reloads-after s s' (next s') a (b s')
    go_on-Reloads p n s (s', failed not_exist) next a b =
        let s'' = put s' p (λ t. record t { dependents = delete n t.dependents }) in
        Reloads-after s s'' (next s'') (Evolves-trans s s' s'' a (delete-Evolves s' p n)) (b s'')
    go_on-Reloads p n s (s', failed other_error) next a b = a
    go_on-Reloads p n s (s', panicked) next a b = a

    each-Reloads :
        (p : ℕ) (n : Bytes) (s : Store T) (o : Option (Store T × End))
        (next : Store T → Option (Store T × End))
        → Reloads s o
        → ((s' : Store T) → Reloads s' (next s'))
        → Reloads s (elim o [ none ↦ none | some r ↦ go_on lib read_file p n r next ])
    each-Reloads p n s none next a b = tt
    each-Reloads p n s (some r) next a b = go_on-Reloads p n s r next a b

    reload_all-Reloads :
        (f : ℕ → Store T → Option (Store T × End)) (p : ℕ) (ds : Dict ℕ) (s : Store T)
        → Reloading f
        → Reloads s (reload_all lib read_file f p ds s)
    unfolding reload_all
    reload_all-Reloads f p [] s h = Evolves-refl s
    reload_all-Reloads f p ((n, q) ∷ ds) s h =
        each-Reloads p n s (f q s) (reload_all lib read_file f p ds) (h q s)
          (λ s'. reload_all-Reloads f p ds s' h)

    then_all-Reloads :
        (f : ℕ → Store T → Option (Store T × End)) (q : ℕ) (s : Store T) (r : Store T × End)
        → Reloading f
        → Evolves s r.0
        → Reloads s (then_all lib read_file f q r)
    then_all-Reloads f q s (s', done) h a =
        let ds = dependents_of lib read_file s' q in
        Reloads-after s s' (reload_all lib read_file f q ds s') a (reload_all-Reloads f q ds s' h)
    then_all-Reloads f q s (s', failed e) h a = a
    then_all-Reloads f q s (s', panicked) h a = a

    pub reload-Reloads : (fuel : ℕ) → Reloading (reload lib read_file fuel)
    unfolding reload
    reload-Reloads zero q s = tt
    reload-Reloads (suc fuel) q s =
        then_all-Reloads (reload lib read_file fuel) q s (load lib read_file q s)
          (reload-Reloads fuel) (load-Evolves q s)
