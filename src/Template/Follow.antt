-- ===== src/Template/Follow.antt =====
-- viewengine_html.go: the engine keeps names and paths, whatever happens to its files.
use mathlib.Core.Path.{subst}
use xun.Base.{
  ℕ, ◌≡◌, refl, sym, inl, inr, Bool, true, false, Option, none, some, List, [], drop, ◌∷◌, ◌++◌,
  Bytes, codes, lookup, get_elem?, length, if◌then◌else◌, Option-cases,
}
use xun.Pattern.{split_file}
use xun.App.{Viewer}
use xun.Template.Store.{Library, Read, new_html_template, Store}
use xun.Template.Load.{End, done, failed, panicked, load}
use xun.Template.Engine.{
  is_html, without_ext, HtmlViewEngine, link_to, link_all, names_of, load_new, register, registered,
  load_template, page_name, add_page, page_loaded, load_page, add_view, load_view, load_part,
  carry_on, load_files, and_then, load_engine,
}
use xun.Template.Names.{
  HasName, HasPath, Evolves, Evolves-refl, Evolves-trans, link-Evolves, append-Evolves,
  register-Evolves, get-append_last,
}
use xun.Template.Evolve.{load-Evolves}

module _ {T Tree : Type 0} (lib : Library T Tree) (read_file : Bytes → Read) where
  -- A new object that was loaded has its name and its path.
  abbrev New : Bytes → Bytes → Store T → Store T → Type 0
  New name path s s' =
      Evolves s s' × HasName s' (length s.heap) name × HasPath s' (length s.heap) (without_ext path)

  load_new-New :
      (name path : Bytes) (s : Store T) → New name path s (load_new lib read_file name path s).0
  unfolding load_new new_html_template
  load_new-New name path s =
      let t = new_html_template {T = T} name path in
      let s1 : Store T = record s { heap = s.heap ++ t ∷ [] } in
      let made = append-Evolves s t refl in
      let step = load-Evolves lib read_file (length s.heap) s1 in
      (
        Evolves-trans s s1 (load lib read_file (length s.heap) s1).0 made step,
        step.names (length s.heap) name (t, get-append_last s.heap t, refl),
        step.paths (length s.heap) (without_ext path) (t, get-append_last s.heap t, refl),
      )

  link_to-Evolves :
      (s : Store T) (name : Bytes) (p : ℕ) (o : Option ℕ)
      → HasName s p name
      → Evolves s (link_to lib read_file s name p o)
  link_to-Evolves s name p none h = Evolves-refl s
  link_to-Evolves s name p (some q) h = link-Evolves s q name p h

  link_all-Evolves :
      (name : Bytes) (p : ℕ) (ns : List Bytes) (s : Store T)
      → HasName s p name
      → Evolves s (link_all lib read_file name p ns s)
  unfolding link_all
  link_all-Evolves name p [] s h = Evolves-refl s
  link_all-Evolves name p (n ∷ ns) s h =
      let s' = link_to lib read_file s name p (lookup n s.templates) in
      let one = link_to-Evolves s name p (lookup n s.templates) h in
      Evolves-trans s s' (link_all lib read_file name p ns s') one
        (link_all-Evolves name p ns s' (one.names p name h))

  registered-Evolves :
      (path : Bytes) (s : Store T) (r : Store T × End)
      → New (without_ext path) path s r.0
      → Evolves s (registered lib read_file (without_ext path) (length s.heap) r).0
  registered-Evolves path s (s', done) (a, b, c) =
      let p = length s.heap in
      let ns = names_of lib read_file (get_elem? s'.heap p) in
      let s'' = link_all lib read_file (without_ext path) p ns s' in
      let linked = link_all-Evolves (without_ext path) p ns s' b in
      Evolves-trans s s' (register lib read_file (without_ext path) p s'') a (
        Evolves-trans s' s'' (register lib read_file (without_ext path) p s'') linked
          (register-Evolves s'' (without_ext path) p (linked.paths p (without_ext path) c)))
  registered-Evolves path s (s', failed e) (a, b, c) = a
  registered-Evolves path s (s', panicked) (a, b, c) = a

  load_template-Evolves :
      (path : Bytes) (s : Store T) → Evolves s (load_template lib read_file path s).0
  unfolding load_template
  load_template-Evolves path s =
      registered-Evolves path s (load_new lib read_file (without_ext path) path s)
        (load_new-New (without_ext path) path s)

  module _ (viewer_of : ℕ → Viewer) where
    add_page-store :
        (path : Bytes) (p : ℕ) (ve : HtmlViewEngine T)
        → (add_page lib read_file viewer_of path p ve).0.store ≡ ve.store
    add_page-store path p ve = elim (Option-cases (split_file (page_name path))) [
      | inl e ↦ rw (e, add_page) refl
      | inr (f, e) ↦ rw (e, add_page) refl
    ]

    page_loaded-Evolves :
        (path : Bytes) (ve : HtmlViewEngine T) (r : Store T × End)
        → New (drop 6 path) path ve.store r.0
        → Evolves ve.store
            (page_loaded lib read_file viewer_of path (length ve.store.heap) ve r).0.store
    page_loaded-Evolves path ve (s, done) (a, b, c) =
        let p = length ve.store.heap in
        let s' = register lib read_file (without_ext path) p s in
        subst (Evolves ve.store) (sym (add_page-store path p (record ve { store = s' })))
          (Evolves-trans ve.store s s' a (register-Evolves s (without_ext path) p c))
    page_loaded-Evolves path ve (s, failed e) (a, b, c) = a
    page_loaded-Evolves path ve (s, panicked) (a, b, c) = a

    -- A step of the engine, on what it is given.
    abbrev pub Process : (Bytes → HtmlViewEngine T → HtmlViewEngine T × End) → Type 0
    Process f = (path : Bytes) (ve : HtmlViewEngine T) → Evolves ve.store (f path ve).0.store

    pub load_page-Process : Process (load_page lib read_file viewer_of)
    unfolding load_page
    load_page-Process path ve =
        page_loaded-Evolves path ve (load_new lib read_file (drop 6 path) path ve.store)
          (load_new-New (drop 6 path) path ve.store)

    add_view-Evolves :
        (path : Bytes) (p : ℕ) (ve : HtmlViewEngine T) (r : Store T × End)
        → Evolves ve.store r.0
        → Evolves ve.store (add_view lib read_file viewer_of path p ve r).0.store
    add_view-Evolves path p ve (s, done) a = a
    add_view-Evolves path p ve (s, failed e) a = a
    add_view-Evolves path p ve (s, panicked) a = a

    pub load_view-Process : Process (load_view lib read_file viewer_of)
    unfolding load_view
    load_view-Process path ve =
        add_view-Evolves path (length ve.store.heap) ve (load_template lib read_file path ve.store)
          (load_template-Evolves path ve.store)

    pub load_part-Process : Process (load_part lib read_file viewer_of)
    unfolding load_part
    load_part-Process path ve = load_template-Evolves path ve.store

    -- What a function of the engine gives, if it gives an engine.
    abbrev pub Loads : HtmlViewEngine T → Option (HtmlViewEngine T) → Type 0
    Loads ve none = Unit
    Loads ve (some ve') = Evolves ve.store ve'.store

    pub Loads-trans :
        (ve ve' : HtmlViewEngine T) (o : Option (HtmlViewEngine T))
        → Evolves ve.store ve'.store
        → Loads ve' o
        → Loads ve o
    Loads-trans ve ve' none a b = tt
    Loads-trans ve ve' (some ve'') a b = Evolves-trans ve.store ve'.store ve''.store a b

    carry_on-Loads :
        (ve : HtmlViewEngine T) (r : HtmlViewEngine T × End)
        (next : HtmlViewEngine T → Option (HtmlViewEngine T))
        → Evolves ve.store r.0.store
        → ((ve' : HtmlViewEngine T) → Loads ve' (next ve'))
        → Loads ve (carry_on lib read_file viewer_of r next)
    carry_on-Loads ve (ve', done) next a b = Loads-trans ve ve' (next ve') a (b ve')
    carry_on-Loads ve (ve', failed e) next a b = Loads-trans ve ve' (next ve') a (b ve')
    carry_on-Loads ve (ve', panicked) next a b = tt

    one-Evolves :
        (f : Bytes → HtmlViewEngine T → HtmlViewEngine T × End) (path : Bytes)
        (ve : HtmlViewEngine T) (b : Bool)
        → Process f
        → Evolves ve.store (if b then f path ve else (ve, done)).0.store
    one-Evolves f path ve true h = h path ve
    one-Evolves f path ve false h = Evolves-refl ve.store

    load_files-Loads :
        (f : Bytes → HtmlViewEngine T → HtmlViewEngine T × End) (paths : List Bytes)
        (ve : HtmlViewEngine T)
        → Process f
        → Loads ve (load_files lib read_file viewer_of f paths ve)
    unfolding load_files
    load_files-Loads f [] ve h = Evolves-refl ve.store
    load_files-Loads f (path ∷ paths) ve h =
        carry_on-Loads ve (if is_html path then f path ve else (ve, done))
          (load_files lib read_file viewer_of f paths) (one-Evolves f path ve (is_html path) h)
          (λ ve'. load_files-Loads f paths ve' h)

    pub and_then-Loads :
        (ve : HtmlViewEngine T) (o : Option (HtmlViewEngine T))
        (next : HtmlViewEngine T → Option (HtmlViewEngine T))
        → Loads ve o
        → ((ve' : HtmlViewEngine T) → Loads ve' (next ve'))
        → Loads ve (and_then lib read_file viewer_of o next)
    and_then-Loads ve none next a b = tt
    and_then-Loads ve (some ve') next a b = Loads-trans ve ve' (next ve') a (b ve')

    pub load_engine-Loads :
        (walk : Bytes → List Bytes) (ve : HtmlViewEngine T)
        → Loads ve (load_engine lib read_file viewer_of walk ve)
    unfolding load_engine
    load_engine-Loads walk ve =
        and_then-Loads ve _ _
          (load_files-Loads (load_part lib read_file viewer_of) (walk (codes "components")) ve
            load_part-Process)
          (λ ve1.
            and_then-Loads ve1 _ _
              (load_files-Loads (load_part lib read_file viewer_of) (walk (codes "layouts")) ve1
                load_part-Process)
              (λ ve2.
                and_then-Loads ve2 _ _
                  (load_files-Loads (load_page lib read_file viewer_of) (walk (codes "pages")) ve2
                    load_page-Process)
                  (λ ve3.
                    load_files-Loads (load_view lib read_file viewer_of) (walk (codes "views")) ve3
                      load_view-Process)))
