-- ===== src/Template/Engine.antt =====
-- viewengine_html.go: the engine loads the templates of a file system, and follows its changes.
-- What fs.WalkDir finds is a list of paths for each directory.
use xun.Base.{
  ℕ, ◌-◌, Bool, not, ◌||◌, ◌&&◌, Option, none, some, List, [], ◌∷◌, ◌++◌, Bytes, codes, lookup,
  insert, equal_fold, has_prefix, has_suffix, trim_suffix, length, take, drop, get_elem?, any,
  if◌then◌else◌, ◌==◌,
}
use xun.Pattern.{split_file}
use xun.App.{App, Viewer, handle_page}
use xun.Watcher.{Event, Op, create, write, remove}
use xun.Template.Store.{Library, Read, HtmlTemplate, new_html_template, Store, link}
use xun.Template.Load.{End, done, failed, panicked, load, reload}

-- filepath.Ext: the last element of the path from its last dot on.
unfoldable pub ext : Bytes → Bytes
ext [] = []
ext (c ∷ s) =
    let rest = ext s in
    elim rest [
      | x ∷ xs ↦ x ∷ xs
      | [] ↦ if c == b'.' && not (any (λ d. d == b'/') s) then c ∷ s else []
    ]

unfoldable pub is_html : Bytes → Bool
unfolding ext equal_fold
is_html path = equal_fold (ext path) (codes ".html")

-- path[:len(path)-5]
abbrev pub without_ext : Bytes → Bytes
without_ext path = take (length path - 5) path

-- The name that gives a page its pattern.
unfoldable pub page_name : Bytes → Bytes
unfolding has_suffix
page_name path =
    let name = drop 6 path in
    if has_suffix path (codes "/index.html") then take (length name - 10) name else name

-- HtmlViewEngine, with the application that it registers pages with.
pub record HtmlViewEngine (T : Type 0) : Type 0 where
  pub store : Store T
  pub app : App

module _ {T Tree : Type 0} (lib : Library T Tree) (read_file : Bytes → Read) where
  -- The loop of loadTemplate over the dependencies.
  abbrev pub link_to : Store T → Bytes → ℕ → Option ℕ → Store T
  link_to s name p none = s
  link_to s name p (some q) = link s q name p

  unfoldable pub link_all : Bytes → ℕ → List Bytes → Store T → Store T
  unfolding lookup link
  link_all name p [] s = s
  link_all name p (n ∷ ns) s = link_all name p ns (link_to s name p (lookup n s.templates))

  abbrev pub names_of : Option (HtmlTemplate T) → List Bytes
  names_of none = []
  names_of (some t) = t.dependencies

  -- A new object and its Load.
  unfoldable pub load_new : Bytes → Bytes → Store T → Store T × End
  unfolding load new_html_template
  load_new name path s =
      load lib read_file (length s.heap)
        (record s { heap = s.heap ++ new_html_template name path ∷ [] })

  abbrev pub register : Bytes → ℕ → Store T → Store T
  register name p s = record s { templates = insert name p s.templates }

  abbrev pub registered : Bytes → ℕ → Store T × End → Store T × End
  registered name p (s, done) =
      (register name p (link_all name p (names_of (get_elem? s.heap p)) s), done)
  registered name p (s, failed e) = (s, failed e)
  registered name p (s, panicked) = (s, panicked)

  -- loadTemplate; the new object stands at the end of the objects.
  unfoldable pub load_template : Bytes → Store T → Store T × End
  unfolding load_new link_all insert
  load_template path s =
      registered (without_ext path) (length s.heap) (load_new (without_ext path) path s)

  module _ (viewer_of : ℕ → Viewer) where
    abbrev pub add_page : Bytes → ℕ → HtmlViewEngine T → HtmlViewEngine T × End
    add_page path p ve = elim (split_file (page_name path)) [
      | none ↦ (ve, panicked)
      | some f ↦ (
        record ve {
          app =
              handle_page ve.app (trim_suffix f.pattern (codes ".html")) (without_ext (drop 6 path))
                (viewer_of p);
        },
        done,
      )
    ]

    abbrev pub page_loaded : Bytes → ℕ → HtmlViewEngine T → Store T × End → HtmlViewEngine T × End
    page_loaded path p ve (s, done) =
        add_page path p (record ve { store = register (without_ext path) p s })
    page_loaded path p ve (s, failed e) = (record ve { store = s }, failed e)
    page_loaded path p ve (s, panicked) = (record ve { store = s }, panicked)

    -- loadPage
    unfoldable pub load_page : Bytes → HtmlViewEngine T → HtmlViewEngine T × End
    unfolding load_new insert page_name split_file trim_suffix handle_page
    load_page path ve =
        page_loaded path (length ve.store.heap) ve (load_new (drop 6 path) path ve.store)

    abbrev pub add_view : Bytes → ℕ → HtmlViewEngine T → Store T × End → HtmlViewEngine T × End
    add_view path p ve (s, done) = (
      record ve {
        store = s;
        app = record ve.app { viewers = insert (without_ext path) (viewer_of p) ve.app.viewers };
      },
      done,
    )
    add_view path p ve (s, failed e) = (record ve { store = s }, failed e)
    add_view path p ve (s, panicked) = (record ve { store = s }, panicked)

    -- loadView
    unfoldable pub load_view : Bytes → HtmlViewEngine T → HtmlViewEngine T × End
    unfolding load_template insert
    load_view path ve = add_view path (length ve.store.heap) ve (load_template path ve.store)

    -- loadTemplate, as loadComponents and loadLayouts call it.
    unfoldable pub load_part : Bytes → HtmlViewEngine T → HtmlViewEngine T × End
    unfolding load_template
    load_part path ve = let (s, e) = load_template path ve.store in (record ve { store = s }, e)

    -- loadFiles: an error is logged, a panic is none.
    abbrev pub carry_on :
        HtmlViewEngine T × End
        → (HtmlViewEngine T → Option (HtmlViewEngine T))
        → Option (HtmlViewEngine T)
    carry_on (ve, done) next = next ve
    carry_on (ve, failed e) next = next ve
    carry_on (ve, panicked) next = none

    unfoldable pub load_files :
        (Bytes → HtmlViewEngine T → HtmlViewEngine T × End)
        → List Bytes
        → HtmlViewEngine T
        → Option (HtmlViewEngine T)
    unfolding is_html
    load_files process [] ve = some ve
    load_files process (path ∷ paths) ve =
        carry_on (if is_html path then process path ve else (ve, done))
          (λ ve'. load_files process paths ve')

    abbrev pub and_then :
        Option (HtmlViewEngine T)
        → (HtmlViewEngine T → Option (HtmlViewEngine T))
        → Option (HtmlViewEngine T)
    and_then none f = none
    and_then (some ve) f = f ve

    -- Load of the engine; `walk` is what walking a directory finds.
    unfoldable pub load_engine : (Bytes → List Bytes) → HtmlViewEngine T → Option (HtmlViewEngine T)
    unfolding load_files load_part load_page load_view
    load_engine walk ve = and_then (load_files load_part (walk (codes "components")) ve) (λ ve1.
        and_then (load_files load_part (walk (codes "layouts")) ve1) (λ ve2.
          and_then (load_files load_page (walk (codes "pages")) ve2)
            (λ ve3. load_files load_view (walk (codes "views")) ve3)))

    -- FileChanged; Reload runs on fuel.
    abbrev pub reloaded :
        HtmlViewEngine T → Option (Store T × End) → Option (HtmlViewEngine T × End)
    reloaded ve none = none
    reloaded ve (some (s, e)) = some (record ve { store = s }, e)

    abbrev pub written : ℕ → Bytes → HtmlViewEngine T → Option (HtmlViewEngine T × End)
    written fuel name ve = elim (lookup (without_ext name) ve.store.templates) [
      | none ↦ some (ve, done)
      | some p ↦ reloaded ve (reload lib read_file fuel p ve.store)
    ]

    abbrev pub created : Bytes → HtmlViewEngine T → HtmlViewEngine T × End
    created name ve =
        if has_prefix name (codes "components/") || has_prefix name (codes "layouts/")
        then load_part name ve
        else if has_prefix name (codes "pages/")
        then load_page name ve
        else if has_prefix name (codes "views/")
        then load_view name ve
        else (ve, done)

    abbrev pub changed : ℕ → Op → Bytes → HtmlViewEngine T → Option (HtmlViewEngine T × End)
    changed fuel remove name ve = some (ve, done)
    changed fuel write name ve = written fuel name ve
    changed fuel create name ve = some (created name ve)

    unfoldable pub file_changed : ℕ → Event → HtmlViewEngine T → Option (HtmlViewEngine T × End)
    unfolding is_html reload load_part load_page load_view has_prefix lookup
    file_changed fuel event ve =
        if not (is_html event.name) then some (ve, done) else changed fuel event.op event.name ve
