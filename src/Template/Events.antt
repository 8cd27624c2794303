-- ===== src/Template/Events.antt =====
-- viewengine_html.go: any sequence of changes behind a load.
use mathlib.Core.Path.{subst}
use xun.Base.{
  ℕ, ◌≡◌, inl, inr, ◌||◌, Option, none, some, List, [], ◌∷◌, Bytes, codes, lookup, has_prefix,
  Bool-cases, Option-cases,
}
use xun.App.{App, Viewer}
use xun.Watcher.{Event, Op, create, write, remove}
use xun.Template.Store.{Library, Read, Store}
use xun.Template.Load.{End, done, failed, panicked, reload}
use xun.Template.Engine.{
  is_html, without_ext, HtmlViewEngine, load_engine, reloaded, written, created, changed,
  file_changed,
}
use xun.Template.Names.{IsNamed, Evolves, Evolves-refl, Evolves-trans}
use xun.Template.Evolve.{Reloads, reload-Reloads}
use xun.Template.Follow.{load_engine-Loads, load_page-Process, load_view-Process, load_part-Process}

-- A change of a file, with the files as they are then, and the fuel for a Reload.
pub record Change : Type 0 where
  pub files : Bytes → Read
  pub fuel : ℕ
  pub event : Event

module _ {T Tree : Type 0} (lib : Library T Tree) (viewer_of : ℕ → Viewer) where
  abbrev unless_panicked :
      Option (HtmlViewEngine T × End)
      → (HtmlViewEngine T → Option (HtmlViewEngine T))
      → Option (HtmlViewEngine T)
  unless_panicked none next = none
  unless_panicked (some (ve, panicked)) next = none
  unless_panicked (some (ve, done)) next = next ve
  unless_panicked (some (ve, failed e)) next = next ve

  -- FileChanged for one change after another; `none` is a panic, or a Reload without an end.
  abbrev pub follow : List Change → HtmlViewEngine T → Option (HtmlViewEngine T)
  follow [] ve = some ve
  follow (c ∷ cs) ve =
      unless_panicked (file_changed lib c.files viewer_of c.fuel c.event ve) (λ ve'. follow cs ve')

  -- The engine of an application, with nothing loaded.
  abbrev pub empty_engine : App → HtmlViewEngine T
  empty_engine a = record { store = record { heap = []; templates = [] }; app = a }

  empty-IsNamed : (a : App) → IsNamed (empty_engine a).store
  unfolding lookup
  empty-IsNamed a = record { dependents = λ q t n p h l. cc; templates = λ k p l. cc }

  abbrev Changes : HtmlViewEngine T → Option (HtmlViewEngine T × End) → Type 0
  Changes ve none = Unit
  Changes ve (some (ve', e)) = Evolves ve.store ve'.store

  created-Evolves :
      (files : Bytes → Read) (name : Bytes) (ve : HtmlViewEngine T)
      → Evolves ve.store (created lib files viewer_of name ve).0.store
  created-Evolves files name ve =
      elim (Bool-cases
        (has_prefix name (codes "components/") || has_prefix name (codes "layouts/"))) [
          | inl e ↦ rw (e, created) (load_part-Process lib files viewer_of name ve)
          | inr e ↦ elim (Bool-cases (has_prefix name (codes "pages/"))) [
            | inl f ↦ rw (e, f, created) (load_page-Process lib files viewer_of name ve)
            | inr f ↦ elim (Bool-cases (has_prefix name (codes "views/"))) [
              | inl g ↦ rw (e, f, g, created) (load_view-Process lib files viewer_of name ve)
              | inr g ↦ rw (e, f, g, created) (Evolves-refl ve.store)
            ]
          ]
        ]

  reloaded-Changes :
      (files : Bytes → Read) (ve : HtmlViewEngine T) (o : Option (Store T × End))
      → Reloads lib files ve.store o
      → Changes ve (reloaded lib files viewer_of ve o)
  reloaded-Changes files ve none a = tt
  reloaded-Changes files ve (some (s, e)) a = a

  written-Changes :
      (files : Bytes → Read) (fuel : ℕ) (name : Bytes) (ve : HtmlViewEngine T)
      → Changes ve (written lib files viewer_of fuel name ve)
  written-Changes files fuel name ve =
      elim (Option-cases (lookup (without_ext name) ve.store.templates)) [
        | inl e ↦ rw (e, written) (Evolves-refl ve.store)
        | inr (p, e) ↦
            rw (e, written)
              (reloaded-Changes files ve (reload lib files fuel p ve.store)
                (reload-Reloads lib files fuel p ve.store))
      ]

  changed-Changes :
      (files : Bytes → Read) (fuel : ℕ) (op : Op) (name : Bytes) (ve : HtmlViewEngine T)
      → Changes ve (changed lib files viewer_of fuel op name ve)
  changed-Changes files fuel remove name ve = Evolves-refl ve.store
  changed-Changes files fuel write name ve = written-Changes files fuel name ve
  changed-Changes files fuel create name ve = created-Evolves files name ve

  file_changed-Changes :
      (c : Change) (ve : HtmlViewEngine T)
      → Changes ve (file_changed lib c.files viewer_of c.fuel c.event ve)
  unfolding file_changed
  file_changed-Changes c ve = elim (Bool-cases (is_html c.event.name)) [
    | inl e ↦ rw (e, file_changed) (changed-Changes c.files c.fuel c.event.op c.event.name ve)
    | inr e ↦ rw (e, file_changed) (Evolves-refl ve.store)
  ]

  abbrev Keeps : HtmlViewEngine T → Option (HtmlViewEngine T) → Type 0
  Keeps ve none = Unit
  Keeps ve (some ve') = Evolves ve.store ve'.store

  Keeps-trans :
      (ve ve' : HtmlViewEngine T) (o : Option (HtmlViewEngine T))
      → Evolves ve.store ve'.store
      → Keeps ve' o
      → Keeps ve o
  Keeps-trans ve ve' none a b = tt
  Keeps-trans ve ve' (some ve'') a b = Evolves-trans ve.store ve'.store ve''.store a b

  unless_panicked-Keeps :
      (ve : HtmlViewEngine T) (o : Option (HtmlViewEngine T × End))
      (next : HtmlViewEngine T → Option (HtmlViewEngine T))
      → Changes ve o
      → ((ve' : HtmlViewEngine T) → Keeps ve' (next ve'))
      → Keeps ve (unless_panicked o next)
  unless_panicked-Keeps ve none next a b = tt
  unless_panicked-Keeps ve (some (ve', panicked)) next a b = tt
  unless_panicked-Keeps ve (some (ve', done)) next a b = Keeps-trans ve ve' (next ve') a (b ve')
  unless_panicked-Keeps ve (some (ve', failed e)) next a b = Keeps-trans ve ve' (next ve') a (b ve')

  follow-Keeps : (cs : List Change) (ve : HtmlViewEngine T) → Keeps ve (follow cs ve)
  follow-Keeps [] ve = Evolves-refl ve.store
  follow-Keeps (c ∷ cs) ve =
      unless_panicked-Keeps ve (file_changed lib c.files viewer_of c.fuel c.event ve) (follow cs)
        (file_changed-Changes c ve) (follow-Keeps cs)

  -- However the files were loaded and have changed since, in an engine that is still there every
  -- dependent that a template knows is a template of the name under which it is known, and every
  -- template that the engine has under a key is that of the file whose path, without its extension,
  -- is the key.
  pub follow-IsNamed :
      (files : Bytes → Read) (walk : Bytes → List Bytes) (a : App) (cs : List Change)
      (ve ve' : HtmlViewEngine T)
      → load_engine lib files viewer_of walk (empty_engine a) ≡ some ve
      → follow cs ve ≡ some ve'
      → IsNamed ve'.store
  follow-IsNamed files walk a cs ve ve' loaded followed =
      let first : Keeps (empty_engine a) (some ve) =
        subst (Keeps (empty_engine a)) loaded
          (load_engine-Loads lib files viewer_of walk (empty_engine a)) in
      let second : Keeps ve (some ve') = subst (Keeps ve) followed (follow-Keeps cs ve) in
      second.named (first.named (empty-IsNamed a))
