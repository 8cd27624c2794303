-- ===== src/Template/Tests.antt =====
-- template_html.go and viewengine_html.go: runs, and the theorems at concrete inputs.
use xun.Base.{
  ℕ, ◌≡◌, refl, List, inr, none, some, [], ◌∷◌, ◌++◌, Bytes, Dict, codes, insert, equal, get_elem?,
  if◌then◌else◌, has_prefix,
}
use xun.Template.Store.{Library, Read, content, missing, HtmlTemplate, new_html_template, Store}
use xun.Template.Load.{failed, not_exist, layout_name, load, execute}
use xun.Template.Links.{Linked}
use xun.App.{App, Viewer}
use xun.Watcher.{write}
use xun.Template.Engine.{HtmlViewEngine, load_engine, file_changed}
use xun.Template.Text.{TextViewEngine, text_file_changed, text_file_changed-failed}
use xun.Template.Names.{IsNamed}
use xun.Template.Events.{Change, follow, empty_engine, follow-IsNamed}
use xun.Template.Registers.{load-Registered}

-- A set is its trees, and a tree its text. A text that begins with `!` does not parse, and each text
-- defines a component beside itself.
abbrev sample : Library (Dict Bytes) Bytes
sample = record {
  parse = λ name text.
      if has_prefix text (codes "!")
      then none
      else some ((name, text) ∷ (codes "components/a", []) ∷ []);
  trees = λ t. t;
  tree = λ t. elim t [ [] ↦ [] | x ∷ xs ↦ x.1 ];
  add_parse_tree = λ name tree t. some (insert name tree t);
}

abbrev loaded_object : Bytes → Bytes → HtmlTemplate (Dict Bytes)
loaded_object name text = record {
  template = some ((name, text) ∷ []);
  name = name;
  path = name ++ codes ".html";
  layout = [];
  dependencies = [];
  dependents = [];
}

abbrev page : HtmlTemplate (Dict Bytes)
unfolding new_html_template
page = new_html_template (codes "b.html") (codes "pages/b.html")

abbrev store : Store (Dict Bytes)
store = record {
  heap =
      loaded_object (codes "components/a") (codes "A")
      ∷ loaded_object (codes "layouts/home") (codes "H")
      ∷ page
      ∷ [];
  templates = (codes "components/a", 0) ∷ (codes "layouts/home", 1) ∷ [];
}

abbrev text : Bytes
text = codes "<!--layout: home-->x"

abbrev files : Bytes → Read
files path = if equal path (codes "pages/b.html") then content text else missing

abbrev after : Store (Dict Bytes)
unfolding load
after = (load sample files 2 store).0

abbrev object_at : Store (Dict Bytes) → ℕ → HtmlTemplate (Dict Bytes)
object_at s p = elim (get_elem? s.heap p) [ none ↦ page | some t ↦ t ]

template_tests :
    (layout_name text ≡ some (codes "home"))
    × (layout_name (codes "<!--layout:a\n-->") ≡ some [])
    × (layout_name (codes "<p>") ≡ none)
    × ((load sample files 0 store).1 ≡ failed not_exist)
unfolding layout_name load
template_tests = (refl, refl, refl, refl)

-- A text that does not parse leaves no set, and rendering it panics.
broken_test : execute (object_at (load sample (λ path. content (codes "!")) 0 store).0 0) ≡ none
unfolding load execute has_prefix
broken_test = refl

load-Registered_example : Linked after 1 (codes "b.html") 2
unfolding after load layout_name page has_prefix
load-Registered_example =
    load-Registered sample files 2 page (object_at after 2) text store after (codes "layouts/home")
      1 refl refl refl refl (inr (b'h', codes "ome", refl, refl)) refl

abbrev no_app : App
no_app = record {
  middlewares = [];
  groups = [];
  viewers = [];
  routes = [];
  handler_viewers = [];
  mux = [];
  compressors = [];
  log_id = 0;
}

abbrev silent : ℕ → Viewer
silent n = record {
  mime_type = record { type = codes "text"; sub_type = codes "html" };
  render = λ req w d. (w, none);
}

-- A component and a layout that is built from it.
abbrev site : Bytes → Bytes → Read
site a path =
    if equal path (codes "components/a.html")
    then content a
    else if equal path (codes "layouts/home.html")
    then content (codes "H")
    else missing

abbrev walk_site : Bytes → List Bytes
walk_site dir =
    if equal dir (codes "components")
    then codes "components" ∷ codes "components/a.html" ∷ []
    else if equal dir (codes "layouts")
    then codes "layouts/home.html" ∷ []
    else []

-- What the engine holds, by the text of the component.
abbrev site_of : Bytes → HtmlViewEngine (Dict Bytes)
site_of a = record {
  store = record {
    heap =
        record {
          template = some ((codes "components/a", a) ∷ (codes "components/a", []) ∷ []);
          name = codes "components/a";
          path = codes "components/a.html";
          layout = [];
          dependencies = [];
          dependents = (codes "layouts/home", 1) ∷ [];
        }
        ∷ record {
          template = some ((codes "layouts/home", codes "H") ∷ (codes "components/a", a) ∷ []);
          name = codes "layouts/home";
          path = codes "layouts/home.html";
          layout = [];
          dependencies = codes "components/a" ∷ [];
          dependents = [];
        }
        ∷ [];
    templates = (codes "components/a", 0) ∷ (codes "layouts/home", 1) ∷ [];
  };
  app = no_app;
}

abbrev rewritten : List Change
rewritten =
    record {
      files = site (codes "B");
      fuel = 3;
      event = record { name = codes "components/a.html"; op = write };
    }
    ∷ []

site_loaded :
    load_engine sample (site (codes "A")) silent walk_site (empty_engine sample silent no_app)
    ≡ some (site_of (codes "A"))
unfolding load_engine has_prefix
site_loaded = refl

site_changed : follow sample silent rewritten (site_of (codes "A")) ≡ some (site_of (codes "B"))
unfolding file_changed has_prefix
site_changed = refl

follow-IsNamed_example : IsNamed (site_of (codes "B")).store
follow-IsNamed_example =
    follow-IsNamed sample silent (site (codes "A")) walk_site no_app rewritten (site_of (codes "A"))
      (site_of (codes "B")) site_loaded site_changed

-- An engine with one text template, whose file is gone when it is told of a change.
abbrev text_engine : TextViewEngine Bytes
text_engine = record {
  heap =
      record {
        template = some (codes "User-agent");
        name = codes "text/robots.txt";
        mime = record { type = codes "text"; sub_type = codes "plain" };
        charset = codes "; charset=utf-8";
      }
      ∷ [];
  templates = (codes "text/robots.txt", 0) ∷ [];
  app = no_app;
}

abbrev text_viewer : ℕ → Viewer
text_viewer p = record {
  mime_type = record { type = codes "text"; sub_type = codes "plain" };
  render = λ req w d. (w, none);
}

text_file_changed-failed_example :
    (text_file_changed
      (λ name text. some text)
      (λ name text. (record { type = codes "text"; sub_type = codes "plain" }, []))
      (λ name. missing)
      text_viewer
      (record { name = codes "text/robots.txt"; op = write })
      text_engine).0
    ≡ text_engine
unfolding text_file_changed
text_file_changed-failed_example =
    text_file_changed-failed (λ name text. some text)
      (λ name text. (record { type = codes "text"; sub_type = codes "plain" }, []))
      (λ name. missing) text_viewer (record { name = codes "text/robots.txt"; op = write })
      text_engine (λ e. cc)
