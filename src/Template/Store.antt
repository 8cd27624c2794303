-- ===== src/Template/Store.antt =====
-- template_html.go: the templates as objects. A pointer to a template is its place in a list, so that
-- templates share the templates that they point to, as in the program.
use xun.Base.{ℕ, zero, suc, Option, none, List, [], ◌∷◌, Bytes, Dict, insert}

-- What the code calls of html/template: a set of associated templates with their trees. `parse` is
-- New with a name and Parse of a text, `trees` is Templates, and `tree` is the set's own tree.
pub record Library (T Tree : Type 0) : Type 0 where
  pub parse : Bytes → Bytes → Option T
  pub trees : T → Dict Tree
  pub tree : T → Tree
  pub add_parse_tree : Bytes → Tree → T → Option T

-- fs.ReadFile: the text, fs.ErrNotExist, or another error.
pub data Read : Type 0 where
  content : Bytes → Read
  missing unreadable : Read

-- HtmlTemplate; a template that is nil is `none`.
pub record HtmlTemplate (T : Type 0) : Type 0 where
  pub template : Option T
  pub name : Bytes
  pub path : Bytes
  pub layout : Bytes
  pub dependencies : List Bytes
  pub dependents : Dict ℕ

-- NewHtmlTemplate
unfoldable pub new_html_template : {T : Type 0} → Bytes → Bytes → HtmlTemplate T
new_html_template name path = record {
  template = none;
  name = name;
  path = path;
  layout = [];
  dependencies = [];
  dependents = [];
}

-- The objects, and the engine's map of templates.
pub record Store (T : Type 0) : Type 0 where
  pub heap : List (HtmlTemplate T)
  pub templates : Dict ℕ

module _ {A : Type 0} where
  unfoldable pub modify : List A → ℕ → (A → A) → List A
  modify [] i f = []
  modify (x ∷ xs) zero f = f x ∷ xs
  modify (x ∷ xs) (suc i) f = x ∷ modify xs i f

module _ {T : Type 0} where
  abbrev pub add_dependent : Bytes → ℕ → HtmlTemplate T → HtmlTemplate T
  add_dependent name p t = record t { dependents = insert name p t.dependents }

  -- it.dependents[name] = t
  unfoldable pub link : Store T → ℕ → Bytes → ℕ → Store T
  unfolding modify insert
  link s q name p = record s { heap = modify s.heap q (add_dependent name p) }

  abbrev pub put : Store T → ℕ → (HtmlTemplate T → HtmlTemplate T) → Store T
  put s p f = record s { heap = modify s.heap p f }
