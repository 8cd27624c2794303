-- ===== src/Template/Load.antt =====
-- template_html.go: Load and Reload. The loops over Go maps have the order of the association lists.
use xun.Base.{
  ℕ, zero, suc, Bool, true, false, not, ◌||◌, ◌&&◌, Option, none, some, List, [], ◌∷◌, ◌++◌, Bytes,
  Dict, codes, lookup, has_key, equal, equal_fold, ltb, length, take, drop, get_elem?, trim_space,
  delete, any, if◌then◌else◌, ◌==◌,
}
use xun.Template.Store.{
  Library, Read, content, missing, unreadable, HtmlTemplate, Store, modify, link, put,
}

pub data LoadError : Type 0 where
  not_exist other_error : LoadError

-- How a call ends.
pub data End : Type 0 where
  done : End
  failed : LoadError → End
  panicked : End

-- The loop that looks for `-->` from the byte 11 on; `seen` is what it has passed over, and the last
-- two bytes of the file begin no mark.
unfoldable pub scan_layout : Bytes → Bytes → Bytes
unfolding trim_space
scan_layout seen (a ∷ b ∷ c ∷ s) =
    let rest = scan_layout (seen ++ a ∷ []) (b ∷ c ∷ s) in
    if a == b'-' && b == b'-' && c == b'>' then trim_space seen else if a == b'\n' then [] else rest
scan_layout seen [] = []
scan_layout seen (a ∷ []) = []
scan_layout seen (a ∷ b ∷ []) = []

-- The layout that the first line names: `none` where the file does not begin with the mark.
unfoldable pub layout_name : Bytes → Option Bytes
unfolding scan_layout equal
layout_name buf =
    if ltb 11 (length buf) && equal (take 11 buf) (codes "<!--layout:")
    then some (scan_layout [] (drop 11 buf))
    else none

-- dependencies[tn] = struct{}{}
abbrev pub add_name : Bytes → List Bytes → List Bytes
add_name n ns = if any (equal n) ns then ns else ns ++ n ∷ []

unfoldable pub add_names : List Bytes → List Bytes → List Bytes
unfolding equal
add_names [] ns = ns
add_names (n ∷ more) ns = add_names more (add_name n ns)

-- The templates of the set, but for the one with the template's own name.
unfoldable pub own_names : {Tree : Type 0} → Bytes → Dict Tree → List Bytes → List Bytes
unfolding equal_fold equal
own_names name [] ns = ns
own_names name ((n, tree) ∷ ts) ns =
    own_names name ts (if equal_fold n name then ns else add_name n ns)

-- Execute: the name of the template that renders, and the set that has it; a nil set panics.
unfoldable pub execute : {T : Type 0} → HtmlTemplate T → Option (T × Bytes)
unfolding equal
execute t = elim t.template [
  | none ↦ none
  | some nt ↦ some (nt, if not (equal t.layout []) then t.layout else t.name)
]

module _ {T Tree : Type 0} (lib : Library T Tree) where
  -- The body of the loop over the layout's templates.
  abbrev copy_tree : Bytes → Bytes → Tree → T → Option T
  copy_tree layout n tree nt =
      if not (has_key n (lib.trees nt)) || equal n layout
      then lib.add_parse_tree n tree nt
      else some nt

  -- That loop: the set, and whether no error ended it.
  unfoldable pub copy_trees : Bytes → Dict Tree → T → T × Bool
  unfolding lookup equal
  copy_trees layout [] nt = (nt, true)
  copy_trees layout ((n, tree) ∷ ts) nt = elim (copy_tree layout n tree nt) [
    | none ↦ (nt, false)
    | some nt' ↦ copy_trees layout ts nt'
  ]

  -- A Load in progress: the local variables `nt` and `dependencies`, and how it went so far.
  pub record Work : Type 0 where
    pub store : Store T
    pub nt : T
    pub names : List Bytes
    pub end : End

  abbrev stop : Work → End → Work
  stop w e = record w { end = e }

  -- The layout, where the templates have it.
  abbrev pub from_layout : Bytes → ℕ → Bytes → Work → ℕ → HtmlTemplate T → T → Work
  from_layout name p layout w q l lt =
      let (nt', copied) = copy_trees layout (lib.trees lt) w.nt in
      if copied
      then record {
        store = link w.store q name p;
        nt = nt';
        names = add_names l.dependencies w.names;
        end = done;
      }
      else record w { nt = nt'; end = failed other_error }

  abbrev pub with_template : Bytes → ℕ → Bytes → Work → ℕ → HtmlTemplate T → Option T → Work
  with_template name p layout w q l none = stop w panicked
  with_template name p layout w q l (some lt) = from_layout name p layout w q l lt

  abbrev pub with_object : Bytes → ℕ → Bytes → Work → ℕ → Option (HtmlTemplate T) → Work
  with_object name p layout w q none = stop w panicked
  with_object name p layout w q (some l) = with_template name p layout w q l l.template

  unfoldable pub use_layout : Bytes → ℕ → Bytes → Work → Work
  unfolding lookup copy_trees link add_names
  use_layout name p layout w = elim (lookup layout w.store.templates) [
    | none ↦ w
    | some q ↦ with_object name p layout w q (get_elem? w.store.heap q)
  ]

  abbrev pub set_layout : ℕ → Bytes → Work → Work
  set_layout p layout w = record w { store = put w.store p (λ t. record t { layout = layout }) }

  abbrev pub unless_ended : Work → (Work → Work) → Work
  unless_ended w f = elim w.end [ done ↦ f w | failed e ↦ w | panicked ↦ w ]

  -- The block for the layout, and the field that it sets.
  unfoldable pub do_layout : Bytes → ℕ → Option Bytes → Work → Work
  unfolding use_layout modify
  do_layout name p none w = w
  do_layout name p (some []) w = set_layout p [] w
  do_layout name p (some (c ∷ layout)) w =
      let full = codes "layouts/" ++ (c ∷ layout) in
      unless_ended (use_layout name p full w) (set_layout p full)

  -- The own tree of a template.
  abbrev own_tree : Option T → Option Tree
  own_tree none = none
  own_tree (some t) = some (lib.tree t)

  abbrev pub tree_of : Option (HtmlTemplate T) → Option Tree
  tree_of none = none
  tree_of (some t) = own_tree t.template

  -- The body of the last loop, on a template that exists.
  abbrev pub add_dependency : Bytes → ℕ → Bytes → ℕ → Work → Option Tree → Work
  add_dependency name p n q w none = stop w panicked
  add_dependency name p n q w (some tree) = elim (lib.add_parse_tree n tree w.nt) [
    | none ↦ stop w (failed other_error)
    | some nt' ↦ record w { store = link w.store q name p; nt = nt' }
  ]

  unfoldable pub add_one : Bytes → ℕ → Bytes → Work → Work
  unfolding lookup link
  add_one name p n w = elim (lookup n w.store.templates) [
    | none ↦ w
    | some q ↦ add_dependency name p n q w (tree_of (get_elem? w.store.heap q))
  ]

  -- The loop over the dependencies.
  unfoldable pub add_dependencies : Bytes → ℕ → List Bytes → Work → Work
  unfolding add_one
  add_dependencies name p [] w = w
  add_dependencies name p (n ∷ ns) w =
      unless_ended (add_one name p n w) (λ w'. add_dependencies name p ns w')

  -- The deferred function.
  abbrev pub finish : ℕ → Option T → List Bytes → Store T → Store T
  finish p nt names s = put s p (λ t. record t { template = nt; dependencies = names })

  abbrev pub finish_work : ℕ → Work → Store T × End
  finish_work p w = (finish p (some w.nt) w.names w.store, w.end)

  -- Load behind the parsing.
  unfoldable pub load_parsed : Bytes → ℕ → Bytes → T → Store T → Store T × End
  unfolding own_names do_layout layout_name add_dependencies modify
  load_parsed name p buf nt s =
      let w : Work = record {
        store = s;
        nt = nt;
        names = own_names name (lib.trees nt) [];
        end = done;
      } in
      finish_work p (
        unless_ended (do_layout name p (layout_name buf) w)
          (λ w'. add_dependencies name p w'.names w'))

  -- Load of the template `t` at `p`.
  unfoldable pub load_read : HtmlTemplate T → ℕ → Read → Store T → Store T × End
  unfolding load_parsed modify
  load_read t p missing s = (s, failed not_exist)
  load_read t p unreadable s = (s, failed other_error)
  load_read t p (content []) s = (finish p (lib.parse t.name []) [] s, done)
  load_read t p (content (c ∷ buf)) s = elim (lib.parse t.name (c ∷ buf)) [
    | none ↦ (finish p none [] s, failed other_error)
    | some nt ↦ load_parsed t.name p (c ∷ buf) nt s
  ]

  module _ (read_file : Bytes → Read) where
    abbrev pub load_object : ℕ → Store T → Option (HtmlTemplate T) → Store T × End
    load_object p s none = (s, panicked)
    load_object p s (some t) = load_read t p (read_file t.path) s

    unfoldable pub load : ℕ → Store T → Store T × End
    unfolding load_read
    load p s = load_object p s (get_elem? s.heap p)

    -- Reload, on fuel; `none` is a recursion that is deeper than the fuel.
    abbrev pub dependents_of : Store T → ℕ → Dict ℕ
    dependents_of s p = elim (get_elem? s.heap p) [ none ↦ [] | some t ↦ t.dependents ]

    abbrev pub drop_dependent : ℕ → Bytes → Store T → Store T
    drop_dependent p n s = put s p (λ t. record t { dependents = delete n t.dependents })

    -- What the loop of Reload does with the result for one dependent.
    abbrev pub go_on :
        ℕ → Bytes → Store T × End → (Store T → Option (Store T × End)) → Option (Store T × End)
    go_on p n (s, done) next = next s
    go_on p n (s, failed not_exist) next = next (drop_dependent p n s)
    go_on p n (s, failed other_error) next = some (s, failed other_error)
    go_on p n (s, panicked) next = some (s, panicked)

    unfoldable pub reload_all :
        (ℕ → Store T → Option (Store T × End)) → ℕ → Dict ℕ → Store T → Option (Store T × End)
    unfolding modify delete
    reload_all reload_one p [] s = some (s, done)
    reload_all reload_one p ((n, q) ∷ ds) s = elim (reload_one q s) [
      | none ↦ none
      | some r ↦ go_on p n r (λ s'. reload_all reload_one p ds s')
    ]

    abbrev pub then_all :
        (ℕ → Store T → Option (Store T × End)) → ℕ → Store T × End → Option (Store T × End)
    then_all reload_one p (s, done) = reload_all reload_one p (dependents_of s p) s
    then_all reload_one p (s, failed e) = some (s, failed e)
    then_all reload_one p (s, panicked) = some (s, panicked)

    unfoldable pub reload : ℕ → ℕ → Store T → Option (Store T × End)
    unfolding load reload_all
    reload zero p s = none
    reload (suc n) p s = then_all (reload n) p (load p s)
