-- ===== src/App/Routes.antt =====
-- app.go and group.go: how routes are registered.
use xun.Base.{ℕ, Option, none, some, List, [], ◌∷◌, ◌++◌, Bytes, lookup, insert, get_elem?}
use xun.Pattern.{split_file}
use xun.App.Defs.{
  Viewer, HandleFunc, Owner, app, group, RoutingOptions, Routing, Kind, file, page, handler, App,
  Group,
}

-- The handler of a page or a file: the viewer, with no data.
abbrev pub render_nothing : Viewer → HandleFunc
render_nothing v c = let (w, e) = v.render c.request c.response [] in (record c { response = w }, e)

-- app.mux.HandleFunc
abbrev register : App → Bytes → Kind → App
register a pattern kind = record a { mux = a.mux ++ (pattern, kind) ∷ [] }

abbrev put_route : App → Routing → App
put_route a r = record a { routes = insert r.pattern r a.routes }

abbrev view_route : Bytes → Viewer → Routing
view_route pattern v = record {
  pattern = pattern;
  handle = render_nothing v;
  chain = app;
  options = record { metadata = []; viewers = v ∷ [] };
  viewers = v ∷ [];
}

-- HandleFile, once the pattern is known.
unfoldable pub handle_file_at : App → Bytes → Bytes → Viewer → App
unfolding lookup insert
handle_file_at a name pattern v = elim (lookup pattern a.routes) [
  | some r ↦ a
  | none ↦
      register (put_route (record a { viewers = insert name v a.viewers }) (view_route pattern v))
        pattern file
]

-- HandleFile; `none` is the panic of `splitFile`.
unfoldable pub handle_file : App → Bytes → Viewer → Option App
unfolding handle_file_at split_file
handle_file a name v = elim (split_file name) [
  | none ↦ none
  | some f ↦ some (handle_file_at a name f.pattern v)
]

abbrev append_viewers : Routing → List Viewer → Routing
append_viewers r vs = record r { viewers = r.viewers ++ vs }

-- HandlePage
unfoldable pub handle_page : App → Bytes → Bytes → Viewer → App
unfolding lookup insert
handle_page a pattern view_name v = elim (lookup pattern a.routes) [
  | some r ↦ record a { routes = insert pattern (append_viewers r (v ∷ [])) a.routes }
  | none ↦
      register
        (put_route (record a { viewers = insert view_name v a.viewers }) (view_route pattern v))
        pattern page
]

-- RoutingOption
abbrev pub RoutingOption : Type 0
RoutingOption = RoutingOptions → RoutingOptions

unfoldable pub apply_options : List RoutingOption → RoutingOptions → RoutingOptions
apply_options [] ro = ro
apply_options (o ∷ os) ro = apply_options os (o ro)

-- createHandler
unfoldable pub create_handler : App → Bytes → HandleFunc → List RoutingOption → Owner → App
unfolding lookup insert apply_options
create_handler a pattern hf opts c =
    let ro = apply_options opts (record { metadata = []; viewers = a.handler_viewers }) in
    elim (lookup pattern a.routes) [
      | some r ↦ record a {
        routes =
            insert pattern
              (record r { handle = hf; chain = c; options = ro; viewers = r.viewers ++ ro.viewers })
              a.routes;
      }
      | none ↦
          register
            (put_route a (record {
              pattern = pattern;
              handle = hf;
              chain = c;
              options = ro;
              viewers = ro.viewers;
            }))
            pattern handler
    ]

-- HandleFunc of App, and its Get, Post, Put and Delete by their method
unfoldable pub handle_func : App → Bytes → HandleFunc → List RoutingOption → App
unfolding create_handler
handle_func a pattern hf opts = create_handler a pattern hf opts app

abbrev method_pattern : Bytes → Bytes → Bytes
method_pattern method pattern = method ++ b' ' ∷ pattern

unfoldable pub handle_method : App → Bytes → Bytes → HandleFunc → List RoutingOption → App
unfolding handle_func
handle_method a method pattern hf opts = handle_func a (method_pattern method pattern) hf opts

-- Group of App: the new group's number
unfoldable pub new_group : App → Bytes → App
new_group a prefix = record a {
  groups = a.groups ++ record { prefix = prefix; middlewares = [] } ∷ [];
}

-- HandleFunc of a group, and its Get, Post, Put and Delete by their method
unfoldable pub group_handle_func : App → ℕ → Bytes → HandleFunc → List RoutingOption → App
unfolding create_handler
group_handle_func a g pattern hf opts = create_handler a pattern hf opts (group g)

abbrev prefix_of : Option Group → Bytes
prefix_of none = []
prefix_of (some g) = g.prefix

unfoldable pub group_handle_method : App → ℕ → Bytes → Bytes → HandleFunc → List RoutingOption → App
unfolding group_handle_func
group_handle_method a g method pattern hf opts =
    group_handle_func a g (method_pattern method (prefix_of (get_elem? a.groups g) ++ pattern)) hf
      opts
