-- ===== src/App/Chain.antt =====
-- app.go, group.go and routing.go: how middlewares wrap a handler.
use xun.Base.{ℕ, zero, suc, Option, none, some, List, [], ◌∷◌, ◌++◌, length, get_elem?}
use xun.App.Defs.{HandleFunc, Middleware, Owner, app, group, App, Group, Routing}

-- The loop of `Next`, `for i := len(ms); i > 0; i--`: an index out of range would panic, which
-- `next` leaves as it is.
abbrev pub wrap_at : Option Middleware → HandleFunc → HandleFunc
wrap_at none next = next
wrap_at (some m) next = m next

unfoldable pub next_from : List Middleware → ℕ → HandleFunc → HandleFunc
next_from ms zero next = next
next_from ms (suc i) next = next_from ms i (wrap_at (get_elem? ms i) next)

-- Next, of the application and of a group
unfoldable pub next : List Middleware → HandleFunc → HandleFunc
unfolding next_from
next ms hf = next_from ms (length ms) hf

-- The middlewares of a chain at the time of the call.
unfoldable pub middlewares_of : App → Owner → List Middleware
middlewares_of a app = a.middlewares
middlewares_of a (group g) = elim (get_elem? a.groups g) [ none ↦ [] | some r ↦ r.middlewares ]

-- Next of Routing
unfoldable pub routing_next : App → Routing → HandleFunc
unfolding next middlewares_of
routing_next a r = next (middlewares_of a r.chain) r.handle

-- Use of App
unfoldable pub use_app : App → List Middleware → App
use_app a ms = record a { middlewares = a.middlewares ++ ms }

-- Use of a group
abbrev add_to : List Middleware → Group → Group
add_to ms g = record g { middlewares = g.middlewares ++ ms }

unfoldable pub update_group : List Group → ℕ → (Group → Group) → List Group
update_group [] i f = []
update_group (g ∷ gs) zero f = f g ∷ gs
update_group (g ∷ gs) (suc i) f = g ∷ update_group gs i f

unfoldable pub use_group : App → ℕ → List Middleware → App
unfolding update_group
use_group a i ms = record a { groups = update_group a.groups i (add_to ms) }
