-- ===== src/App/Table.antt =====
-- app.go and group.go: over any registrations, the route table and the mux agree.
use mathlib.Core.Path.{subst}
use xun.Pattern.{split_file}
use xun.Base.{
  ℕ, ◌+◌, ◌≡◌, refl, inl, inr, Option, none, some, List, [], ◌∷◌, ◌++◌, Bytes, lookup, insert,
  lookup-insert, equal, equal_iff, if◌then◌else◌, arith, some_inj, Option-cases,
}
use xun.App.Defs.{Viewer, HandleFunc, Owner, Routing, Kind, file, page, handler, App, Middleware}
use xun.App.Chain.{use_app, use_group}
use xun.App.Routes.{
  handle_file, handle_file_at, handle_page, create_handler, new_group, RoutingOption,
}

-- A call that sets the application up.
pub data Setup : Type 0 where
  uses : List Middleware → Setup
  group_uses : ℕ → List Middleware → Setup
  groups : Bytes → Setup
  handles_file : Bytes → Viewer → Setup
  handles_page : Bytes → Bytes → Viewer → Setup
  handles : Bytes → HandleFunc → List RoutingOption → Owner → Setup

-- `none` is a panic.
unfoldable pub setup : App → Setup → Option App
setup a (uses ms) = some (use_app a ms)
setup a (group_uses g ms) = some (use_group a g ms)
setup a (groups prefix) = some (new_group a prefix)
setup a (handles_file name v) = handle_file a name v
setup a (handles_page pattern name v) = some (handle_page a pattern name v)
setup a (handles pattern hf opts c) = some (create_handler a pattern hf opts c)

unfoldable pub set_up : App → List Setup → Option App
unfolding setup
set_up a [] = some a
set_up a (s ∷ ss) = elim (setup a s) [ none ↦ none | some a' ↦ set_up a' ss ]

-- How often the mux has been given a pattern. net/http panics at the second time.
abbrev pub registrations : Bytes → List (Bytes × Kind) → ℕ
registrations p [] = 0
registrations p ((q, k) ∷ m) = (if equal q p then 1 else 0) + registrations p m

abbrev present {ℓ} : {A : Type ℓ} → Option A → ℕ
present none = 0
present (some _) = 1

-- A pattern is registered with the mux once if it has a route, and else not at all; and a route
-- stands under its own pattern.
pub record IsWellFormed (a : App) : Type 0 where
  pub agree : (p : Bytes) → registrations p a.mux ≡ present (lookup p a.routes)
  pub named : (p : Bytes) (r : Routing) → lookup p a.routes ≡ some r → r.pattern ≡ p

registrations-append :
    (p q : Bytes) (k : Kind) (m : List (Bytes × Kind))
    → registrations p (m ++ (q, k) ∷ []) ≡ registrations p m + (if equal q p then 1 else 0)
registrations-append p q k [] = omega arith
registrations-append p q k ((j, l) ∷ m) = omega (arith, registrations-append p q k m)

-- A new route under a new pattern.
add-IsWellFormed :
    (a a' : App) (r : Routing) (k : Kind)
    → IsWellFormed a
    → lookup r.pattern a.routes ≡ none
    → a'.mux ≡ a.mux ++ (r.pattern, k) ∷ []
    → a'.routes ≡ insert r.pattern r a.routes
    → IsWellFormed a'
add-IsWellFormed a a' r k v new mux routes = record {
  agree = λ p.
      rw
        (
          mux,
          routes,
          lookup-insert r.pattern p r a.routes,
          registrations-append p r.pattern k a.mux,
        )
        (ground (arith, v.agree p, equal_iff r.pattern p));
  named = λ p s e.
      ground (arith, v.named p s, equal_iff r.pattern p, lookup-insert r.pattern p r a.routes);
}

-- A known route that is changed under its pattern.
change-IsWellFormed :
    (a a' : App) (p : Bytes) (old r : Routing)
    → IsWellFormed a
    → lookup p a.routes ≡ some old
    → r.pattern ≡ p
    → a'.mux ≡ a.mux
    → a'.routes ≡ insert p r a.routes
    → IsWellFormed a'
change-IsWellFormed a a' p old r v known same mux routes = record {
  agree = λ q.
      rw (mux, routes, lookup-insert p q r a.routes) (ground (arith, v.agree q, equal_iff p q));
  named = λ q s e. ground (arith, v.named q s, equal_iff p q, lookup-insert p q r a.routes);
}

handle_file_at-IsWellFormed :
    (a : App) (name pattern : Bytes) (v : Viewer)
    → IsWellFormed a
    → IsWellFormed (handle_file_at a name pattern v)
unfolding handle_file_at
handle_file_at-IsWellFormed a name pattern v w = elim (Option-cases (lookup pattern a.routes)) [
  | inl e ↦ rw (e, handle_file_at) (add-IsWellFormed a _ _ file w e refl refl)
  | inr (r, e) ↦ rw (e, handle_file_at) w
]

handle_file-IsWellFormed :
    (a a' : App) (name : Bytes) (v : Viewer)
    → IsWellFormed a
    → handle_file a name v ≡ some a'
    → IsWellFormed a'
unfolding handle_file
handle_file-IsWellFormed a a' name v w h = elim (Option-cases (split_file name)) [
  | inl e ↦ cc (rw (e, handle_file) at h)
  | inr (f, e) ↦
      subst IsWellFormed (some_inj (rw (e, handle_file) at h))
        (handle_file_at-IsWellFormed a name f.pattern v w)
]

handle_page-IsWellFormed :
    (a : App) (pattern name : Bytes) (v : Viewer)
    → IsWellFormed a
    → IsWellFormed (handle_page a pattern name v)
unfolding handle_page
handle_page-IsWellFormed a pattern name v w = elim (Option-cases (lookup pattern a.routes)) [
  | inl e ↦ rw (e, handle_page) (add-IsWellFormed a _ _ page w e refl refl)
  | inr (r, e) ↦
      rw (e, handle_page) (change-IsWellFormed a _ pattern r _ w e (w.named pattern r e) refl refl)
]

create_handler-IsWellFormed :
    (a : App) (pattern : Bytes) (hf : HandleFunc) (opts : List RoutingOption) (c : Owner)
    → IsWellFormed a
    → IsWellFormed (create_handler a pattern hf opts c)
unfolding create_handler
create_handler-IsWellFormed a pattern hf opts c w = elim (Option-cases (lookup pattern a.routes)) [
  | inl e ↦ rw (e, create_handler) (add-IsWellFormed a _ _ handler w e refl refl)
  | inr (r, e) ↦
      rw (e, create_handler)
        (change-IsWellFormed a _ pattern r _ w e (w.named pattern r e) refl refl)
]

setup-IsWellFormed :
    (a a' : App) (s : Setup) → IsWellFormed a → setup a s ≡ some a' → IsWellFormed a'
unfolding setup use_app use_group new_group
setup-IsWellFormed a a' (uses ms) w h =
    subst IsWellFormed (some_inj h) (record { agree = w.agree; named = w.named })
setup-IsWellFormed a a' (group_uses g ms) w h =
    subst IsWellFormed (some_inj h) (record { agree = w.agree; named = w.named })
setup-IsWellFormed a a' (groups prefix) w h =
    subst IsWellFormed (some_inj h) (record { agree = w.agree; named = w.named })
setup-IsWellFormed a a' (handles_file name v) w h = handle_file-IsWellFormed a a' name v w h
setup-IsWellFormed a a' (handles_page pattern name v) w h =
    subst IsWellFormed (some_inj h) (handle_page-IsWellFormed a pattern name v w)
setup-IsWellFormed a a' (handles pattern hf opts c) w h =
    subst IsWellFormed (some_inj h) (create_handler-IsWellFormed a pattern hf opts c w)

-- Whatever files, pages, handlers, groups and middlewares are added in whatever order, unless a
-- file's name panics: each pattern with a route has been given to the mux exactly once, any other
-- pattern never, and each route stands under its own pattern. So no call panics in the mux by
-- giving it a pattern for the second time.
pub set_up-IsWellFormed :
    (ss : List Setup) (a a' : App) → IsWellFormed a → set_up a ss ≡ some a' → IsWellFormed a'
unfolding set_up
set_up-IsWellFormed [] a a' w h = subst IsWellFormed (some_inj h) w
set_up-IsWellFormed (s ∷ ss) a a' w h = elim (Option-cases (setup a s)) [
  | inl e ↦ cc (rw (e, set_up) at h)
  | inr (b, e) ↦ set_up-IsWellFormed ss b a' (setup-IsWellFormed a b s w e) (rw (e, set_up) at h)
]
