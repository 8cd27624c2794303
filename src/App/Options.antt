-- ===== src/App/Options.antt =====
-- routing_option.go: metadata and viewers of a route.
use xun.Base.{
  ℕ, ◌≡◌, refl, ◌∙◌, Option, some, List, [], ◌∷◌, Bytes, codes, lookup, insert, lookup-insert,
  equal, if◌then◌else◌,
}
use xun.App.Defs.{Viewer, RoutingOptions, Value, string, int}
use xun.App.Routes.{RoutingOption, apply_options}

-- Get: nil is `none`.
unfoldable pub get : RoutingOptions → Bytes → Option Value
unfolding lookup
get ro name = lookup name ro.metadata

abbrev as_string : Option Value → Bytes
as_string (some (string s)) = s
as_string _ = []

-- GetString
unfoldable pub get_string : RoutingOptions → Bytes → Bytes
unfolding lookup
get_string ro name = as_string (lookup name ro.metadata)

abbrev as_int : Option Value → ℕ
as_int (some (int n)) = n
as_int _ = 0

-- GetInt
unfoldable pub get_int : RoutingOptions → Bytes → ℕ
unfolding lookup
get_int ro name = as_int (lookup name ro.metadata)

abbrev put : RoutingOptions → Bytes → Value → RoutingOptions
put ro key value = record ro { metadata = insert key value ro.metadata }

-- WithMetadata
unfoldable pub with_metadata : Bytes → Value → RoutingOption
unfolding insert
with_metadata key value ro = put ro key value

-- WithNavigation
unfoldable pub with_navigation : Bytes → Bytes → Bytes → RoutingOption
unfolding insert
with_navigation name icon access ro =
    put (put (put ro (codes "name") (string name)) (codes "icon") (string icon)) (codes "access")
      (string access)

-- WithViewer
unfoldable pub with_viewer : List Viewer → RoutingOption
with_viewer vs ro = record ro { viewers = vs }

-- The options of a route that only adds metadata, and the last value of a name among them.
abbrev pub metadata_options : List (Bytes × Value) → List RoutingOption
metadata_options [] = []
metadata_options ((k, v) ∷ kvs) = with_metadata k v ∷ metadata_options kvs

abbrev pub last_value : Bytes → List (Bytes × Value) → Option Value → Option Value
last_value name [] before = before
last_value name ((k, v) ∷ kvs) before =
    last_value name kvs (if equal k name then some v else before)

-- Among any number of WithMetadata options, Get returns the value that was given last for the name,
-- or what was there before when none was given; and the viewers stay as they were.
pub get-metadata_options :
    (kvs : List (Bytes × Value)) (ro : RoutingOptions) (name : Bytes)
    → (get (apply_options (metadata_options kvs) ro) name ≡ last_value name kvs (get ro name))
      × ((apply_options (metadata_options kvs) ro).viewers ≡ ro.viewers)
unfolding apply_options get with_metadata
get-metadata_options [] ro name = (refl, refl)
get-metadata_options ((k, v) ∷ kvs) ro name =
    let (value, viewers) = get-metadata_options kvs (with_metadata k v ro) name in
    (value ∙ rw (lookup-insert k name v ro.metadata) refl, viewers)
