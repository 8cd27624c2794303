-- ===== src/Static/Defs.antt =====
-- viewengine_static.go: the engine that registers the files below `public`, and their asset URLs.
-- Which files fs.WalkDir finds, the entity tag of a file, and its viewers, one without and one with a
-- tag and a lasting cache, are given.
use xun.Base.{
  ◌-◌, Bool, true, false, not, ◌&&◌, Option, none, some, List, [], ◌∷◌, ◌++◌, Bytes, Dict, codes,
  insert, any, has_prefix, has_suffix, trim_prefix, trim, trim_right, length, take, ◌==◌,
  if◌then◌else◌,
}
use xun.App.{App, Viewer, handle_file}
use xun.Watcher.{Event, Op, create, write, remove}
use xun.Template.{ext}

-- What of an application the engine reads and changes.
pub record Assets : Type 0 where
  pub app : App
  pub build_asset_urls : List (Bytes → Bool)
  pub asset_urls : Dict Bytes

-- strings.TrimRight(s, cutset) and strings.Trim(s, "\"")
unfoldable pub trim_cutset : Bytes → Bytes → Bytes
unfolding trim_right
trim_cutset s cutset = trim_right (λ c. any (λ d. c == d) cutset) s

unfoldable pub without_quotes : Bytes → Bytes
unfolding trim
without_quotes s = trim (λ c. c == b'"') s

-- The pattern that a path below `public` is registered with.
unfoldable pub pattern_of : Bytes → Bytes
unfolding has_suffix trim_prefix
pattern_of path =
    trim_prefix
      (if has_suffix path (codes "/index.html") then take (length path - 10) path else path)
      (codes "public/")

-- The URL of a file by its content.
unfoldable pub asset_url : Bytes → Bytes → Bytes
unfolding ext trim_cutset without_quotes
asset_url pattern etag =
    trim_cutset pattern (ext pattern) ++ (codes "-" ++ (without_quotes etag ++ ext pattern))

module _ (viewer_of : Bytes → Viewer) (cached_viewer_of : Bytes → Bytes → Viewer)
    (etag_of : Bytes → Bytes) where
  abbrev with_app : Assets → Option App → Option Assets
  with_app s none = none
  with_app s (some a) = some (record s { app = a })

  abbrev add_url : Bytes → Bytes → Option Assets → Option Assets
  add_url pattern url none = none
  add_url pattern url (some s) =
      some (record s { asset_urls = insert (b'/' ∷ pattern) (b'/' ∷ url) s.asset_urls })

  -- handleAssetUrl
  unfoldable pub handle_asset_url : Bytes → Bytes → Assets → Option Assets
  unfolding asset_url handle_file insert
  handle_asset_url file_name pattern s =
      let etag = etag_of file_name in
      let url = asset_url pattern etag in
      add_url pattern url (with_app s (handle_file s.app url (cached_viewer_of file_name etag)))

  abbrev build_url : Bytes → Bytes → Option Assets → Option Assets
  build_url path pattern none = none
  build_url path pattern (some s) =
      if any (λ m. m (b'/' ∷ pattern)) s.build_asset_urls
      then handle_asset_url path pattern s
      else some s

  -- handle; `none` is a panic of HandleFile
  unfoldable pub handle : Bytes → Assets → Option Assets
  unfolding pattern_of handle_file handle_asset_url
  handle path s =
      let pattern = pattern_of path in
      build_url path pattern (with_app s (handle_file s.app pattern (viewer_of path)))

  -- Load, of the files that the walk finds.
  unfoldable pub load : List Bytes → Assets → Option Assets
  unfolding handle
  load [] s = some s
  load (path ∷ paths) s = elim (handle path s) [ none ↦ none | some s' ↦ load paths s' ]

  -- FileChanged
  abbrev is_removal : Op → Bool
  is_removal create = false
  is_removal write = false
  is_removal remove = true

  unfoldable pub file_changed : Event → Assets → Option Assets
  unfolding handle has_prefix
  file_changed event s =
      if has_prefix event.name (codes "public/") && not (is_removal event.op)
      then handle event.name s
      else some s
