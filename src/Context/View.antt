-- ===== src/Context/View.antt =====
-- context.go: `View` up to the call of the viewer's Render, and `getViewer`.
use xun.Base.{
  Bool, true, false, Option, none, some, List, [], ◌∷◌, Bytes, Dict, ◌||◌, if◌then◌else◌, lookup,
}
use xun.Mime.{MimeType, matches}

-- `options[0]`, or the empty text.
unfoldable pub name_of : List Bytes → Bytes
name_of [] = []
name_of (name ∷ _) = name

-- What is left when neither the name nor the negotiation gave a match.
unfoldable pub fallback : {V : Type 0} → Option V → List V → Option V
fallback (some v) vs = some v
fallback none [] = none
fallback none (v ∷ vs) = some v

module _ {V : Type 0} (mime_of : V → MimeType) where
  -- The loop of `getViewer` over the accepted types.
  unfoldable pub any_accepted : V → List MimeType → Bool
  any_accepted v [] = false
  any_accepted v (a ∷ accepts) = matches (mime_of v) a || any_accepted v accepts

  -- `getViewer`: nil is `none`.
  unfoldable pub get_viewer : Dict V → List MimeType → Bytes → Option V × Bool
  unfolding any_accepted lookup
  get_viewer viewers accepts [] = (none, false)
  get_viewer viewers accepts (c ∷ name) = elim (lookup (c ∷ name) viewers) [
    | none ↦ (none, false)
    | some v ↦ (some v, any_accepted v accepts)
  ]

  -- The inner loop of `View` over the route's viewers.
  unfoldable pub first_viewer : MimeType → List V → Option V
  first_viewer a [] = none
  first_viewer a (v ∷ vs) =
      let rest = first_viewer a vs in if matches (mime_of v) a then some v else rest

  -- The outer loop of `View` over the accepted types.
  unfoldable pub negotiate : List MimeType → List V → Option V
  unfolding first_viewer
  negotiate [] vs = none
  negotiate (a ∷ accepts) vs =
      let rest = negotiate accepts vs in elim (first_viewer a vs) [ some v ↦ some v | none ↦ rest ]

  unfoldable pub view_from : Option V × Bool → List MimeType → List V → Option V
  unfolding negotiate fallback
  view_from (named, true) accepts vs = named
  view_from (named, false) accepts vs = elim (negotiate accepts vs) [
    | some v ↦ some v
    | none ↦ fallback named vs
  ]

  -- The viewer that `View` renders with; `none` is ErrViewNotFound. The arguments are the viewers of
  -- the application, the accepted types, the viewers of the route and the names asked for.
  unfoldable pub view : Dict V → List MimeType → List V → List Bytes → Option V
  unfolding get_viewer view_from name_of
  view viewers accepts vs options =
      view_from (get_viewer viewers accepts (name_of options)) accepts vs
