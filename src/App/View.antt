-- ===== src/App/View.antt =====
-- context.go: `View` with its rendering, on the Context that a handler has.
use xun.Base.{Option, none, some, List, Bytes}
use xun.Mime.{accept}
use xun.Context.{view}
use xun.App.Defs.{Error, view_not_found, Viewer, Context}

-- The viewer's Render, with the data as it is given to the viewer.
unfoldable pub render_with : Option Viewer → Context → Bytes → Context × Option Error
render_with none c content = (c, some view_not_found)
render_with (some v) c content =
    let (w, e) = v.render c.request c.response content in (record c { response = w }, e)

-- View of a Context
unfoldable pub context_view : Context → Bytes → List Bytes → Context × Option Error
unfolding render_with view accept
context_view c content options =
    render_with
      (view (λ (v : Viewer). v.mime_type) c.app_viewers (accept c.request) c.viewers options) c
      content
