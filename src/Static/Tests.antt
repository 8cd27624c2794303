-- ===== src/Static/Tests.antt =====
-- viewengine_static.go: runs.
use xun.Base.{◌≡◌, refl, codes}
use xun.Static.Defs.{pattern_of, asset_url}

static_tests :
    (pattern_of (codes "public/docs/index.html") ≡ codes "docs/")
    × (pattern_of (codes "public/a.css") ≡ codes "a.css")
    × (asset_url (codes "js/app.js") (codes "\"1f\"") ≡ codes "js/app-1f.js")
unfolding pattern_of asset_url
static_tests = (refl, refl, refl)

-- The extension is taken as a set of bytes, so a name that consists of them is lost.
cutset_test : asset_url (codes "a/css.css") (codes "\"1f\"") ≡ codes "a/-1f.css"
unfolding asset_url
cutset_test = refl
