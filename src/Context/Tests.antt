-- ===== src/Context/Tests.antt =====
-- context.go and ext/htmx: runs, and the theorems at concrete inputs.
use xun.Base.{◌≡◌, refl, false, none, some, [], ◌∷◌, Bytes, codes, Dict}
use xun.Http.{header_get, Request, new_response}
use xun.Mime.{MimeType, matches}
use xun.Context.View.{view, name_of}
use xun.Context.Redirect.{redirect, request_referer, htmx}
use xun.Context.Negotiation.{IsChosen, named_viewer, view-IsChosen}
use xun.Context.Htmx.{SendsTo, redirect-htmx}

abbrev of_type : Bytes → Bytes → MimeType
of_type t s = record { type = t; sub_type = s }

abbrev html : MimeType
html = of_type (codes "text") (codes "html")

abbrev json : MimeType
json = of_type (codes "application") (codes "json")

abbrev any_type : MimeType
any_type = of_type (codes "*") (codes "*")

-- The viewers here are their media types.
abbrev itself : MimeType → MimeType
itself m = m

abbrev pages : Dict MimeType
pages = (codes "user", html) ∷ []

view_tests :
    (view itself pages (json ∷ any_type ∷ []) (html ∷ json ∷ []) [] ≡ some json)
    × (view itself pages (any_type ∷ []) (json ∷ []) (codes "user" ∷ []) ≡ some html)
    × (view itself pages (json ∷ []) [] (codes "user" ∷ []) ≡ some html)
    × (view itself pages [] (json ∷ html ∷ []) (codes "other" ∷ []) ≡ some json)
    × (view itself pages (json ∷ []) [] [] ≡ none)
unfolding view matches
view_tests = (refl, refl, refl, refl, refl)

view-IsChosen_example :
    IsChosen itself
      (named_viewer pages (name_of (codes "user" ∷ [])))
      (json ∷ [])
      (html ∷ [])
      (view itself pages (json ∷ []) (html ∷ []) (codes "user" ∷ []))
view-IsChosen_example = view-IsChosen itself pages (json ∷ []) (html ∷ []) (codes "user" ∷ [])

abbrev hx_request : Request
hx_request = record {
  method = codes "POST";
  path = codes "/login";
  request_uri = codes "/login";
  host = codes "a.com";
  remote_addr = codes "1.2.3.4:5";
  tls = false;
  header = (codes "hx-request", codes "true") ∷ (codes "hx-current-url", codes "/form") ∷ [];
  cookies = [];
}

request_referer_test : request_referer (some htmx) hx_request ≡ codes "/form"
unfolding request_referer htmx
request_referer_test = refl

redirect-htmx_example :
    SendsTo
      (redirect (some htmx) hx_request new_response (codes "/home") [])
      (codes "HX-Redirect")
      (codes "/home")
      200
unfolding new_response header_get
redirect-htmx_example =
    (redirect-htmx hx_request new_response (codes "/home") refl (λ e. cc)).0 refl []
