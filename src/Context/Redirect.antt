-- ===== src/Context/Redirect.antt =====
-- context.go: `Redirect` and `RequestReferer`, and ext/htmx/interceptor.go.
use xun.Base.{
  ℕ, Bool, true, false, Option, none, some, List, [], ◌∷◌, Bytes, codes, if◌then◌else◌, equal,
}
use xun.Http.{Request, Response, header_get, write_header, write_status}

-- interceptor.go: the Interceptor interface.
pub record Interceptor : Type 0 where
  pub request_referer : Request → Bytes
  pub redirect : Request → Response → Bytes → Response × Bool

abbrev write_location : Response → Bytes → ℕ → Response
write_location rw url code = write_status (write_header rw (codes "Location") url) code

-- The status code given, or 302.
unfoldable pub status_or_found : List ℕ → ℕ
status_or_found [] = 302
status_or_found (code ∷ _) = code

unfoldable pub redirect : Option Interceptor → Request → Response → Bytes → List ℕ → Response
redirect none req rw url codes_given = write_location rw url (status_or_found codes_given)
redirect (some i) req rw url codes_given =
    let (rw', done) = i.redirect req rw url in
    if done then rw' else write_location rw' url (status_or_found codes_given)

abbrev or_header : Bytes → Request → Bytes
or_header v req = if equal v [] then header_get req.header (codes "Referer") else v

unfoldable pub request_referer : Option Interceptor → Request → Bytes
unfolding header_get equal
request_referer none req = or_header [] req
request_referer (some i) req = or_header (i.request_referer req) req

-- ext/htmx/interceptor.go and the same test in ext/htmx/helpers.go
unfoldable pub is_hx_request : Request → Bool
unfolding header_get equal
is_hx_request req = equal (header_get req.header (codes "HX-Request")) (codes "true")

unfoldable pub hx_redirect : Request → Response → Bytes → Response × Bool
hx_redirect req rw url =
    if is_hx_request req
    then (write_status (write_header rw (codes "HX-Redirect") url) 200, true)
    else (rw, false)

unfoldable pub hx_referer : Request → Bytes
unfolding is_hx_request
hx_referer req = if is_hx_request req then header_get req.header (codes "HX-Current-Url") else []

-- htmx.New
unfoldable pub htmx : Interceptor
unfolding hx_redirect hx_referer
htmx = record { request_referer = hx_referer; redirect = hx_redirect }
