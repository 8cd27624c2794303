-- ===== src/App/Serve.antt =====
-- app.go: what a registered route answers; compressor_gzip.go and compressor_deflate.go.
use xun.Base.{
  ℕ, suc, Bool, true, Option, none, some, List, [], ◌∷◌, ◌||◌, Bytes, codes, lookup, equal,
  if◌then◌else◌, has_prefix,
}
use xun.Http.{Request, Response, header_get, header_set, write_status, write_header, write_body}
use xun.App.Defs.{
  Error, cancelled, view_not_found, other, Routing, Kind, file, page, handler, App, Context,
}
use xun.App.Chain.{routing_next}

-- strings.Contains
unfoldable pub contains : Bytes → Bytes → Bool
unfolding has_prefix
contains [] sub = has_prefix [] sub
contains (c ∷ s) sub = has_prefix (c ∷ s) sub || contains s sub

-- The loop of `createWriter`: the first compressor whose encoding the client accepts.
unfoldable pub pick_compressor : Bool → Bytes → List Bytes → Option Bytes
unfolding contains
pick_compressor stars accept_encoding [] = none
pick_compressor stars accept_encoding (c ∷ cs) =
    if stars || contains accept_encoding c then some c else pick_compressor stars accept_encoding cs

-- createWriter: a compressor's New sets Content-Encoding.
unfoldable pub create_writer : App → Request → Response → Response
unfolding pick_compressor header_get header_set
create_writer a req w =
    let accept_encoding = header_get req.header (codes "Accept-Encoding") in
    elim (pick_compressor (contains accept_encoding (codes "*")) accept_encoding a.compressors) [
      | none ↦ w
      | some c ↦ record w { header = header_set w.header (codes "Content-Encoding") c }
    ]

-- Close of the response writer
abbrev pub close : Response → Response
close w = record w { closed = true }

-- An error that is no answer: a log id, and status 500. A log id is its number here, and `show_id`
-- is what `nextLogID` prints of it.
abbrev pub fail : (ℕ → Bytes) → App → Response → App × Response
fail show_id a w =
    let id = suc a.log_id in
    (record a { log_id = id }, write_status (write_header w (codes "X-Log-Id") (show_id id)) 500)

-- What the closure does with the error of the chain. The closures of HandleFile and HandlePage know
-- ErrCancelled only; createHandler's knows ErrViewNotFound too.
unfoldable pub answer_error : (ℕ → Bytes) → Kind → App → Response → Option Error → App × Response
answer_error show_id kind a w none = (a, w)
answer_error show_id kind a w (some cancelled) = (a, w)
answer_error show_id handler a w (some view_not_found) =
    (a, write_body (write_status w 404) (codes "View Not Found") 14)
answer_error show_id file a w (some view_not_found) = fail show_id a w
answer_error show_id page a w (some view_not_found) = fail show_id a w
answer_error show_id kind a w (some (other n)) = fail show_id a w

-- The Context that a closure makes for a request.
abbrev pub context_of : App → Routing → Request → Response → Context
context_of a r req w = record {
  request = req;
  response = create_writer a req w;
  viewers = r.viewers;
  app_viewers = a.viewers;
  temp_data = [];
}

-- The closure registered for a route, on a request that the mux gave it.
unfoldable pub serve_route :
    (ℕ → Bytes) → App → Kind → Routing → Request → Response → App × Response
unfolding answer_error
serve_route show_id a kind r req w =
    let (c, e) = routing_next a r (context_of a r req w) in
    let (a', w') = answer_error show_id kind a c.response e in (a', close w')

-- The mux's entry of a pattern, and the request that it gave to it; which pattern a request
-- matches is net/http's choice.
unfoldable pub kind_of : List (Bytes × Kind) → Bytes → Option Kind
unfolding equal
kind_of [] pattern = none
kind_of ((p, k) ∷ m) pattern = if equal p pattern then some k else kind_of m pattern

unfoldable pub serve : (ℕ → Bytes) → App → Bytes → Request → Response → Option (App × Response)
unfolding serve_route kind_of lookup
serve show_id a pattern req w = elim (kind_of a.mux pattern) [
  | none ↦ none
  | some k ↦ elim (lookup pattern a.routes) [
    | none ↦ none
    | some r ↦ some (serve_route show_id a k r req w)
  ]
]
