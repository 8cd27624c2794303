-- ===== src/Context/Htmx.antt =====
-- ext/htmx/interceptor.go under context.go: what an htmx client and any other client receive.
use xun.Base.{
  equal, equal_iff, Bool-cases, inl, inr, ℕ, true, false, ◌≡◌, ◌≢◌, refl, ◌∙◌, some, List, [], ◌∷◌,
  Bytes, codes, arith, lookup-insert_self,
}
use xun.Http.{Request, Response, header_get, header_set, write_header, write_status, status_code_of}
use xun.Context.Redirect.{redirect, is_hx_request, hx_redirect, htmx, status_or_found}

header_get-write_header :
    (w : Response) (key value : Bytes)
    → value ≢ []
    → header_get (write_header w key value).header key ≡ value
unfolding header_get write_header header_set
header_get-write_header w key [] ne = absurd (ne refl)
header_get-write_header w key (c ∷ value) ne = rw (lookup-insert_self, header_get)

write_header-status_code :
    (w : Response) (key value : Bytes) → (write_header w key value).status_code ≡ w.status_code
unfolding write_header
write_header-status_code w key [] = refl
write_header-status_code w key (c ∷ value) = refl

write_status-header : (w : Response) (code : ℕ) → (write_status w code).header ≡ w.header
unfolding write_status
write_status-header w code = ground arith

write_status-status_code_of :
    (w : Response) (code : ℕ)
    → w.status_code ≡ 0
    → code ≢ 0
    → status_code_of (write_status w code) ≡ code
unfolding write_status status_code_of
write_status-status_code_of w code h ne = ground arith

-- A response that sends the client to `url` through the header `key` under the status `code`.
abbrev pub SendsTo : Response → Bytes → Bytes → ℕ → Type 0
SendsTo w key url code = (header_get w.header key ≡ url) × (status_code_of w ≡ code)

write-SendsTo :
    (w : Response) (key url : Bytes) (code : ℕ)
    → w.status_code ≡ 0
    → url ≢ []
    → code ≢ 0
    → SendsTo (write_status (write_header w key url) code) key url code
write-SendsTo w key url code fresh ne real = (
  rw (write_status-header (write_header w key url) code) (header_get-write_header w key url ne),
  write_status-status_code_of (write_header w key url) code
      (write_header-status_code w key url ∙ fresh) real,
)

is_hx :
    (req : Request)
    → header_get req.header (codes "HX-Request") ≡ codes "true"
    → equal (header_get req.header (codes "HX-Request")) (codes "true") ≡ true
is_hx req h = (equal_iff _ _).1 h

not_hx :
    (req : Request)
    → header_get req.header (codes "HX-Request") ≢ codes "true"
    → equal (header_get req.header (codes "HX-Request")) (codes "true") ≡ false
not_hx req h =
    elim (Bool-cases (equal (header_get req.header (codes "HX-Request")) (codes "true"))) [
      | inl e ↦ absurd (h ((equal_iff _ _).0 e))
      | inr e ↦ e
    ]

-- With the htmx interceptor and no status written yet, `Redirect` to a nonempty address answers a
-- request whose HX-Request is `true` with HX-Redirect and status 200, whatever status codes are
-- given. It answers any other request with Location, under the first status code that is given, if
-- that is not 0, and under 302 when none is given.
pub redirect-htmx :
    (req : Request) (w : Response) (url : Bytes)
    → w.status_code ≡ 0
    → url ≢ []
    → (header_get req.header (codes "HX-Request") ≡ codes "true"
        → (given : List ℕ)
        → SendsTo (redirect (some htmx) req w url given) (codes "HX-Redirect") url 200)
      × (header_get req.header (codes "HX-Request") ≢ codes "true"
          → SendsTo (redirect (some htmx) req w url []) (codes "Location") url 302
            × ((code : ℕ) (more : List ℕ)
                → code ≢ 0
                → SendsTo
                    (redirect (some htmx) req w url (code ∷ more))
                    (codes "Location")
                    url
                    code))
unfolding redirect htmx hx_redirect is_hx_request status_or_found
redirect-htmx req w url fresh ne = (
  (λ hx given.
      rw (is_hx req hx) (write-SendsTo w (codes "HX-Redirect") url 200 fresh ne (omega arith))),
  (λ plain.
      let e = not_hx req plain in
      (
        rw e (write-SendsTo w (codes "Location") url 302 fresh ne (omega arith)),
        (λ code more real. rw e (write-SendsTo w (codes "Location") url code fresh ne real)),
      )),
)
