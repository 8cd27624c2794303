-- ===== src/Etag/Answer.antt =====
-- etag.go: what `WriteIfNoneMatch` answers.
use xun.Base.{
  ◌||◌, ℕ, Bool, true, false, ◌≡◌, refl, Option, none, some, [], Bytes, codes, arith, ◌&&◌, ◌≢◌,
  Dict, Option-cases, equal, lookup, lookup-delete, lookup-delete_self, delete, to_lower,
  Bool-cases, inl, inr,
}
use xun.Http.{Request, Response, header_get, header_del, write_status, status_code_of}
use xun.Etag.Defs.{
  check_if_none_match, write_if_none_match, write_not_modified, without_body, not_modified_header,
  is_safe_method, answered,
}
use xun.Etag.Total.{check_if_none_match_total}

header_get-header_del_self : (h : Dict Bytes) (key : Bytes) → header_get (header_del h key) key ≡ []
unfolding header_get header_del
header_get-header_del_self h key = rw (lookup-delete_self (to_lower key) h, header_get)

abbrev or_empty : Option Bytes → Bytes
or_empty none = []
or_empty (some v) = v

header_get-lookup :
    (h : Dict Bytes) (key : Bytes) → header_get h key ≡ or_empty (lookup (to_lower key) h)
unfolding header_get
header_get-lookup h key = elim (Option-cases (lookup (to_lower key) h)) [
  | inl e ↦ rw (e, header_get)
  | inr (v, e) ↦ rw (e, header_get)
]

header_get-header_del_nil :
    (h : Dict Bytes) (key other : Bytes)
    → header_get h key ≡ []
    → header_get (header_del h other) key ≡ []
unfolding header_del
header_get-header_del_nil h key other e = ground (
  arith,
  header_get-lookup h key,
  header_get-lookup (delete (to_lower other) h) key,
  lookup-delete (to_lower other) (to_lower key) h,
)

-- The headers describe no body.
pub record HasNoBody (h : Dict Bytes) : Type 0 where
  pub no_type : header_get h (codes "Content-Type") ≡ []
  pub no_length : header_get h (codes "Content-Length") ≡ []
  pub no_encoding : header_get h (codes "Content-Encoding") ≡ []

header_del-HasNoBody : {h : Dict Bytes} (key : Bytes) → HasNoBody h → HasNoBody (header_del h key)
header_del-HasNoBody {h} key v = record {
  no_type = header_get-header_del_nil h _ key v.no_type;
  no_length = header_get-header_del_nil h _ key v.no_length;
  no_encoding = header_get-header_del_nil h _ key v.no_encoding;
}

without_body-HasNoBody : (h : Dict Bytes) → HasNoBody (without_body h)
unfolding without_body
without_body-HasNoBody h =
    let h1 = header_del h (codes "Content-Type") in
    let h2 = header_del h1 (codes "Content-Length") in
    record {
      no_type = header_get-header_del_nil h2 (codes "Content-Type") (codes "Content-Encoding") (
          header_get-header_del_nil h1 (codes "Content-Type") (codes "Content-Length")
            (header_get-header_del_self h (codes "Content-Type")));
      no_length =
          header_get-header_del_nil h2 (codes "Content-Length") (codes "Content-Encoding")
            (header_get-header_del_self h1 (codes "Content-Length"));
      no_encoding = header_get-header_del_self h2 (codes "Content-Encoding");
    }

not_modified_header-HasNoBody : (h : Dict Bytes) → HasNoBody (not_modified_header h)
unfolding not_modified_header
not_modified_header-HasNoBody h =
    elim (Bool-cases (equal (header_get (without_body h) (codes "Etag")) [])) [
      | inl e ↦ rw e (without_body-HasNoBody h)
      | inr e ↦ rw e (header_del-HasNoBody (codes "Last-Modified") (without_body-HasNoBody h))
    ]

write_status-fresh :
    (w : Response) (code : ℕ)
    → w.status_code ≡ 0
    → code ≢ 0
    → (status_code_of (write_status w code) ≡ code) × ((write_status w code).header ≡ w.header)
unfolding write_status status_code_of
write_status-fresh w code fresh ne = ground arith

write_not_modified-fresh :
    (w : Response)
    → w.status_code ≡ 0
    → (status_code_of (write_not_modified w) ≡ 304) × HasNoBody (write_not_modified w).header
unfolding write_not_modified
write_not_modified-fresh w fresh =
    let (status, same) = write_status-fresh _ 304 fresh (omega arith) in
    (status, rw same (not_modified_header-HasNoBody w.header))

-- What the answer must be once the tags have been compared.
abbrev pub IsAnswer : Response → Request → Bool → Response × Bool → Type 0
IsAnswer w r matched (res, done) =
    (((equal r.method (codes "GET") || equal r.method (codes "HEAD")) && matched) ≡ done)
    × (done ≡ false → res ≡ w)
    × (done ≡ true → (status_code_of res ≡ 304) × HasNoBody res.header)

answered-IsAnswer :
    (w : Response) (r : Request) (b : Bool)
    → w.status_code ≡ 0
    → is_safe_method r.method ≡ true
    → (a : Response × Bool) × (answered w (some b) ≡ some a) × IsAnswer w r b a
answered-IsAnswer w r true fresh safe = (
  (write_not_modified w, true),
  refl,
  (ground arith, λ e. cc, λ e. write_not_modified-fresh w fresh),
)
answered-IsAnswer w r false fresh safe = ((w, false), refl, (ground arith, λ e. refl, λ e. cc))

-- `WriteIfNoneMatch` always returns. With no status written yet, the answer is complete exactly for
-- a request whose method is GET or HEAD and for which `checkIfNoneMatch` says that If-None-Match
-- matches; then the status is 304 and the headers describe no body, and else the response is as it
-- was.
pub write_if_none_match-IsAnswer :
    (w : Response) (r : Request)
    → w.status_code ≡ 0
    → (matched : Bool) × (a : Response × Bool) × (check_if_none_match w r ≡ some matched)
      × (write_if_none_match w r ≡ some a)
      × IsAnswer w r matched a
unfolding write_if_none_match
write_if_none_match-IsAnswer w r fresh =
    let (b, e) = check_if_none_match_total w r in
    elim (Bool-cases (is_safe_method r.method)) [
      | inl safe ↦
          let (a, f, is_answer) = answered-IsAnswer w r b fresh safe in
          (b, a, e, rw (safe, e) f, is_answer)
      | inr unsafe ↦ (b, (w, false), e, rw unsafe refl, (rw unsafe refl, λ _. refl, λ h. cc))
    ]
