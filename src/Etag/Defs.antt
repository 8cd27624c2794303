-- ===== src/Etag/Defs.antt =====
-- etag.go: entity tags and If-None-Match.
use xun.Base.{
  ℕ, zero, suc, Bool, true, false, Option, none, some, [], ◌∷◌, ◌++◌, Bytes, codes, ◌==◌, ◌&&◌,
  ◌||◌, if◌then◌else◌, leb, length, equal, has_prefix, trim_prefix, Dict, drop, trim,
  is_ascii_space,
}
use xun.Http.{Request, Response, header_get, header_del, write_status}

-- textproto.TrimString
unfoldable pub trim_string : Bytes → Bytes
unfolding trim is_ascii_space
trim_string s = trim is_ascii_space s

-- The bytes that an entity tag may hold between its quotes.
unfoldable pub is_etag_byte : ℕ → Bool
is_etag_byte c = c == 0x21 || (leb 0x23 c && leb c 0x7e || leb 0x80 c)

-- A tag that was read, with a text in front of it.
abbrev pub prefixed : Bytes → Option (Bytes × Bytes) → Option (Bytes × Bytes)
prefixed p none = none
prefixed p (some (tag, remain)) = some (p ++ tag, remain)

-- The loop of `scanETag` behind the first quote: the bytes up to the closing quote, and the rest.
unfoldable pub scan_quoted : Bytes → Option (Bytes × Bytes)
unfolding is_etag_byte
scan_quoted [] = none
scan_quoted (c ∷ s) =
    if is_etag_byte c
    then prefixed (c ∷ []) (scan_quoted s)
    else if c == b'"'
    then some (c ∷ [], s)
    else none

-- The tag from its first quote on; `none` is the pair of empty texts.
unfoldable pub scan_strong : Bytes → Option (Bytes × Bytes)
unfolding scan_quoted
scan_strong [] = none
scan_strong (q ∷ []) = none
scan_strong (q ∷ c ∷ s) = if q == b'"' then prefixed (q ∷ []) (scan_quoted (c ∷ s)) else none

-- scanETag
unfoldable pub scan_etag : Bytes → Option (Bytes × Bytes)
unfolding trim_string has_prefix scan_strong
scan_etag s =
    let t = trim_string s in
    if has_prefix t (codes "W/")
    then prefixed (codes "W/") (scan_strong (drop 2 t))
    else scan_strong t

-- etagWeakMatch
unfoldable pub etag_weak_match : Bytes → Bytes → Bool
unfolding equal trim_prefix
etag_weak_match a b = equal (trim_prefix a (codes "W/")) (trim_prefix b (codes "W/"))

-- What one round of the loop of `checkIfNoneMatch` does with the trimmed buffer.
pub data Round : Type 0 where
  stop : Bool → Round
  again : Bytes → Round

unfoldable pub round : Bytes → Bytes → Round
unfolding scan_etag etag_weak_match
round etag [] = stop false
round etag (c ∷ s) =
    if c == b',' then again s else if c == b'*' then stop true else elim (scan_etag (c ∷ s)) [
      | none ↦ stop false
      | some (tag, remain) ↦ if etag_weak_match tag etag then stop true else again remain
    ]

-- The loop, on fuel; `none` is that the fuel ran out.
unfoldable pub check_loop : ℕ → Bytes → Bytes → Option Bool
unfolding round trim_string
check_loop zero etag buf = none
check_loop (suc fuel) etag buf = elim (round etag (trim_string buf)) [
  | stop b ↦ some b
  | again rest ↦ check_loop fuel etag rest
]

-- checkIfNoneMatch, with a round of fuel for each byte and one more.
unfoldable pub check_if_none_match : Response → Request → Option Bool
unfolding check_loop header_get
check_if_none_match w r =
    let inm = header_get r.header (codes "If-None-Match") in
    if equal inm []
    then some false
    else check_loop (suc (length inm)) (header_get w.header (codes "Etag")) inm

-- The headers that `writeNotModified` leaves.
unfoldable pub without_body : Dict Bytes → Dict Bytes
unfolding header_del
without_body h =
    header_del (header_del (header_del h (codes "Content-Type")) (codes "Content-Length"))
      (codes "Content-Encoding")

unfoldable pub not_modified_header : Dict Bytes → Dict Bytes
unfolding header_get header_del without_body equal
not_modified_header h =
    let h' = without_body h in
    if equal (header_get h' (codes "Etag")) [] then h' else header_del h' (codes "Last-Modified")

-- writeNotModified
unfoldable pub write_not_modified : Response → Response
unfolding not_modified_header write_status
write_not_modified w = write_status (record w { header = not_modified_header w.header }) 304

abbrev pub is_safe_method : Bytes → Bool
is_safe_method m = equal m (codes "GET") || equal m (codes "HEAD")

abbrev pub answered : Response → Option Bool → Option (Response × Bool)
answered w none = none
answered w (some true) = some (write_not_modified w, true)
answered w (some false) = some (w, false)

-- WriteIfNoneMatch: the response, and whether the answer is complete.
unfoldable pub write_if_none_match : Response → Request → Option (Response × Bool)
unfolding equal
write_if_none_match w r =
    if is_safe_method r.method then answered w (check_if_none_match w r) else some (w, false)
