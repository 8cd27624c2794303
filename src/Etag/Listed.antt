-- ===== src/Etag/Listed.antt =====
-- etag.go: `checkIfNoneMatch` decides whether a listed tag matches.
use xun.Base.{
  ℕ, zero, suc, ◌<◌, Bool, true, false, ◌≡◌, refl, sym, ap, ◌∙◌, some, List, [], ◌∷◌, ◌++◌, ◌||◌,
  append-nil, Bytes, codes, arith, if◌then◌else◌, length, All, any, length-append, last_byte,
  last_byte_append, trim-ends, is_ascii_space, trim_one, equal, join,
}
use xun.Http.{Request, Response, header_get}
use xun.Etag.Defs.{
  trim_string, etag_weak_match, stop, again, round, check_loop, check_if_none_match,
}
use xun.Etag.Scan.{IsQuoted, close, byte, IsEtag, strong, weak, scan_etag-IsEtag}
use xun.Etag.Total.{next, check_loop_step, IsEtag-length}

-- The round that meets a tag, and the one that meets a comma.
round-IsEtag :
    {tag : Bytes} (etag rest : Bytes)
    → IsEtag tag
    → trim_string (tag ++ rest) ≡ tag ++ rest
    → round etag (tag ++ rest) ≡ (if etag_weak_match tag etag then stop true else again rest)
unfolding round
round-IsEtag etag rest (strong {s} q) e = rw (scan_etag-IsEtag rest (strong q) e, round)
round-IsEtag etag rest (weak {s} q) e = rw (scan_etag-IsEtag rest (weak q) e, round)

IsQuoted-last : {tag : Bytes} → IsQuoted tag → last_byte tag ≡ some b'"'
unfolding last_byte
IsQuoted-last close = refl
IsQuoted-last (byte h close) = refl
IsQuoted-last (byte h (byte k q)) = IsQuoted-last (byte k q)

-- A tag begins with a byte that is no space, and ends in a quote.
IsEtag-first :
    {tag : Bytes} → IsEtag tag → (c : ℕ) × (s : Bytes) × (tag ≡ c ∷ s) × (is_ascii_space c ≡ false)
unfolding is_ascii_space
IsEtag-first (strong {s} q) = (b'"', s, refl, refl)
IsEtag-first (weak {s} q) = (b'W', b'/' ∷ b'"' ∷ s, refl, refl)

last_quote : (p s : Bytes) → last_byte s ≡ some b'"' → last_byte (p ++ s) ≡ some b'"'
unfolding last_byte
last_quote p [] h = cc
last_quote p (c ∷ s) h = last_byte_append p s c ∙ h

IsEtag-last : {tag : Bytes} → IsEtag tag → last_byte tag ≡ some b'"'
IsEtag-last (strong {s} q) = last_quote (b'"' ∷ []) s (IsQuoted-last q)
IsEtag-last (weak {s} q) = last_quote (codes "W/\"") s (IsQuoted-last q)

-- The tags of a header behind its first.
abbrev behind : List Bytes → Bytes
behind [] = []
behind (t ∷ ts) = b',' ∷ b' ' ∷ (t ++ behind ts)

join-behind : (t : Bytes) (ts : List Bytes) → join (t ∷ ts) (codes ", ") ≡ t ++ behind ts
unfolding join
join-behind t [] = sym (append-nil t)
join-behind t (u ∷ ts) = ap (λ r. t ++ b',' ∷ b' ' ∷ r) (join-behind u ts)

tags-last :
    (t : Bytes) (ts : List Bytes)
    → IsEtag t
    → All IsEtag ts
    → last_byte (t ++ behind ts) ≡ some b'"'
tags-last t [] h hs = rw append-nil (IsEtag-last h)
tags-last t (u ∷ ts) h (k, ks) =
    last_quote t (behind (u ∷ ts))
      (last_quote (b',' ∷ b' ' ∷ []) (u ++ behind ts) (tags-last u ts k ks))

trim_string-tags :
    (t : Bytes) (ts : List Bytes)
    → IsEtag t
    → All IsEtag ts
    → trim_string (t ++ behind ts) ≡ t ++ behind ts
unfolding trim_string
trim_string-tags t ts h hs =
    let (c, s, e, solid) = IsEtag-first h in
    let ends : last_byte (c ∷ (s ++ behind ts)) ≡ some b'"' = rw e at (tags-last t ts h hs) in
    rw e
      (trim-ends is_ascii_space c (s ++ behind ts) b'"' solid ends (unfold is_ascii_space in refl))

trim_string-comma :
    (t : Bytes) (ts : List Bytes)
    → IsEtag t
    → All IsEtag ts
    → trim_string (behind (t ∷ ts)) ≡ behind (t ∷ ts)
unfolding trim_string is_ascii_space
trim_string-comma t ts h hs =
    trim-ends is_ascii_space b',' (b' ' ∷ (t ++ behind ts)) b'"' refl
      (last_quote (b',' ∷ b' ' ∷ []) (t ++ behind ts) (tags-last t ts h hs)) refl

trim_string-space : (s : Bytes) → trim_string (b' ' ∷ s) ≡ trim_string s
unfolding trim_string
trim_string-space s = trim_one is_ascii_space b' ' s (unfold is_ascii_space in refl)

module _ (etag : Bytes) where
  abbrev listed : List Bytes → Bool
  listed = any (λ t. etag_weak_match t etag)

  check_tag :
      (fuel : ℕ) (buf t : Bytes) (ts : List Bytes)
      → IsEtag t
      → All IsEtag ts
      → trim_string buf ≡ t ++ behind ts
      → check_loop fuel etag (behind ts) ≡ some (listed ts)
      → check_loop (suc fuel) etag buf ≡ some (listed (t ∷ ts))
  check_tag fuel buf t ts h hs e later =
      check_loop_step fuel etag buf
      ∙ ap (λ b. next fuel etag (round etag b)) e
      ∙ ap (next fuel etag) (round-IsEtag etag (behind ts) h (trim_string-tags t ts h hs))
      ∙ on_match (etag_weak_match t etag) later
    where
      on_match :
          (b : Bool)
          → check_loop fuel etag (behind ts) ≡ some (listed ts)
          → next fuel etag (if b then stop true else again (behind ts)) ≡ some (b || listed ts)
      on_match true l = refl
      on_match false l = l

  round_comma : (s : Bytes) → round etag (b',' ∷ s) ≡ again s
  unfolding round
  round_comma s = refl

  check_behind :
      (fuel : ℕ) (ts : List Bytes)
      → All IsEtag ts
      → length (behind ts) < fuel
      → check_loop fuel etag (behind ts) ≡ some (listed ts)
  check_behind zero ts h lt = elim lt [ ]
  check_behind (suc fuel) [] h lt =
      check_loop_step fuel etag [] ∙ (unfold trim_string round in refl)
  check_behind (suc zero) (t ∷ ts) h lt = absurd (omega arith)
  check_behind (suc (suc fuel)) (t ∷ ts) (h, hs) lt =
      check_loop_step (suc fuel) etag (behind (t ∷ ts))
      ∙ ap (λ b. next (suc fuel) etag (round etag b)) (trim_string-comma t ts h hs)
      ∙ ap (next (suc fuel) etag) (round_comma (b' ' ∷ (t ++ behind ts)))
      ∙ check_tag fuel (b' ' ∷ (t ++ behind ts)) t ts h hs
          (trim_string-space (t ++ behind ts) ∙ trim_string-tags t ts h hs)
          (check_behind fuel ts hs (omega (arith, length-append t (behind ts))))

  check_tags :
      (fuel : ℕ) (t : Bytes) (ts : List Bytes)
      → IsEtag t
      → All IsEtag ts
      → length (t ++ behind ts) < fuel
      → check_loop fuel etag (t ++ behind ts) ≡ some (listed (t ∷ ts))
  check_tags zero t ts h hs lt = elim lt [ ]
  check_tags (suc fuel) t ts h hs lt =
      check_tag fuel (t ++ behind ts) t ts h hs (trim_string-tags t ts h hs)
        (check_behind fuel ts hs (omega (arith, length-append t (behind ts), IsEtag-length h)))

header-ne-nil : {t : Bytes} (rest : Bytes) → IsEtag t → equal (t ++ rest) [] ≡ false
unfolding equal
header-ne-nil rest (strong q) = refl
header-ne-nil rest (weak q) = refl

-- An If-None-Match header that lists one or more entity tags, joined by ", ", matches exactly when
-- one of them is weakly the tag of the response.
pub check_if_none_match-tags :
    (w : Response) (r : Request) (t : Bytes) (ts : List Bytes)
    → IsEtag t
    → All IsEtag ts
    → header_get r.header (codes "If-None-Match") ≡ join (t ∷ ts) (codes ", ")
    → check_if_none_match w r
      ≡ some (any (λ u. etag_weak_match u (header_get w.header (codes "Etag"))) (t ∷ ts))
unfolding check_if_none_match
check_if_none_match-tags w r t ts h hs e =
    rw (e, join-behind t ts, header-ne-nil (behind ts) h)
      (check_tags (header_get w.header (codes "Etag")) (suc (length (t ++ behind ts))) t ts h hs
        (omega arith))
