-- ===== src/Etag/Scan.antt =====
-- etag.go: `scanETag` reads a tag off the front of a text, and gives no byte back.
use xun.Base.{
  ℕ, true, ◌≡◌, ◌≢◌, refl, ap, ◌∙◌, inl, inr, Option, none, some, [], ◌∷◌, ◌++◌, Bytes, codes,
  arith, ◌==◌, has_prefix, has_prefix_sound, drop, Bool-cases, ==_iff,
}
use xun.Etag.Defs.{trim_string, prefixed, is_etag_byte, scan_quoted, scan_strong, scan_etag}

-- A tag from the byte behind its first quote on: tag bytes, then the closing quote.
pub data IsQuoted : Bytes → Type 0 where
  close : IsQuoted (b'"' ∷ [])
  byte : {c : ℕ} {s : Bytes} → is_etag_byte c ≡ true → IsQuoted s → IsQuoted (c ∷ s)

-- An entity tag of RFC 7232: quoted, with "W/" in front when weak.
pub data IsEtag : Bytes → Type 0 where
  strong : {s : Bytes} → IsQuoted s → IsEtag (b'"' ∷ s)
  weak : {s : Bytes} → IsQuoted s → IsEtag (b'W' ∷ b'/' ∷ b'"' ∷ s)

scan_quoted-IsQuoted :
    {tag : Bytes} (rest : Bytes) → IsQuoted tag → scan_quoted (tag ++ rest) ≡ some (tag, rest)
unfolding scan_quoted
scan_quoted-IsQuoted rest close = refl
scan_quoted-IsQuoted rest (byte {c} {s} h q) = ground (arith, scan_quoted-IsQuoted rest q)

prefixed-eq-some :
    (p : Bytes) (o : Option (Bytes × Bytes)) (tag remain : Bytes)
    → prefixed p o ≡ some (tag, remain)
    → (t : Bytes) × (o ≡ some (t, remain)) × (tag ≡ p ++ t)
prefixed-eq-some p none tag remain h = cc
prefixed-eq-some p (some (t, r)) tag remain h = (t, ground arith, ground arith)

scan_close :
    (c : ℕ) (s tag remain : Bytes)
    → (c == b'"') ≡ true
    → ◌≡◌ {A = Option (Bytes × Bytes)} (some (c ∷ [], s)) (some (tag, remain))
    → (c ∷ s ≡ tag ++ remain) × IsQuoted tag
scan_close c s tag remain f h =
    let same : c ∷ [] ≡ tag = cc in
    let left : s ≡ remain = cc in (rw (← same, ← left) refl, rw (← same, (==_iff c b'"').0 f) close)

scan_quoted_sound :
    (s tag remain : Bytes) → scan_quoted s ≡ some (tag, remain) → (s ≡ tag ++ remain) × IsQuoted tag
unfolding scan_quoted
scan_quoted_sound [] tag remain h = cc
scan_quoted_sound (c ∷ s) tag remain h = elim (Bool-cases (is_etag_byte c)) [
  | inl e ↦
      let (t, found, same) =
        prefixed-eq-some (c ∷ []) (scan_quoted s) tag remain (rw (e, scan_quoted) at h) in
      let (splits, quoted) = scan_quoted_sound s t remain found in
      rw same (ap (◌∷◌ c) splits, byte e quoted)
  | inr e ↦ elim (Bool-cases (c == b'"')) [
    | inl f ↦ scan_close c s tag remain f (rw (e, f, scan_quoted) at h)
    | inr f ↦ cc (rw (e, f, scan_quoted) at h)
  ]
]

IsQuoted-ne-nil :
    {tag : Bytes} (rest : Bytes) → IsQuoted tag → (c : ℕ) × (s : Bytes) × (tag ++ rest ≡ c ∷ s)
IsQuoted-ne-nil rest close = (b'"', rest, refl)
IsQuoted-ne-nil rest (byte {c} {s} h q) = (c, s ++ rest, refl)

scan_strong_quote :
    (t : Bytes) → t ≢ [] → scan_strong (b'"' ∷ t) ≡ prefixed (b'"' ∷ []) (scan_quoted t)
unfolding scan_strong
scan_strong_quote [] ne = absurd (ne refl)
scan_strong_quote (c ∷ t) ne = refl

scan_strong-IsQuoted :
    {tag : Bytes} (rest : Bytes)
    → IsQuoted tag
    → scan_strong (b'"' ∷ (tag ++ rest)) ≡ some (b'"' ∷ tag, rest)
scan_strong-IsQuoted {tag} rest q =
    let (c, s, e) = IsQuoted-ne-nil rest q in
    scan_strong_quote (tag ++ rest) (λ empty. cc)
    ∙ ap (prefixed (b'"' ∷ [])) (scan_quoted-IsQuoted rest q)

scan_strong_sound :
    (s tag remain : Bytes)
    → scan_strong s ≡ some (tag, remain)
    → (t : Bytes) × (tag ≡ b'"' ∷ t) × (s ≡ tag ++ remain) × IsQuoted t
unfolding scan_strong
scan_strong_sound [] tag remain h = cc
scan_strong_sound (q ∷ []) tag remain h = cc
scan_strong_sound (q ∷ c ∷ s) tag remain h = elim (Bool-cases (q == b'"')) [
  | inl e ↦
      let (t, found, same) =
        prefixed-eq-some (q ∷ []) (scan_quoted (c ∷ s)) tag remain (rw (e, scan_strong) at h) in
      let (splits, quoted) = scan_quoted_sound (c ∷ s) t remain found in
      let quote : q ≡ b'"' = (==_iff q b'"').0 e in
      (t, rw (same, quote) refl, rw same (ap (◌∷◌ q) splits), quoted)
  | inr e ↦ cc (rw (e, scan_strong) at h)
]

-- What `scanETag` finds is an entity tag at the front of the trimmed text, and the rest is what
-- stands behind it.
pub scan_etag_sound :
    (s tag remain : Bytes)
    → scan_etag s ≡ some (tag, remain)
    → (trim_string s ≡ tag ++ remain) × IsEtag tag
unfolding scan_etag
scan_etag_sound s tag remain h = elim (Bool-cases (has_prefix (trim_string s) (codes "W/"))) [
  | inl e ↦
      let (u, found, same) =
        prefixed-eq-some (codes "W/") (scan_strong (drop 2 (trim_string s))) tag remain
          (rw (e, scan_etag) at h) in
      let (t, front, splits, quoted) = scan_strong_sound (drop 2 (trim_string s)) u remain found in
      (
        has_prefix_sound (trim_string s) (codes "W/") e ∙ rw (same, splits) refl,
        rw (same, front) (weak quoted),
      )
  | inr e ↦
      let (t, front, splits, quoted) =
        scan_strong_sound (trim_string s) tag remain (rw (e, scan_etag) at h) in
      (splits, rw front (strong quoted))
]

-- An entity tag at the front of a trimmed text is found whole.
pub scan_etag-IsEtag :
    {tag : Bytes} (rest : Bytes)
    → IsEtag tag
    → trim_string (tag ++ rest) ≡ tag ++ rest
    → scan_etag (tag ++ rest) ≡ some (tag, rest)
unfolding scan_etag
scan_etag-IsEtag rest (strong {s} q) e = rw e (scan_strong-IsQuoted rest q)
scan_etag-IsEtag rest (weak {s} q) e =
    rw e (ap (prefixed (codes "W/")) (scan_strong-IsQuoted rest q))
