-- ===== src/Reqlog/Escape.antt =====
-- ext/reqlog/format.go: what a reader of the log gets back from an escaped field.
use xun.Base.{
  ◌≡◌, ◌≢◌, refl, sym, ap, Bool, true, false, Option, none, some, [], ◌∷◌, ◌++◌, append_assoc,
  Bytes, codes, equal, equal_iff, ◌==◌, ==_iff, if◌then◌else◌, Lacks, arith, inl, inr, ℕ,
  Bool-cases,
}
use xun.Reqlog.Defs.{escape_quotes, escape}

abbrev pub onto : ℕ → Option (Bytes × Bytes) → Option (Bytes × Bytes)
onto c none = none
onto c (some (s, rest)) = some (c ∷ s, rest)

-- A reader of quoted fields: a byte behind a backslash is meant as it is, and the first other quote
-- ends the field. The field, and what is behind it; the flag says that a backslash came just before.
unfoldable pub read_quoted : Bool → Bytes → Option (Bytes × Bytes)
read_quoted escaped [] = none
read_quoted true (c ∷ s) = onto c (read_quoted false s)
read_quoted false (c ∷ s) =
    let plain = read_quoted false s in
    let marked = read_quoted true s in
    if c == b'"' then some ([], s) else if c == b'\\' then marked else onto c plain

read_quoted-escape_quotes :
    (s rest : Bytes)
    → Lacks b'\\' s
    → read_quoted false (escape_quotes s ++ b'"' ∷ rest) ≡ some (s, rest)
unfolding read_quoted escape_quotes
read_quoted-escape_quotes [] rest h = refl
read_quoted-escape_quotes (c ∷ s) rest (n, h) = elim (Bool-cases (c == b'"')) [
  | inl e ↦
      rw (e, read_quoted-escape_quotes s rest h)
        (ap (λ d. some (d ∷ s, rest)) {x = b'"'} (sym ((==_iff c b'"').0 e)))
  | inr e ↦ rw (e, read_quoted-escape_quotes s rest h) (ground (arith, n))
]

-- A field begins with a quote.
unfoldable pub read_field : Bytes → Option (Bytes × Bytes)
unfolding read_quoted
read_field [] = none
read_field (c ∷ s) = if c == b'"' then read_quoted false s else none

-- A value that has no backslash and is not a dash, as Escape puts it into a line, is read back as it
-- was, whatever quotes it has and whatever follows it, by a reader of quoted fields that takes a byte
-- behind a backslash as it is.
pub read_field-escape :
    (s rest : Bytes)
    → Lacks b'\\' s
    → s ≢ codes "-"
    → read_field (escape s ++ rest) ≡ some (s, rest)
unfolding escape read_field
read_field-escape s rest h n =
    let quoted : equal s (codes "-") ≡ false = ground (arith, n, equal_iff s (codes "-")) in
    rw (quoted, append_assoc (escape_quotes s) (b'"' ∷ []) rest)
      (read_quoted-escape_quotes s rest h)
