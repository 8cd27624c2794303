-- ===== src/Pattern/RoundTrip.antt =====
-- pattern.go: `splitPattern` reads back what `splitFile` prints.
use mathlib.Core.Path.{subst}
use xun.Base.{
  last_byte, Bool-cases, append-nil, ◌==◌, ℕ, suc, ◌-◌, ◌≤◌, ◌≡◌, refl, sym, ap, ◌∙◌, ◌≢◌, inl, inr,
  Option, none, some, [], ◌∷◌, ◌++◌, false, Bytes, codes, arith, Option-cases, some_inj, index_byte,
  index_byte_append, index_byte-eq-some, slice, Lacks, take, drop, last_byte_append, trim_left,
  take-length_append, drop_behind, drop-append_le, drop-take, All-drop, append_assoc,
}
use xun.Pattern.Defs.{
  PatternParts, split_file, split_host_file, split_pattern, slash_end, split_host, finish, is_blank,
  FileParts,
}

-- The text does not begin with a blank.
abbrev pub IsFlush : Bytes → Type 0
IsFlush [] = Unit {0}
IsFlush (c ∷ s) = is_blank c ≡ false

trim_left-IsFlush : (s : Bytes) → IsFlush s → trim_left is_blank s ≡ s
unfolding trim_left
trim_left-IsFlush [] h = refl
trim_left-IsFlush (c ∷ s) h = rw h

trim_left-IsFlush_append :
    (host rest : Bytes)
    → IsFlush host
    → trim_left is_blank (host ++ b'/' ∷ rest) ≡ host ++ b'/' ∷ rest
trim_left-IsFlush_append [] rest h = trim_left-IsFlush (b'/' ∷ rest) (unfold is_blank in refl)
trim_left-IsFlush_append (c ∷ s) rest h = trim_left-IsFlush (c ∷ s ++ b'/' ∷ rest) h

split_host_at_slash :
    (method host rest : Bytes)
    → Lacks b'/' host
    → split_host method (host ++ b'/' ∷ rest) ≡ record { method = method; host = host; rest = rest }
unfolding split_host
split_host_at_slash method host rest lacks = rw (
  index_byte_append host rest b'/' lacks,
  take-length_append host (b'/' ∷ rest),
  drop_behind host rest b'/',
  split_host,
)

-- The pattern of a host without slashes and a path is read back.
split_pattern_get :
    (host rest : Bytes)
    → IsFlush host
    → Lacks b'/' host
    → split_pattern (codes "GET " ++ (host ++ b'/' ∷ rest))
      ≡ record { method = codes "GET"; host = host; rest = rest }
unfolding split_pattern
split_pattern_get host rest flush lacks =
    ap (split_host (codes "GET")) (trim_left-IsFlush_append host rest flush)
    ∙ split_host_at_slash (codes "GET") host rest lacks

slash_end_append : (p s : Bytes) (c : ℕ) → slash_end (p ++ c ∷ s) ≡ slash_end (c ∷ s)
unfolding slash_end
slash_end_append p s c = rw (last_byte_append p s c, slash_end)

drop-slash :
    (s : Bytes) (i e : ℕ)
    → index_byte s b'/' ≡ some e
    → suc i ≤ e
    → drop (suc i) s ≡ take (e - suc i) (drop (suc i) s) ++ b'/' ∷ drop (suc e) s
drop-slash s i e slash h =
    let (splits, lacks, len) = index_byte-eq-some s b'/' e slash in
    ap (drop (suc i)) splits
    ∙ drop-append_le (suc i) (take e s) (b'/' ∷ drop (suc e) s) (omega arith)
    ∙ ap (λ p. p ++ b'/' ∷ drop (suc e) s) (drop-take (suc i) e s)

host-Lacks :
    (s : Bytes) (i e : ℕ)
    → index_byte s b'/' ≡ some e
    → Lacks b'/' (take (e - suc i) (drop (suc i) s))
host-Lacks s i e slash =
    let (splits, lacks, len) = index_byte-eq-some s b'/' e slash in
    rw (← drop-take (suc i) e s) (All-drop _ (suc i) (take e s) lacks)

-- The parts of a file with a host, spelled out.
abbrev IsHostFile : FileParts → Bytes → Type 0
IsHostFile f rest =
    (f.path ≡ b'/' ∷ rest)
    × Lacks b'/' f.host
    × (f.pattern ≡ codes "GET " ++ (f.host ++ b'/' ∷ (rest ++ slash_end f.path)))

finish-IsHostFile :
    (host tail rest : Bytes)
    → tail ≡ host ++ b'/' ∷ rest
    → Lacks b'/' host
    → IsHostFile (finish host (b'/' ∷ rest) (codes "GET " ++ tail)) rest
finish-IsHostFile host tail rest e lacks =
    (refl, lacks, rw (e, slash_end_append (codes "GET " ++ host) rest b'/') (rw append_assoc))

slice-eq-some :
    (s : Bytes) (i j : ℕ) (t : Bytes)
    → slice s i j ≡ some t
    → (i ≤ j) × (take (j - i) (drop i s) ≡ t)
unfolding slice
slice-eq-some s i j t h = ground arith

split_host_file_parts :
    (s : Bytes) (i : ℕ) (e : Option ℕ) (f : FileParts)
    → index_byte s b'/' ≡ e
    → split_host_file s i e ≡ some f
    → (rest : Bytes) × IsHostFile f rest
unfolding split_host_file
split_host_file_parts s i none f slash h = cc
split_host_file_parts s i (some e) f slash h = elim (Option-cases (slice s (suc i) e)) [
  | inl q ↦ cc (rw (q, split_host_file) at h)
  | inr (host, q) ↦
      let (le, same) = slice-eq-some s (suc i) e host q in
      let whole : drop (suc i) s ≡ host ++ b'/' ∷ drop (suc e) s =
        rw (← same) (drop-slash s i e slash le) in
      let lacks : Lacks b'/' host = rw (← same) (host-Lacks s i e slash) in
      let eq : finish host (b'/' ∷ drop (suc e) s) (codes "GET " ++ drop (suc i) s) ≡ f =
        some_inj (rw (q, split_host_file) at h) in
      (
        drop (suc e) s,
        subst (λ g. IsHostFile g (drop (suc e) s)) eq (finish-IsHostFile host _ _ whole lacks),
      )
]

split_file-IsHostFile :
    (s : Bytes) (f : FileParts)
    → s ≢ []
    → split_file s ≡ some f
    → (rest : Bytes) × IsHostFile f rest
unfolding split_file
split_file-IsHostFile [] f ne h = absurd (ne refl)
split_file-IsHostFile (c ∷ s) f ne h = elim (Option-cases (index_byte (c ∷ s) b'@')) [
  | inl q ↦
      let eq : finish [] (b'/' ∷ c ∷ s) (codes "GET /" ++ (c ∷ s)) ≡ f =
        some_inj (rw (q, split_file) at h) in
      (c ∷ s, subst (λ g. IsHostFile g (c ∷ s)) eq (finish-IsHostFile [] _ (c ∷ s) refl tt))
  | inr (i, q) ↦ split_host_file_parts (c ∷ s) i _ f refl (rw (q, split_file) at h)
]

read_back :
    (s : Bytes) (f : FileParts)
    → s ≢ []
    → split_file s ≡ some f
    → IsFlush f.host
    → split_pattern f.pattern
      ≡ record { method = codes "GET"; host = f.host; rest = drop 1 f.path ++ slash_end f.path }
read_back s f ne h flush =
    let (rest, (path, lacks, spelled)) = split_file-IsHostFile s f ne h in
    ap split_pattern spelled
    ∙ split_pattern_get f.host (rest ++ slash_end f.path) flush lacks
    ∙ ap (λ r. record { method = codes "GET"; host = f.host; rest = r ++ slash_end f.path })
        (sym (ap (drop 1) path))

-- The text ends in a slash.
abbrev pub EndsInSlash : Bytes → Type 0
EndsInSlash s = (p : Bytes) × (s ≡ p ++ b'/' ∷ [])

slash_end-EndsInSlash : (s : Bytes) → EndsInSlash s → slash_end s ≡ codes "{$}"
unfolding slash_end
slash_end-EndsInSlash s (p, e) = rw (e, last_byte_append p [] b'/', slash_end) refl

last_byte-eq-some : (s : Bytes) (c : ℕ) → last_byte s ≡ some c → (p : Bytes) × (s ≡ p ++ c ∷ [])
unfolding last_byte
last_byte-eq-some [] c h = cc
last_byte-eq-some (d ∷ []) c h = ([], ap (λ x. x ∷ []) (some_inj h))
last_byte-eq-some (d ∷ e ∷ s) c h =
    let (p, q) = last_byte-eq-some (e ∷ s) c h in (d ∷ p, ap (◌∷◌ d) q)

slash_end-not-EndsInSlash : (s : Bytes) → ¬ EndsInSlash s → slash_end s ≡ []
unfolding slash_end
slash_end-not-EndsInSlash s ne = elim (Option-cases (last_byte s)) [
  | inl e ↦ rw (e, slash_end) refl
  | inr (c, e) ↦ elim (Bool-cases (c == b'/')) [
    | inl q ↦
        let same : c ≡ b'/' = ground (arith, q) in
        absurd (ne (last_byte-eq-some s b'/' (e ∙ ap some same)))
    | inr q ↦ rw (e, slash_end, q) refl
  ]
]

-- The pattern that `splitFile` makes of a name is read back by `splitPattern`: the method is GET,
-- the host is that of the file, and the rest is its path without the first byte, which is a slash,
-- with "{$}" behind it if the path ends in a slash, and with nothing behind it if not. The name is
-- not empty and the host does not begin with a blank.
pub split_pattern-split_file :
    (s : Bytes) (f : FileParts)
    → s ≢ []
    → split_file s ≡ some f
    → IsFlush f.host
    → let parts = split_pattern f.pattern in
      (parts.method ≡ codes "GET")
      × (parts.host ≡ f.host)
      × ((rest : Bytes) × (f.path ≡ b'/' ∷ rest)
          × (EndsInSlash f.path → parts.rest ≡ rest ++ codes "{$}")
          × (¬ EndsInSlash f.path → parts.rest ≡ rest))
split_pattern-split_file s f ne h flush =
    let (rest, (path, lacks, spelled)) = split_file-IsHostFile s f ne h in
    let e = read_back s f ne h flush in
    let behind : (split_pattern f.pattern).rest ≡ rest ++ slash_end f.path =
      ap (λ (p : PatternParts). p.rest) e ∙ ap (λ r. drop 1 r ++ slash_end f.path) path in
    (
      ap (λ (p : PatternParts). p.method) e,
      ap (λ (p : PatternParts). p.host) e,
      (
        rest,
        path,
        (λ k. behind ∙ ap (◌++◌ rest) (slash_end-EndsInSlash f.path k)),
        (λ k. behind ∙ ap (◌++◌ rest) (slash_end-not-EndsInSlash f.path k) ∙ append-nil rest),
      ),
    )
