-- ===== src/Pattern/Panics.antt =====
-- pattern.go: which file names make `splitFile` panic.
use xun.Base.{
  ℕ, suc, ◌≤◌, ◌<◌, ◌≡◌, refl, ◌↔◌, ◌⊎◌, inl, inr, Option, none, some, [], ◌∷◌, ◌++◌, Bytes, arith,
  Option-cases, iff_trans, ◌≢◌, index_byte, index_byte_append, index_byte_append-Lacks,
  index_byte_append_some, index_byte-eq-some, index_byte-eq-none, index_byte-lt, slice, Lacks,
  not-Lacks-of-some, ap, take, drop, length, length-append,
}
use xun.Pattern.Defs.{split_file, split_host_file}

-- The first '@' follows a slash, or no slash follows it.
abbrev pub IsMisplaced : Bytes → Type 0
IsMisplaced s =
    (pre : Bytes) × (post : Bytes) × (s ≡ pre ++ b'@' ∷ post)
    × Lacks b'@' pre
    × ((¬ Lacks b'/' pre) ⊎ Lacks b'/' post)

-- The slash is found before the '@' or not at all.
abbrev IsBefore : Option ℕ → ℕ → Type 0
IsBefore none i = Unit {0}
IsBefore (some e) i = e ≤ i

split_host_file-none :
    (s : Bytes) (i : ℕ) (e : Option ℕ)
    → ((j : ℕ) → e ≡ some j → j < length s)
    → (split_host_file s i e ≡ none) ↔ IsBefore e i
unfolding split_host_file slice
split_host_file-none s i none h = (λ _. tt, λ _. refl)
split_host_file-none s i (some e) h = ground (arith, h e refl)

index_slash_first :
    (pre post : Bytes) (i : ℕ)
    → index_byte pre b'/' ≡ some i
    → IsBefore (index_byte (pre ++ b'@' ∷ post) b'/') (length pre)
index_slash_first pre post i e =
    rw (index_byte_append_some pre (b'@' ∷ post) b'/' i e)
      (omega (arith, index_byte-lt pre b'/' i e))

index_slash_after :
    (pre post : Bytes) (j : ℕ)
    → index_byte pre b'/' ≡ none
    → index_byte post b'/' ≡ some j
    → ¬ IsBefore (index_byte (pre ++ b'@' ∷ post) b'/') (length pre)
unfolding index_byte
index_slash_after pre post j e f =
    rw (index_byte_append-Lacks pre (b'@' ∷ post) b'/' (index_byte-eq-none pre b'/' e), f)
      (λ h. omega arith)

index_slash_absent :
    (pre post : Bytes)
    → index_byte pre b'/' ≡ none
    → index_byte post b'/' ≡ none
    → IsBefore (index_byte (pre ++ b'@' ∷ post) b'/') (length pre)
unfolding index_byte
index_slash_absent pre post e f =
    rw (index_byte_append-Lacks pre (b'@' ∷ post) b'/' (index_byte-eq-none pre b'/' e), f) tt

index_slash-IsBefore :
    (pre post : Bytes)
    → IsBefore (index_byte (pre ++ b'@' ∷ post) b'/') (length pre)
      ↔ ((¬ Lacks b'/' pre) ⊎ Lacks b'/' post)
index_slash-IsBefore pre post = elim (Option-cases (index_byte pre b'/')) [
  | inl e ↦ elim (Option-cases (index_byte post b'/')) [
    | inl f ↦ (λ _. inr (index_byte-eq-none post b'/' f), λ _. index_slash_absent pre post e f)
    | inr (j, f) ↦ (
      λ h. absurd (index_slash_after pre post j e f h),
      λ h. elim h [
        | inl n ↦ absurd (n (index_byte-eq-none pre b'/' e))
        | inr n ↦ absurd (not-Lacks-of-some post b'/' j f n)
      ],
    )
  ]
  | inr (i, e) ↦ (λ _. inl (not-Lacks-of-some pre b'/' i e), λ _. index_slash_first pre post i e)
]

split_file_at_byte :
    (c : ℕ) (s : Bytes) (i : ℕ)
    → index_byte (c ∷ s) b'@' ≡ some i
    → split_file (c ∷ s) ≡ split_host_file (c ∷ s) i (index_byte (c ∷ s) b'/')
unfolding split_file
split_file_at_byte c s i e = rw (e, split_file)

split_file_at :
    (s pre post : Bytes)
    → s ≡ pre ++ b'@' ∷ post
    → Lacks b'@' pre
    → (split_file s ≡ none) ↔ ((¬ Lacks b'/' pre) ⊎ Lacks b'/' post)
split_file_at [] pre post e h = absurd (omega (arith, ap length e, length-append pre (b'@' ∷ post)))
split_file_at (c ∷ s) pre post e h =
    let found : index_byte (c ∷ s) b'@' ≡ some (length pre) =
      rw e (index_byte_append pre post b'@' h) in
    rw (split_file_at_byte c s (length pre) found) (
      iff_trans
        (split_host_file-none (c ∷ s) (length pre) _ (λ j f. index_byte-lt (c ∷ s) b'/' j f))
        (rw e (index_slash-IsBefore pre post)))

split_file_no_at : (s : Bytes) → index_byte s b'@' ≡ none → split_file s ≢ none
unfolding split_file
split_file_no_at [] e = λ h. cc
split_file_no_at (c ∷ s) e = rw (e, split_file) (λ h. cc)

-- `splitFile` panics exactly on the names whose first '@' stands behind a slash or has no slash
-- behind it.
pub split_file-eq-none_iff : (s : Bytes) → (split_file s ≡ none) ↔ IsMisplaced s
split_file-eq-none_iff s = (
  λ h. elim (Option-cases (index_byte s b'@')) [
    | inl e ↦ absurd (split_file_no_at s e h)
    | inr (i, e) ↦
        let (splits, lacks, _) = index_byte-eq-some s b'@' i e in
        (take i s, drop (suc i) s, splits, lacks, (split_file_at s _ _ splits lacks).0 h)
  ],
  λ (pre, post, splits, lacks, wrong). (split_file_at s pre post splits lacks).1 wrong,
)
