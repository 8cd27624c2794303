-- ===== src/Etag/Total.antt =====
-- etag.go: the loop of `checkIfNoneMatch` always ends.
use xun.Base.{
  ℕ, zero, suc, ◌≤◌, ◌<◌, Bool, false, ◌≡◌, refl, ap, inl, inr, Option, some, [], ◌∷◌, Bytes, codes,
  arith, ◌==◌, length, Option-cases, Bool-cases, length-append, is_ascii_space, length-trim-le,
  equal,
}
use xun.Http.{Request, Response, header_get}
use xun.Etag.Defs.{
  trim_string, scan_etag, etag_weak_match, Round, stop, again, round, check_loop,
  check_if_none_match,
}
use xun.Etag.Scan.{IsEtag, strong, weak, scan_etag_sound}

pub IsEtag-length : {tag : Bytes} → IsEtag tag → 0 < length tag
IsEtag-length (strong q) = omega arith
IsEtag-length (weak q) = omega arith

length-trim_string-le : (s : Bytes) → length (trim_string s) ≤ length s
unfolding trim_string
length-trim_string-le s = length-trim-le is_ascii_space s

scan_etag-length :
    (s tag remain : Bytes) → scan_etag s ≡ some (tag, remain) → length remain < length s
scan_etag-length s tag remain h =
    let (splits, is_etag) = scan_etag_sound s tag remain h in
    omega (
      arith,
      ap length splits,
      length-append tag remain,
      IsEtag-length is_etag,
      length-trim_string-le s,
    )

-- A round that goes on has used up at least one byte.
abbrev Shrinks : Round → ℕ → Type 0
Shrinks (stop b) n = Unit {0}
Shrinks (again rest) n = length rest < n

round-Shrinks : (etag buf : Bytes) → Shrinks (round etag buf) (length buf)
unfolding round
round-Shrinks etag [] = tt
round-Shrinks etag (c ∷ s) = elim (Bool-cases (c == b',')) [
  | inl e ↦ rw e (omega arith)
  | inr e ↦ elim (Bool-cases (c == b'*')) [
    | inl f ↦ rw (e, f) tt
    | inr f ↦ elim (Option-cases (scan_etag (c ∷ s))) [
      | inl g ↦ rw (e, f, g, round) tt
      | inr ((tag, remain), g) ↦ elim (Bool-cases (etag_weak_match tag etag)) [
        | inl h ↦ rw (e, f, g, round) (rw h tt)
        | inr h ↦ rw (e, f, g, round) (rw h (scan_etag-length (c ∷ s) tag remain g))
      ]
    ]
  ]
]

-- The loop on the result of one round.
abbrev pub next : ℕ → Bytes → Round → Option Bool
next fuel etag (stop b) = some b
next fuel etag (again rest) = check_loop fuel etag rest

pub check_loop_step :
    (fuel : ℕ) (etag buf : Bytes)
    → check_loop (suc fuel) etag buf ≡ next fuel etag (round etag (trim_string buf))
unfolding check_loop
check_loop_step fuel etag buf = on_round (round etag (trim_string buf))
  where
    on_round :
        (r : Round)
        → (elim r as (λ _. Option Bool) [
          | stop b ↦ some b
          | again rest ↦ check_loop fuel etag rest
        ])
          ≡ next fuel etag r
    on_round (stop b) = refl
    on_round (again rest) = refl

next_total :
    (fuel : ℕ) (etag : Bytes) (r : Round) (n : ℕ)
    → ((buf : Bytes) → length buf < fuel → (b : Bool) × (check_loop fuel etag buf ≡ some b))
    → Shrinks r n
    → n < suc fuel
    → (b : Bool) × (next fuel etag r ≡ some b)
next_total fuel etag (stop b) n ih h lt = (b, refl)
next_total fuel etag (again rest) n ih h lt = ih rest (omega arith)

check_loop_total :
    (fuel : ℕ) (etag buf : Bytes)
    → length buf < fuel
    → (b : Bool) × (check_loop fuel etag buf ≡ some b)
check_loop_total zero etag buf h = elim h [ ]
check_loop_total (suc fuel) etag buf h = rw (check_loop_step fuel etag buf) (
    next_total fuel etag (round etag (trim_string buf)) (length (trim_string buf))
      (check_loop_total fuel etag) (round-Shrinks etag (trim_string buf))
      (omega (arith, length-trim_string-le buf)))

-- `checkIfNoneMatch` returns, whatever the headers: a round of fuel for each byte is enough.
pub check_if_none_match_total :
    (w : Response) (r : Request) → (b : Bool) × (check_if_none_match w r ≡ some b)
unfolding check_if_none_match
check_if_none_match_total w r =
    elim (Bool-cases (equal (header_get r.header (codes "If-None-Match")) [])) [
      | inl e ↦ (false, rw e refl)
      | inr e ↦ rw e (
          check_loop_total (suc (length (header_get r.header (codes "If-None-Match"))))
            (header_get w.header (codes "Etag")) (header_get r.header (codes "If-None-Match"))
            (omega arith))
    ]
