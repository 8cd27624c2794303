-- ===== src/Acl/OnePass.antt =====
-- ext/acl/config.go: the nested loops read the lines in one pass.
use xun.Base.{
  ℕ, zero, suc, ◌<◌, ◌≡◌, refl, ◌∙◌, Option, none, some, List, [], ◌∷◌, ◌⊎◌, Bytes, codes, length,
  equal, if◌then◌else◌, arith, inl, inr, Bool-cases,
}
use xun.Acl.Options.{Net, Options}
use xun.Acl.Config.{
  Section, section_na, remove_spaces, is_skipped, load_line, switch, set_redirect, starts_section,
  load_host_redirect, enter, load_sections,
}

-- The lines that loadLine gives, all of them.
unfoldable pub entries : List Bytes → List Bytes
unfolding is_skipped remove_spaces
entries [] = []
entries (t ∷ ls) =
    let rest = entries ls in if is_skipped (remove_spaces t) then rest else remove_spaces t ∷ rest

-- What loadLine gives is the first of the entries, with the others behind it.
load_line-entries :
    (ls : List Bytes)
    → ((load_line ls ≡ none) × (entries ls ≡ []))
      ⊎ ((l : Bytes) × (rest : List Bytes) × (load_line ls ≡ some (l, rest))
          × (entries ls ≡ l ∷ entries rest)
          × (length rest < length ls))
unfolding load_line entries
load_line-entries [] = inl (refl, refl)
load_line-entries (t ∷ ls) = elim (Bool-cases (is_skipped (remove_spaces t))) [
  | inr e ↦ inr (remove_spaces t, ls, rw e refl, rw e refl, omega arith)
  | inl e ↦ elim (load_line-entries ls) [
    | inl (p, q) ↦ inl (rw e p, rw e q)
    | inr (l, rest, p, q, r) ↦ inr (l, rest, rw e p, rw e q, omega (arith, r))
  ]
]

-- Where the reader is: in a section, or between the keys of [host_redirect].
pub data Place : Type 0 where
  within : Section → Place
  redirecting : Place

module _ (net : Net) where
  abbrev pub leave : Section × Options → Place × Options
  leave (section, o) = (within section, o)

  -- What one entry does.
  unfoldable pub step : Place → Bytes → Options → Place × Options
  unfolding equal switch starts_section set_redirect
  step (within section) l o =
      if equal l (codes "[host_redirect]") then (redirecting, o) else leave (switch net section l o)
  step redirecting l o =
      if starts_section l
      then leave (switch net section_na l o)
      else (redirecting, set_redirect net l o)

  -- All entries, one after another.
  unfoldable pub pass : Place → List Bytes → Options → Options
  unfolding step
  pass p [] o = o
  pass p (l ∷ ls) o = let (p', o') = step p l o in pass p' ls o'

  -- What the loop does with the line that loadHostRedirect gives back.
  abbrev resume : ℕ → Option (Bytes × List Bytes × Options) → Option Options
  resume n none = none
  resume n (some (l, ls, o)) =
      let (section, o') = switch net section_na l o in load_sections net n section ls o'

  abbrev with_na :
      Option (Bytes × List Bytes × Options) → Option (Section × Bytes × List Bytes × Options)
  with_na none = none
  with_na (some (l, ls, o)) = some (section_na, l, ls, o)

  abbrev go_on : ℕ → Option (Section × Bytes × List Bytes × Options) → Option Options
  go_on n none = none
  go_on n (some (section, l, ls, o)) =
      let (section', o') = switch net section l o in load_sections net n section' ls o'

  resume-enter :
      (n : ℕ) (x : Option (Bytes × List Bytes × Options)) → go_on n (with_na x) ≡ resume n x
  resume-enter n none = refl
  resume-enter n (some (l, ls, o)) = refl

  -- The fuel is enough for the loop over the sections.
  abbrev Enough : ℕ → Type 0
  Enough n =
      (section : Section) (ls : List Bytes) (o : Options)
      → length ls < n
      → load_sections net n section ls o ≡ some (pass (within section) (entries ls) o)

  redirect-pass :
      (n : ℕ)
      → Enough n
      → (k : ℕ) (ls : List Bytes) (o : Options) → length ls < k
      → length ls < n
      → resume n (load_host_redirect net k ls o) ≡ some (pass redirecting (entries ls) o)
  unfolding load_host_redirect pass switch entries
  redirect-pass n enough zero ls o h g = absurd (omega (arith, h))
  redirect-pass n enough (suc k) ls o h g = elim (load_line-entries ls) [
    | inl (p, q) ↦ rw (p, load_host_redirect, q) (enough section_na [] o (omega (arith, g)))
    | inr (l, rest, p, q, r) ↦ elim (Bool-cases (starts_section l)) [
      | inl e ↦
          rw (p, load_host_redirect, q, pass, e)
            (enough (switch net section_na l o).0 rest (switch net section_na l o).1
              (omega (arith, g, r)))
      | inr e ↦
          rw (p, load_host_redirect, q, pass, e)
            (redirect-pass n enough k rest (set_redirect net l o) (omega (arith, h, r))
              (omega (arith, g, r)))
    ]
  ]

  -- Where there is more fuel than lines, the loops over the lines of a file return, and what they
  -- return is the one pass over the entries of the file.
  pub load_sections-pass :
      (n : ℕ) (section : Section) (ls : List Bytes) (o : Options)
      → length ls < n
      → load_sections net n section ls o ≡ some (pass (within section) (entries ls) o)
  unfolding load_sections enter pass entries
  load_sections-pass zero section ls o h = absurd (omega (arith, h))
  load_sections-pass (suc n) section ls o h = elim (load_line-entries ls) [
    | inl (p, q) ↦ rw (p, load_sections, q) refl
    | inr (l, rest, p, q, r) ↦ elim (Bool-cases (equal l (codes "[host_redirect]"))) [
      | inr e ↦
          rw (p, load_sections, q, pass, e)
            (load_sections-pass n (switch net section l o).0 rest (switch net section l o).1
              (omega (arith, h, r)))
      | inl e ↦
          rw (p, load_sections, q, pass, e)
            (resume-enter n (load_host_redirect net n rest o)
              ∙ redirect-pass n (load_sections-pass n) n rest o (omega (arith, h, r))
                  (omega (arith, h, r)))
    ]
  ]
