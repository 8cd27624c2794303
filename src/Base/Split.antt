-- ===== src/Base/Split.antt =====
-- strings.Split at one byte, and strings.Join.
use Prim.Native.Nat.{ℕ}
use mathlib.Core.Path.{◌≡◌, refl}
use mathlib.Core.Logic.{◌≢◌}
use mathlib.Core.List.{List, [], ◌∷◌, ◌++◌}
use native.Mathlib.Omega.{arith}
use xun.Base.Tests.{◌==◌, if◌then◌else◌}
use xun.Base.Lists.{All}
use xun.Base.Text.{Bytes, Lacks}

abbrev pub onto_first : ℕ → List Bytes → List Bytes
onto_first c [] = (c ∷ []) ∷ []
onto_first c (p ∷ ps) = (c ∷ p) ∷ ps

unfoldable pub split : Bytes → ℕ → List Bytes
split [] sep = [] ∷ []
split (c ∷ s) sep = let rest = split s sep in if c == sep then [] ∷ rest else onto_first c rest

unfoldable pub join : List Bytes → Bytes → Bytes
join [] sep = []
join (p ∷ []) sep = p
join (p ∷ q ∷ ps) sep = p ++ (sep ++ join (q ∷ ps) sep)

pub split-Lacks : (s : Bytes) (sep : ℕ) → Lacks sep s → split s sep ≡ s ∷ []
unfolding split
split-Lacks [] sep h = refl
split-Lacks (c ∷ s) sep (p, h) = ground (arith, split-Lacks s sep h)

pub split-append :
    (p s : Bytes) (sep : ℕ) → Lacks sep p → split (p ++ sep ∷ s) sep ≡ p ∷ split s sep
unfolding split
split-append [] s sep h = ground arith
split-append (c ∷ p) s sep (q, h) = ground (arith, split-append p s sep h)

pub split-ne-nil : (s : Bytes) (sep : ℕ) → split s sep ≢ []
unfolding split
split-ne-nil [] sep = cc
split-ne-nil (c ∷ s) sep = ground arith

pub split-join :
    (ps : List Bytes) (sep : ℕ) → ps ≢ [] → All (Lacks sep) ps → split (join ps (sep ∷ [])) sep ≡ ps
unfolding join
split-join [] sep ne h = absurd (ne refl)
split-join (p ∷ []) sep ne (h, hs) = split-Lacks p sep h
split-join (p ∷ q ∷ ps) sep ne (h, hs) =
    rw (split-append p _ sep h) (rw (split-join (q ∷ ps) sep (cc) hs))

onto_first-join :
    (c : ℕ) (ps : List Bytes) (sep : Bytes) → ps ≢ [] → join (onto_first c ps) sep ≡ c ∷ join ps sep
unfolding join
onto_first-join c [] sep ne = absurd (ne refl)
onto_first-join c (p ∷ []) sep ne = refl
onto_first-join c (p ∷ q ∷ ps) sep ne = refl

join-nil-cons : (ps : List Bytes) (sep : Bytes) → ps ≢ [] → join ([] ∷ ps) sep ≡ sep ++ join ps sep
unfolding join
join-nil-cons [] sep ne = absurd (ne refl)
join-nil-cons (p ∷ ps) sep ne = refl

-- Joining what was split gives the text back.
pub join-split : (s : Bytes) (sep : ℕ) → join (split s sep) (sep ∷ []) ≡ s
unfolding split
join-split [] sep = unfold join in refl
join-split (c ∷ s) sep = ground (
  arith,
  join-split s sep,
  onto_first-join c (split s sep) (sep ∷ []) (split-ne-nil s sep),
  join-nil-cons (split s sep) (sep ∷ []) (split-ne-nil s sep),
)
