-- ===== src/Base/Trim.antt =====
-- Trimming bytes off the ends of a text.
use Prim.Native.Nat.{ℕ, suc, ◌≤◌}
use mathlib.Core.Path.{◌≡◌, refl}
use mathlib.Core.Bool.{Bool, true, false, ◌&&◌, ◌||◌}
use mathlib.Core.Option.{some}
use mathlib.Core.List.{[], ◌∷◌, ◌++◌}
use mathlib.Core.Logic.{inl, inr}
use native.Mathlib.Omega.{arith}
use xun.Base.Tests.{Bool-cases, leb, ◌==◌, if◌then◌else◌}
use xun.Base.Lists.{length, All}
use xun.Base.Text.{Bytes, last_byte}

module _ (space : ℕ → Bool) where
  unfoldable pub trim_left : Bytes → Bytes
  trim_left [] = []
  trim_left (c ∷ s) = if space c then trim_left s else c ∷ s

  abbrev pub keep_left : ℕ → Bytes → Bytes
  keep_left c [] = if space c then [] else c ∷ []
  keep_left c (d ∷ s) = c ∷ d ∷ s

  unfoldable pub trim_right : Bytes → Bytes
  trim_right [] = []
  trim_right (c ∷ s) = keep_left c (trim_right s)

  unfoldable pub trim : Bytes → Bytes
  unfolding trim_left trim_right
  trim s = trim_right (trim_left s)

  pub length-trim_left-le : (s : Bytes) → length (trim_left s) ≤ length s
  unfolding trim_left
  length-trim_left-le [] = omega arith
  length-trim_left-le (c ∷ s) = ground (arith, length-trim_left-le s)

  length-keep_left-le : (c : ℕ) (s : Bytes) → length (keep_left c s) ≤ suc (length s)
  length-keep_left-le c [] = ground arith
  length-keep_left-le c (d ∷ s) = omega arith

  length-trim_right-le : (s : Bytes) → length (trim_right s) ≤ length s
  unfolding trim_right
  length-trim_right-le [] = omega arith
  length-trim_right-le (c ∷ s) =
      omega (arith, length-trim_right-le s, length-keep_left-le c (trim_right s))

  pub length-trim-le : (s : Bytes) → length (trim s) ≤ length s
  unfolding trim
  length-trim-le s = omega (arith, length-trim_right-le (trim_left s), length-trim_left-le s)

  -- No byte of the text is a space.
  abbrev pub IsSolid : Bytes → Type 0
  IsSolid = All (λ c. space c ≡ false)

  trim_right-IsSolid : (s : Bytes) → IsSolid s → trim_right s ≡ s
  unfolding trim_right
  trim_right-IsSolid [] h = refl
  trim_right-IsSolid (c ∷ []) (p, h) = ground arith
  trim_right-IsSolid (c ∷ d ∷ s) (p, h) = rw (trim_right-IsSolid (d ∷ s) h)

  pub trim-IsSolid : (s : Bytes) → IsSolid s → trim s ≡ s
  unfolding trim trim_left
  trim-IsSolid [] h = unfold trim_right in refl
  trim-IsSolid (c ∷ s) (p, h) = rw p (trim_right-IsSolid (c ∷ s) (p, h))

  pub trim_one : (c : ℕ) (s : Bytes) → space c ≡ true → trim (c ∷ s) ≡ trim s
  unfolding trim trim_left
  trim_one c s h = rw h

  -- A text whose last byte is no space keeps its right end; one whose first is none, its left.
  pub trim_right-last :
      (s : Bytes) (c : ℕ) → last_byte s ≡ some c → space c ≡ false → trim_right s ≡ s
  unfolding trim_right last_byte
  trim_right-last [] c h p = refl
  trim_right-last (d ∷ []) c h p = ground arith
  trim_right-last (d ∷ e ∷ s) c h p = rw (trim_right-last (e ∷ s) c h p)

  pub trim-ends :
      (b : ℕ) (s : Bytes) (c : ℕ)
      → space b ≡ false
      → last_byte (b ∷ s) ≡ some c
      → space c ≡ false
      → trim (b ∷ s) ≡ b ∷ s
  unfolding trim trim_left
  trim-ends b s c p h q = rw p (trim_right-last (b ∷ s) c h q)

  -- A space at the right end is trimmed off.
  trim_right_one : (s : Bytes) (c : ℕ) → space c ≡ true → trim_right (s ++ c ∷ []) ≡ trim_right s
  unfolding trim_right
  trim_right_one [] c h = rw h refl
  trim_right_one (b ∷ s) c h = rw (trim_right_one s c h) refl

  pub trim_last : (s : Bytes) (c : ℕ) → space c ≡ true → trim (s ++ c ∷ []) ≡ trim s
  unfolding trim trim_left
  trim_last [] c h = rw h refl
  trim_last (b ∷ s) c h = elim (Bool-cases (space b)) [
    | inl e ↦ rw e (trim_last s c h)
    | inr e ↦ rw e (trim_right_one (b ∷ s) c h)
  ]

  -- The text is its own trimming.
  abbrev pub IsTrimmed : Bytes → Type 0
  IsTrimmed s = trim s ≡ s

-- unicode.IsSpace on ASCII, for strings.TrimSpace and strings.Fields
unfoldable pub is_space : ℕ → Bool
is_space c = c == b' ' || leb b'\t' c && leb c b'\r'

-- the spaces of textproto.TrimString
unfoldable pub is_ascii_space : ℕ → Bool
is_ascii_space c = c == b' ' || c == b'\t' || c == b'\n' || c == b'\r'

unfoldable pub trim_space : Bytes → Bytes
unfolding trim is_space
trim_space s = trim is_space s
