-- ===== src/Base/Text.antt =====
-- A Go string is its bytes. Prefix and suffix tests, searching and slicing as in package strings;
-- letter case is ASCII's, so a text with other letters is compared byte by byte.
use Prim.Native.Char.{code}
use Prim.Native.String.{String}
use Prim.Native.Nat.{ℕ, zero, suc, ◌+◌, ◌-◌, ◌<◌}
use mathlib.Core.Path.{◌≡◌, refl}
use mathlib.Core.Logic.{◌≢◌, ◌↔◌}
use mathlib.Core.Bool.{Bool, true, false, ◌&&◌}
use mathlib.Core.Option
use mathlib.Core.Option.{Option, none, some}
use mathlib.Core.List.{List, [], ◌∷◌, ◌++◌, map}
use native.Mathlib.Omega.{arith}
use xun.Base.Tests.{leb, ◌==◌, if◌then◌else◌, Option-cases}
use xun.Base.Lists.{length, take, drop, All}

abbrev pub Bytes : Type 0
Bytes = List ℕ

-- The bytes of an ASCII literal.
abbrev pub codes : String → Bytes
codes String.[] = []
codes (String.◌∷◌ c s) = code c ∷ codes s

unfoldable pub equal : Bytes → Bytes → Bool
equal [] [] = true
equal (x ∷ a) (y ∷ b) = x == y && equal a b
equal _ _ = false

pub equal_iff : (s t : Bytes) → (equal s t ≡ true) ↔ (s ≡ t)
unfolding equal
equal_iff [] [] = ground arith
equal_iff [] (d ∷ t) = ground arith
equal_iff (c ∷ s) [] = ground arith
equal_iff (c ∷ s) (d ∷ t) = ground (arith, equal_iff s t)

pub equal_refl : (a : Bytes) → equal a a ≡ true
equal_refl a = (equal_iff a a).1 refl

pub equal_comm : (a b : Bytes) → equal a b ≡ equal b a
unfolding equal
equal_comm [] [] = refl
equal_comm (x ∷ a) (y ∷ b) = ground (arith, equal_comm a b)
equal_comm (x ∷ a) [] = refl
equal_comm [] (y ∷ b) = refl

-- strings.HasPrefix(s, prefix)
unfoldable pub has_prefix : Bytes → Bytes → Bool
has_prefix s [] = true
has_prefix [] (p ∷ ps) = false
has_prefix (c ∷ s) (p ∷ ps) = c == p && has_prefix s ps

pub has_prefix_append : (p s : Bytes) → has_prefix (p ++ s) p ≡ true
unfolding has_prefix
has_prefix_append [] s = refl
has_prefix_append (c ∷ p) s = ground (arith, has_prefix_append p s)

pub has_prefix_sound : (s p : Bytes) → has_prefix s p ≡ true → s ≡ p ++ drop (length p) s
unfolding has_prefix
has_prefix_sound s [] h = refl
has_prefix_sound [] (p ∷ ps) h = cc
has_prefix_sound (c ∷ s) (p ∷ ps) h = ground (arith, has_prefix_sound s ps)

-- strings.HasSuffix(s, suffix)
unfoldable pub has_suffix : Bytes → Bytes → Bool
unfolding equal
has_suffix s p = leb (length p) (length s) && equal (drop (length s - length p) s) p

-- strings.TrimPrefix and strings.TrimSuffix
unfoldable pub trim_prefix : Bytes → Bytes → Bytes
unfolding has_prefix
trim_prefix s p = if has_prefix s p then drop (length p) s else s

unfoldable pub trim_suffix : Bytes → Bytes → Bytes
unfolding has_suffix
trim_suffix s p = if has_suffix s p then take (length s - length p) s else s

-- strings.IndexByte; -1 is `none`
unfoldable pub index_byte : Bytes → ℕ → Option ℕ
index_byte [] b = none
index_byte (c ∷ s) b = if c == b then some 0 else Option.map suc (index_byte s b)

-- The text lacks a byte.
abbrev pub Lacks : ℕ → Bytes → Type 0
Lacks b = All (λ c. c ≢ b)

pub index_byte-Lacks : (s : Bytes) (b : ℕ) → Lacks b s → index_byte s b ≡ none
unfolding index_byte
index_byte-Lacks [] b h = refl
index_byte-Lacks (c ∷ s) b (p, h) = ground (arith, index_byte-Lacks s b h)

pub index_byte_append :
    (p s : Bytes) (b : ℕ) → Lacks b p → index_byte (p ++ b ∷ s) b ≡ some (length p)
unfolding index_byte
index_byte_append [] s b h = ground arith
index_byte_append (c ∷ p) s b (q, h) = ground (arith, index_byte_append p s b h)

pub index_byte-eq-none : (s : Bytes) (b : ℕ) → index_byte s b ≡ none → Lacks b s
unfolding index_byte
index_byte-eq-none [] b h = tt
index_byte-eq-none (c ∷ s) b h = ground (arith, index_byte-eq-none s b)

pub index_byte-eq-some :
    (s : Bytes) (b i : ℕ)
    → index_byte s b ≡ some i
    → (s ≡ take i s ++ b ∷ drop (suc i) s) × Lacks b (take i s) × (length (take i s) ≡ i)
unfolding index_byte
index_byte-eq-some [] b i h = cc
index_byte-eq-some (c ∷ s) b zero h = ground arith
index_byte-eq-some (c ∷ s) b (suc i) h = ground (arith, index_byte-eq-some s b i)

pub index_byte_append-Lacks :
    (p s : Bytes) (b : ℕ)
    → Lacks b p
    → index_byte (p ++ s) b ≡ Option.map (λ i. length p + i) (index_byte s b)
unfolding index_byte
index_byte_append-Lacks [] s b h = ground (arith, Option-cases (index_byte s b))
index_byte_append-Lacks (c ∷ p) s b (q, h) =
    ground (arith, index_byte_append-Lacks p s b h, Option-cases (index_byte s b))

pub index_byte_append_some :
    (p s : Bytes) (b i : ℕ) → index_byte p b ≡ some i → index_byte (p ++ s) b ≡ some i
unfolding index_byte
index_byte_append_some [] s b i h = cc
index_byte_append_some (c ∷ p) s b zero h = ground arith
index_byte_append_some (c ∷ p) s b (suc i) h = ground (arith, index_byte_append_some p s b i)

pub index_byte-lt : (s : Bytes) (b i : ℕ) → index_byte s b ≡ some i → i < length s
unfolding index_byte
index_byte-lt [] b i h = cc
index_byte-lt (c ∷ s) b zero h = omega arith
index_byte-lt (c ∷ s) b (suc i) h = ground (arith, index_byte-lt s b i)

pub not-Lacks-of-some : (s : Bytes) (b i : ℕ) → index_byte s b ≡ some i → ¬ Lacks b s
not-Lacks-of-some s b i e h = cc (index_byte-Lacks s b h)

-- The slice s[i:j], which panics out of range: a panic is `none`.
unfoldable pub slice : Bytes → ℕ → ℕ → Option Bytes
slice s i j = if leb i j && leb j (length s) then some (take (j - i) (drop i s)) else none

-- The byte s[len(s)-1]; the empty text panics.
unfoldable pub last_byte : Bytes → Option ℕ
last_byte [] = none
last_byte (c ∷ []) = some c
last_byte (c ∷ d ∷ s) = last_byte (d ∷ s)

pub last_byte_append : (p s : Bytes) (c : ℕ) → last_byte (p ++ c ∷ s) ≡ last_byte (c ∷ s)
unfolding last_byte
last_byte_append [] s c = refl
last_byte_append (d ∷ []) s c = refl
last_byte_append (d ∷ e ∷ p) s c = last_byte_append (e ∷ p) s c

-- strings.ToLower on ASCII
unfoldable pub lower : ℕ → ℕ
lower c = if leb b'A' c && leb c b'Z' then c + 32 else c

unfoldable pub to_lower : Bytes → Bytes
unfolding lower
to_lower s = map lower s

pub lower_idem : (c : ℕ) → lower (lower c) ≡ lower c
unfolding lower
lower_idem c = ground arith

pub to_lower_idem : (s : Bytes) → to_lower (to_lower s) ≡ to_lower s
unfolding to_lower
to_lower_idem [] = refl
to_lower_idem (c ∷ s) = cc (lower_idem c, to_lower_idem s)

-- strings.EqualFold on ASCII
unfoldable pub equal_fold : Bytes → Bytes → Bool
unfolding equal to_lower
equal_fold a b = equal (to_lower a) (to_lower b)
