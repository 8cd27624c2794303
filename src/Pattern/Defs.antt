-- ===== src/Pattern/Defs.antt =====
-- pattern.go: `splitPattern` and `splitFile`.
use xun.Base.{
  ℕ, suc, Bool, ◌||◌, Option, none, some, [], ◌∷◌, ◌++◌, Bytes, codes, ◌==◌, if◌then◌else◌,
  index_byte, slice, last_byte, trim_left, take, drop,
}
use mathlib.Core.Option

pub record PatternParts : Type 0 where
  pub method : Bytes
  pub host : Bytes
  pub rest : Bytes

-- The bytes " \t".
unfoldable pub is_blank : ℕ → Bool
is_blank c = c == b' ' || c == b'\t'

-- strings.IndexAny(s, " \t")
unfoldable pub index_blank : Bytes → Option ℕ
unfolding is_blank
index_blank [] = none
index_blank (c ∷ s) = if is_blank c then some 0 else Option.map suc (index_blank s)

unfoldable pub split_host : Bytes → Bytes → PatternParts
unfolding index_byte
split_host method rest = elim (index_byte rest b'/') [
  | none ↦ record { method = method; host = []; rest = rest }
  | some i ↦ record { method = method; host = take i rest; rest = drop (suc i) rest }
]

unfoldable pub split_pattern : Bytes → PatternParts
unfolding is_blank index_blank trim_left split_host
split_pattern [] = record { method = []; host = []; rest = [] }
split_pattern (c ∷ s) = elim (index_blank (c ∷ s)) [
  | none ↦ split_host [] (c ∷ s)
  | some i ↦ split_host (take i (c ∷ s)) (trim_left is_blank (drop (suc i) (c ∷ s)))
]

pub record FileParts : Type 0 where
  pub host : Bytes
  pub path : Bytes
  pub pattern : Bytes

-- What the deferred function of `splitFile` adds to a pattern that ends in a slash.
unfoldable pub slash_end : Bytes → Bytes
unfolding last_byte
slash_end s = elim (last_byte s) [ none ↦ [] | some c ↦ if c == b'/' then codes "{$}" else [] ]

abbrev pub finish : Bytes → Bytes → Bytes → FileParts
finish host path pattern = record {
  host = host;
  path = path;
  pattern = pattern ++ slash_end pattern;
}

-- The rest of `splitFile` once '@' is found at `i`: `e` is where the first slash is. The slice
-- s[i+1:e] panics when there is no slash (e is -1) or the slash comes first.
unfoldable pub split_host_file : Bytes → ℕ → Option ℕ → Option FileParts
unfolding slice slash_end
split_host_file s i none = none
split_host_file s i (some e) = elim (slice s (suc i) e) [
  | none ↦ none
  | some host ↦ some (finish host (b'/' ∷ drop (suc e) s) (codes "GET " ++ drop (suc i) s))
]

-- `none` is a panic.
unfoldable pub split_file : Bytes → Option FileParts
unfolding index_byte split_host_file slash_end
split_file [] = some (finish [] [] (codes "GET /"))
split_file (c ∷ s) = elim (index_byte (c ∷ s) b'@') [
  | none ↦ some (finish [] (b'/' ∷ c ∷ s) (codes "GET /" ++ (c ∷ s)))
  | some i ↦ split_host_file (c ∷ s) i (index_byte (c ∷ s) b'/')
]
