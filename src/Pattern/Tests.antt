-- ===== src/Pattern/Tests.antt =====
-- pattern.go: runs, and the theorems at concrete inputs.
use xun.Base.{◌++◌, ◌∷◌, Bytes, ◌≡◌, refl, ◌↔◌, [], none, some, codes}
use xun.Pattern.Defs.{split_file, split_pattern, is_blank, FileParts}
use xun.Pattern.Panics.{IsMisplaced, split_file-eq-none_iff}
use xun.Pattern.RoundTrip.{EndsInSlash, split_pattern-split_file}

abbrev host_file : FileParts
host_file = record {
  host = codes "abc.com";
  path = codes "/docs/";
  pattern = codes "GET abc.com/docs/{$}";
}

split_file_tests :
    (split_file (codes "@abc.com/docs/") ≡ some host_file)
    × (split_file [] ≡ some (record { host = []; path = []; pattern = codes "GET /{$}" }))
    × (split_file (codes "a/b.css")
        ≡ some (record { host = []; path = codes "/a/b.css"; pattern = codes "GET /a/b.css" }))
    × (split_file (codes "logo@2x.png") ≡ none)
unfolding split_file
split_file_tests = (refl, refl, refl, refl)

split_pattern_tests :
    (split_pattern (codes "POST  \tabc.com/x/y")
      ≡ record { method = codes "POST"; host = codes "abc.com"; rest = codes "x/y" })
    × (split_pattern (codes "/x") ≡ record { method = []; host = []; rest = codes "x" })
unfolding split_pattern
split_pattern_tests = (refl, refl)

split_file-eq-none_iff_example :
    (split_file (codes "img/logo@2x.png") ≡ none) ↔ IsMisplaced (codes "img/logo@2x.png")
split_file-eq-none_iff_example = split_file-eq-none_iff (codes "img/logo@2x.png")

split_pattern-split_file_example :
    let parts = split_pattern (codes "GET abc.com/docs/{$}") in
    (parts.method ≡ codes "GET")
    × (parts.host ≡ codes "abc.com")
    × ((rest : Bytes) × (codes "/docs/" ≡ b'/' ∷ rest)
        × (EndsInSlash (codes "/docs/") → parts.rest ≡ rest ++ codes "{$}")
        × (¬ EndsInSlash (codes "/docs/") → parts.rest ≡ rest))
unfolding split_file is_blank
split_pattern-split_file_example =
    split_pattern-split_file (codes "@abc.com/docs/") host_file (λ e. cc) refl refl
