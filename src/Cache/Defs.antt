-- ===== src/Cache/Defs.antt =====
-- ext/cache/option.go and cache.go: rules and the middleware.
-- A duration is its nanoseconds. Duration.Seconds gives a float64, so that `seconds`, the integer that
-- its conversion by int gives, is a parameter: it is not always the seconds rounded down.
use xun.Base.{
  ℕ, ◌-◌, Bool, true, false, not, ◌&&◌, ◌||◌, List, [], ◌∷◌, ◌++◌, Bytes, codes, length, take, drop,
  ltb, equal, equal_fold, if◌then◌else◌,
}
use xun.Http.{write_header}
use xun.App.{Context, Middleware}
use xun.Sse.Event.{itoa}

pub record Rule : Type 0 where
  pub starts_with : Bytes
  pub ends_with : Bytes
  pub duration : ℕ

-- hasPrefix and hasSuffix, up to the case of letters
unfoldable pub has_prefix : Bytes → Bytes → Bool
unfolding equal_fold
has_prefix s prefix =
    if ltb (length s) (length prefix) then false else equal_fold (take (length prefix) s) prefix

unfoldable pub has_suffix : Bytes → Bytes → Bool
unfolding equal_fold
has_suffix s suffix =
    if ltb (length s) (length suffix)
    then false
    else equal_fold (drop (length s - length suffix) s) suffix

-- Match of a rule
unfoldable pub matches : Rule → Bytes → Bool
unfolding has_prefix has_suffix equal
matches r path =
    if not (equal r.starts_with []) && not (has_prefix path r.starts_with)
    then false
    else if not (equal r.ends_with []) && not (has_suffix path r.ends_with)
    then false
    else true

-- The option Match
unfoldable pub add_rule : Bytes → Bytes → ℕ → List Rule → List Rule
unfolding equal
add_rule starts_with ends_with duration rules =
    if (not (equal starts_with []) || not (equal ends_with [])) && ltb 0 duration
    then rules
      ++ record { starts_with = starts_with; ends_with = ends_with; duration = duration } ∷ []
    else rules

abbrev pub cache_control : (seconds : ℕ → ℕ) → Rule → Context → Context
cache_control seconds r c = record c {
  response =
      write_header c.response (codes "Cache-Control")
        (codes "public, max-age=" ++ itoa (seconds r.duration));
}

-- The loop over the rules.
unfoldable pub apply_rules : (seconds : ℕ → ℕ) → List Rule → Context → Context
unfolding matches write_header itoa
apply_rules seconds [] c = c
apply_rules seconds (r ∷ rs) c =
    let rest = apply_rules seconds rs c in
    if matches r c.request.path then cache_control seconds r c else rest

-- New: the middleware
unfoldable pub new : (seconds : ℕ → ℕ) → List Rule → Middleware
unfolding apply_rules
new seconds rules next c = next (apply_rules seconds rules c)
