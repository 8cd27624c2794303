-- ===== src/Hsts/Defs.antt =====
-- ext/hsts/hsts.go and option.go. A duration is its nanoseconds; `split_host_port` is net's, and gives
-- the host alone.
use xun.Base.{
  ℕ, ◌/◌, ◌^◌, Bool, true, false, ◌||◌, ◌&&◌, not, Option, none, some, List, [], ◌∷◌, ◌++◌, Bytes,
  codes, ltb, equal, equal_fold, to_lower, has_prefix, map, any, if◌then◌else◌,
}
use xun.Http.{Request, header_get, write_header}
use xun.Context.{Interceptor, redirect}
use xun.App.{Middleware, cancelled}
use xun.Sse.Event.{itoa}

pub record Config : Type 0 where
  pub max_age : ℕ
  pub include_sub_domains : Bool
  pub preload : Bool

-- The configuration that WriteHeader begins with, of one year.
unfoldable pub default_config : Config
default_config = record { max_age = 31536000; include_sub_domains = false; preload = false }

-- WithMaxAge, WithIncludeSubDomains, WithPreload
unfoldable pub with_max_age : ℕ → Config → Config
with_max_age t c = if ltb 0 t then record c { max_age = t / 10 ^ 9 } else c

unfoldable pub with_include_sub_domains : Config → Config
with_include_sub_domains c = record c { include_sub_domains = true }

unfoldable pub with_preload : Config → Config
with_preload c = record c { preload = true }

unfoldable pub is_read : Bytes → Bool
unfolding equal
is_read method = equal method (codes "GET") || equal method (codes "HEAD")

unfoldable pub is_secure : Request → Bool
unfolding header_get equal
is_secure r = r.tls || equal (header_get r.header (codes "X-Forwarded-Proto")) (codes "https")

-- The value of the header.
unfoldable pub header_value : Config → Bytes
unfolding itoa
header_value cfg =
    codes "max-age="
    ++ itoa cfg.max_age
    ++ (if cfg.include_sub_domains then codes "; includeSubDomains" else [])
    ++ (if cfg.preload then codes "; preload" else [])

-- The function that WriteHeader returns.
unfoldable pub write_sts : Config → Middleware
unfolding is_secure is_read header_value write_header
write_sts cfg next c =
    if is_secure c.request && is_read c.request.method
    then next (record c {
      response = write_header c.response (codes "Strict-Transport-Security") (header_value cfg);
    })
    else next c

-- IgnoreRule, Match and StartsWith
abbrev pub IgnoreRule : Type 0
IgnoreRule = Request → Bool

unfoldable pub match_paths : List Bytes → IgnoreRule
unfolding equal_fold
match_paths paths r = any (λ path. equal_fold r.path path) paths

unfoldable pub starts_with : List Bytes → IgnoreRule
unfolding to_lower has_prefix
starts_with paths r = any (has_prefix (to_lower r.path)) (map to_lower paths)

module _ (split_host_port : Bytes → Option Bytes) where
  unfoldable pub strip_port : Bytes → Bytes
  strip_port host_port = elim (split_host_port host_port) [ none ↦ host_port | some host ↦ host ]

  -- Where a request is sent to.
  unfoldable pub target_of : Request → Bytes
  unfolding strip_port
  target_of r = codes "https://" ++ (strip_port r.host ++ r.request_uri)

  -- The function that Redirect returns, with the status 301.
  unfoldable pub redirect_to_https : Option Interceptor → List IgnoreRule → Middleware
  unfolding is_read target_of redirect
  redirect_to_https interceptor rules next c =
      if not c.request.tls && is_read c.request.method
      then if any (λ it. it c.request) rules then next c else (
        record c {
          response = redirect interceptor c.request c.response (target_of c.request) (301 ∷ []);
        },
        some cancelled,
      )
      else next c
