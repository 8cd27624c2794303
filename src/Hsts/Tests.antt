-- ===== src/Hsts/Tests.antt =====
-- ext/hsts/: runs.
use xun.Base.{◌≡◌, refl, true, false, some, [], ◌∷◌, codes}
use xun.Http.{Request}
use xun.Hsts.Defs.{
  default_config, with_max_age, with_preload, header_value, match_paths, starts_with, target_of,
}

abbrev request : Request
request = record {
  method = codes "GET";
  path = codes "/Docs/a";
  request_uri = codes "/Docs/a?x=1";
  host = codes "a.com:80";
  remote_addr = codes "1.2.3.4:5";
  tls = false;
  header = [];
  cookies = [];
}

hsts_tests :
    (header_value (with_preload (with_max_age 3600000000000 default_config))
      ≡ codes "max-age=3600; preload")
    × (match_paths (codes "/docs/A" ∷ []) request ≡ true)
    × (starts_with (codes "/DOCS/" ∷ []) request ≡ true)
    × (target_of (λ s. some (codes "a.com")) request ≡ codes "https://a.com/Docs/a?x=1")
unfolding header_value with_preload with_max_age default_config match_paths starts_with target_of
hsts_tests = (refl, refl, refl, refl)
