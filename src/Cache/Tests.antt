-- ===== src/Cache/Tests.antt =====
-- ext/cache/: runs, and the theorems at concrete inputs.
use xun.Base.{◌≡◌, refl, true, false, [], ◌∷◌, ◌/◌, ◌^◌, codes, none}
use xun.Http.{new_response, write_header}
use xun.Sse.Event.{itoa}
use xun.App.{Context, HandleFunc}
use xun.Cache.Defs.{Rule, matches, add_rule, new}
use xun.Cache.FirstRule.{BeginsWith, EndsWith, matches_iff, new-first}

abbrev css : Rule
css = record { starts_with = codes "/Assets/"; ends_with = codes ".css"; duration = 5000000000 }

abbrev all_assets : Rule
all_assets = record { starts_with = codes "/assets/"; ends_with = []; duration = 1000000000 }

cache_tests :
    (matches css (codes "/assets/a.CSS") ≡ true)
    × (matches css (codes "/assets/a.js") ≡ false)
    × (add_rule [] [] 5 [] ≡ [])
    × (add_rule (codes "/") [] 0 [] ≡ [])
unfolding matches add_rule
cache_tests = (refl, refl, refl, refl)

matches_iff_example :
    BeginsWith (codes "/Assets/") (codes "/assets/a.CSS")
    × EndsWith (codes ".css") (codes "/assets/a.CSS")
unfolding matches
matches_iff_example = (matches_iff css (codes "/assets/a.CSS")).0 refl

abbrev context : Context
context = record {
  request = record {
    method = codes "GET";
    path = codes "/assets/a.js";
    request_uri = codes "/assets/a.js";
    host = codes "a.com";
    remote_addr = codes "1.2.3.4:5";
    tls = false;
    header = [];
    cookies = [];
  };
  response = new_response;
  viewers = [];
  app_viewers = [];
  temp_data = [];
}

abbrev done : HandleFunc
done c = (c, none)

new-first_example :
    new (λ d. d / 10 ^ 9) (css ∷ all_assets ∷ []) done context
    ≡ done (record context {
      response = write_header new_response (codes "Cache-Control") (codes "public, max-age=1");
    })
unfolding matches itoa
new-first_example =
    (new-first (λ d. d / 10 ^ 9) (css ∷ []) [] all_assets done context (refl, tt)).1 refl
