-- ===== src/Csrf/Tests.antt =====
-- ext/csrf/: runs, and the theorems at concrete inputs.
use xun.Base.{Bool, ◌≡◌, refl, inl, inr, true, false, none, some, [], ◌∷◌, Bytes, Dict, codes}
use xun.Http.{new_response, set_cookie, write_status}
use xun.App.{Context, HandleFunc, cancelled}
use xun.Crypto.{request_cookie}
use xun.Crypto.Sample.{sample, sample-Decodes, sample-Lacks}
use xun.Csrf.Defs.{
  Options, default_options, with_cookie, with_js_token, is_safe, verify_token, check,
}
use xun.Csrf.Token.{token_of, IsGenuine, check-token_of, check-not-IsGenuine}

abbrev context_for : Bytes → Dict Bytes → Context
context_for method cookies = record {
  request = record {
    method = method;
    path = codes "/";
    request_uri = codes "/";
    host = codes "a.com";
    remote_addr = codes "1.2.3.4:5";
    tls = false;
    header = [];
    cookies = cookies;
  };
  response = new_response;
  viewers = [];
  app_viewers = [];
  temp_data = [];
}

abbrev done : HandleFunc
done c = (c, none)

abbrev named : Options
unfolding default_options with_cookie
named = with_cookie (codes "t") (default_options (codes "key"))

abbrev with_script : Options
unfolding with_js_token
with_script = with_js_token named

abbrev token : Bytes
token = token_of sample named (1 ∷ 2 ∷ [])

-- A test of names that stands in for net/http's.
abbrev not_empty : Bytes → Bool
not_empty [] = false
not_empty (c ∷ name) = true

csrf_tests :
    (verify_token sample (some token) (context_for [] []).request named ≡ true)
    × (verify_token sample (some (codes "a.b")) (context_for [] []).request named ≡ false)
    × (verify_token sample (some (codes "ab")) (context_for [] []).request named ≡ false)
    × (verify_token sample (some token) (context_for [] []).request with_script ≡ false)
unfolding verify_token default_options with_cookie with_js_token
csrf_tests = (refl, refl, refl, refl)

abbrev carrying : Context
carrying = context_for (codes "POST") ((codes "t", token) ∷ [])

check-token_of_example :
    (check sample not_empty (some (1 ∷ 2 ∷ [])) named done (context_for (codes "GET") [])
      ≡ done (record (context_for (codes "GET") []) {
        response = set_cookie new_response named.cookie_name token;
      }))
    × (check sample not_empty none named done carrying ≡ done carrying)
unfolding default_options with_cookie is_safe request_cookie
check-token_of_example =
    check-token_of sample not_empty named (1 ∷ 2 ∷ []) none done (context_for (codes "GET") [])
      carrying refl sample-Decodes sample-Lacks refl refl refl (inl refl)

not-IsGenuine : ¬ IsGenuine sample with_script carrying.request
unfolding default_options with_cookie with_js_token request_cookie
not-IsGenuine (a, b, random, e, da, db, inl j) = cc
not-IsGenuine (a, b, random, e, da, db, inr j) = cc

check-not-IsGenuine_example :
    check sample not_empty none with_script done carrying
    ≡ (record carrying { response = write_status new_response 418 }, some cancelled)
unfolding is_safe
check-not-IsGenuine_example =
    check-not-IsGenuine sample not_empty none with_script done carrying refl not-IsGenuine
