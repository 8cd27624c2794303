-- ===== src/Csrf/Defs.antt =====
-- ext/csrf/option.go, token.go and the middleware of csrf.go. The random bytes of a token are an
-- argument, where reading them may fail.
use xun.Base.{
  Bool, true, false, not, ◌||◌, Option, none, some, List, [], ◌∷◌, ◌++◌, Bytes, codes, equal, split,
  if◌then◌else◌,
}
use xun.Http.{Request, Response, set_cookie, write_status}
use xun.App.{Context, Middleware, cancelled}
use xun.Crypto.{Crypto, request_cookie}

pub record Options : Type 0 where
  pub secret_key : Bytes
  pub cookie_name : Bytes
  pub js_token : Bool

-- The options that New and HandleFunc begin with.
unfoldable pub default_options : Bytes → Options
default_options secret_key = record {
  secret_key = secret_key;
  cookie_name = codes "csrf_token";
  js_token = false;
}

-- WithCookie and WithJsToken
unfoldable pub with_cookie : Bytes → Options → Options
with_cookie [] o = o
with_cookie (c ∷ name) o = record o { cookie_name = c ∷ name }

unfoldable pub with_js_token : Options → Options
with_js_token o = record o { js_token = true }

-- The methods that change nothing.
unfoldable pub is_safe : Bytes → Bool
unfolding equal
is_safe method =
    equal method (codes "GET") || equal method (codes "HEAD") || equal method (codes "OPTIONS")

module _ (k : Crypto) where
  abbrev is_hmac : Bytes → Bytes → Option Bytes → Bool
  is_hmac secret_key random_bytes none = false
  is_hmac secret_key random_bytes (some actual) = equal (k.hmac secret_key random_bytes) actual

  -- The parts of a token: the random bytes and their signature.
  unfoldable pub verify_parts : Bytes → List Bytes → Bool
  unfolding equal
  verify_parts secret_key (a ∷ b ∷ []) = elim (k.decode a) [
    | none ↦ false
    | some random_bytes ↦ is_hmac secret_key random_bytes (k.decode b)
  ]
  verify_parts secret_key [] = false
  verify_parts secret_key (a ∷ []) = false
  verify_parts secret_key (a ∷ b ∷ c ∷ parts) = false

  -- The test of the script's cookie, where it is asked for.
  unfoldable pub verify_js_token : Bytes → Request → Options → Bool
  unfolding request_cookie equal
  verify_js_token token r o =
      if o.js_token
      then elim (request_cookie r (codes "js_" ++ o.cookie_name)) [
        | none ↦ false
        | some js_token ↦ equal token js_token
      ]
      else true

  -- verifyToken: the cookie's value, or `none` for no cookie
  unfoldable pub verify_token : Option Bytes → Request → Options → Bool
  unfolding verify_js_token verify_parts split
  verify_token none r o = false
  verify_token (some token) r o =
      if not (verify_js_token token r o)
      then false
      else verify_parts o.secret_key (split token b'.')

  -- generateToken: the value of the cookie
  unfoldable pub generate_token : Option Bytes → Options → Option Bytes
  generate_token none o = none
  generate_token (some random_bytes) o =
      some (k.encode random_bytes ++ b'.' ∷ k.encode (k.hmac o.secret_key random_bytes))

module _ (k : Crypto) (is_valid_name : Bytes → Bool) where
  -- setTokenCookie. http.SetCookie sends nothing for a name that is not valid for a cookie, by
  -- net/http's test, which is a parameter.
  unfoldable pub set_token_cookie : Option Bytes → Options → Response → Response
  unfolding generate_token set_cookie
  set_token_cookie random o rw = elim (generate_token k random o) [
    | none ↦ rw
    | some token ↦ if is_valid_name o.cookie_name then set_cookie rw o.cookie_name token else rw
  ]

  -- The branch for those methods.
  unfoldable pub give_token : Option Bytes → Options → Context → Context
  unfolding request_cookie set_token_cookie
  give_token random o c = elim (request_cookie c.request o.cookie_name) [
    | some token ↦ c
    | none ↦ record c { response = set_token_cookie random o c.response }
  ]

  -- The function that New returns, with what a call of rand.Read would give.
  unfoldable pub check : Option Bytes → Options → Middleware
  unfolding request_cookie is_safe give_token verify_token write_status
  check random o next c =
      if is_safe c.request.method
      then next (give_token random o c)
      else if not (verify_token k (request_cookie c.request o.cookie_name) c.request o)
      then (record c { response = write_status c.response 418 }, some cancelled)
      else next c
