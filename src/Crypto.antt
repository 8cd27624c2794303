-- ===== src/Crypto.antt =====
-- What ext/cookie/ and ext/csrf/ call of crypto/hmac and encoding/base64, and net/http's Cookie of a
-- request.
pub mod Sample
use xun.Base.{◌≡◌, Option, none, some, [], ◌∷◌, Bytes, lookup}
use xun.Http.{Request}

-- HMAC-SHA256 with a key, and the URL encoding.
pub record Crypto : Type 0 where
  pub hmac : Bytes → Bytes → Bytes
  pub encode : Bytes → Bytes
  pub decode : Bytes → Option Bytes

-- Decoding gives back what was encoded.
abbrev pub Decodes : Crypto → Type 0
Decodes k = (s : Bytes) → k.decode (k.encode s) ≡ some s

-- Request.Cookie: no cookie has the empty name; `none` is ErrNoCookie.
unfoldable pub request_cookie : Request → Bytes → Option Bytes
unfolding lookup
request_cookie req [] = none
request_cookie req (c ∷ name) = lookup (c ∷ name) req.cookies
