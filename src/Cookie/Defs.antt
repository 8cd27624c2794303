-- ===== src/Cookie/Defs.antt =====
-- ext/cookie/cookie.go. `show` is what http.Cookie's String prints, and the cookies that a response
-- sends are a list, oldest first. An instant is its nanoseconds since 1970.
use xun.Base.{
  ℕ, ◌+◌, not, Option, none, some, List, [], ◌∷◌, ◌++◌, Bytes, ltb, equal, length, take, drop,
  if◌then◌else◌,
}
use xun.Http.{Request}
use xun.Sse.Event.{ℤ, negsuc}
use xun.Crypto.{Crypto, request_cookie}

pub data CookieError : Type 0 where
  no_cookie value_too_long invalid_value : CookieError

-- http.Cookie; the attributes that the package leaves alone are one text.
pub record Cookie : Type 0 where
  pub name : Bytes
  pub value : Bytes
  pub expires : Option ℕ
  pub max_age : ℤ
  pub attributes : Bytes

-- Format and Parse with time.RFC3339, of an instant in UTC.
pub record Clock : Type 0 where
  pub format : ℕ → Bytes
  pub parse : Bytes → Option ℕ

-- A value or an error.
pub data Outcome (A : Type 0) : Type 0 where
  done : A → Outcome A
  failed : CookieError → Outcome A

-- http.SetCookie: a cookie that prints as nothing, whose name is invalid, is not sent.
unfoldable pub send : (Cookie → Bytes) → Cookie → List Cookie → List Cookie
unfolding equal
send show v cs = if equal (show v) [] then cs else cs ++ v ∷ []

-- Delete
unfoldable pub delete_cookie : (Cookie → Bytes) → Cookie → List Cookie → List Cookie
unfolding send
delete_cookie show v cs =
    send show (record v { expires = some 0; max_age = negsuc 0; value = [] }) cs

module _ (k : Crypto) where
  abbrev pub encoded : Cookie → Cookie
  encoded v = record v { value = k.encode v.value }

  -- Set
  unfoldable pub set : (Cookie → Bytes) → Cookie → List Cookie → List Cookie × Option CookieError
  unfolding send
  set show v cs =
      if ltb 4096 (length (show (encoded v)))
      then (cs, some value_too_long)
      else (send show (encoded v) cs, none)

  abbrev decoded : Option Bytes → Outcome Bytes
  decoded none = failed invalid_value
  decoded (some value) = done value

  -- Get
  unfoldable pub get : Request → Bytes → Outcome Bytes
  unfolding request_cookie
  get req name = elim (request_cookie req name) [
    | none ↦ failed no_cookie
    | some v ↦ decoded (k.decode v)
  ]

  module _ (clock : Clock) where
    -- signValue: the signature and the signed value
    unfoldable pub sign_value : Bytes → Bytes → Bytes → ℕ → Bytes × Bytes
    sign_value secret_key name value ts =
        let v = clock.format ts in
        let signature = k.hmac secret_key (name ++ (v ++ value)) in
        (signature, signature ++ (v ++ value))

    -- SetSigned, at the instant `ts`
    unfoldable pub set_signed :
        (Cookie → Bytes) → Cookie → Bytes → ℕ → List Cookie → List Cookie × Option CookieError
    unfolding sign_value set
    set_signed show v secret_key ts cs =
        set show (record v { value = (sign_value secret_key v.name v.value ts).1 }) cs

    -- The last test of GetSigned.
    unfoldable pub verify : Bytes → Bytes → Bytes → Bytes → ℕ → Outcome (Bytes × ℕ)
    unfolding sign_value equal
    verify secret_key name signature value ts =
        if not (equal signature (sign_value secret_key name value ts).0)
        then failed invalid_value
        else done (value, ts)

    -- GetSigned behind Get.
    unfoldable pub open_signed : Bytes → Bytes → Bytes → Outcome (Bytes × ℕ)
    unfolding verify
    open_signed name secret_key signed =
        if ltb (length signed) (32 + 20)
        then failed invalid_value
        else elim (clock.parse (take 20 (drop 32 signed))) [
          | none ↦ failed invalid_value
          | some ts ↦ verify secret_key name (take 32 signed) (drop (32 + 20) signed) ts
        ]

    -- GetSigned
    unfoldable pub get_signed : Request → Bytes → Bytes → Outcome (Bytes × ℕ)
    unfolding get open_signed
    get_signed req name secret_key = elim (get req name) [
      | failed e ↦ failed e
      | done signed ↦ open_signed name secret_key signed
    ]
