-- ===== src/Cookie/Bounds.antt =====
-- ext/cookie/cookie.go: the length of what is sent.
use xun.Base.{
  ℕ, ◌≤◌, Option, List, [], ◌∷◌, Bytes, ltb, equal, length, All, All-append, arith, inl, inr,
  Bool-cases,
}
use xun.Crypto.{Crypto}
use xun.Cookie.Defs.{CookieError, Cookie, Clock, send, encoded, set, sign_value, set_signed}

-- A call of Set or of SetSigned, the latter with a key and at an instant.
pub data Call : Type 0 where
  plain : Cookie → Call
  signed : Cookie → Bytes → ℕ → Call

module _ (k : Crypto) (clock : Clock) (show : Cookie → Bytes) where
  abbrev call : Call → List Cookie → List Cookie × Option CookieError
  call (plain v) cs = set k show v cs
  call (signed v secret_key ts) cs = set_signed k clock show v secret_key ts cs

  -- What a response sends after some calls.
  abbrev pub run : List Call → List Cookie → List Cookie
  run [] cs = cs
  run (c ∷ calls) cs = run calls (call c cs).0

  -- The cookie prints as at most 4096 bytes.
  abbrev pub Fits : Cookie → Type 0
  Fits v = length (show v) ≤ 4096

  set-Fits : (v : Cookie) (cs : List Cookie) → All Fits cs → All Fits (set k show v cs).0
  unfolding set send
  set-Fits v cs h = elim (Bool-cases (ltb 4096 (length (show (encoded k v))))) [
    | inl e ↦ rw (e, set) h
    | inr e ↦ elim (Bool-cases (equal (show (encoded k v)) [])) [
      | inl e' ↦ rw (e, set, e', send) h
      | inr e' ↦
          rw (e, set, e', send) (All-append Fits cs (encoded k v ∷ []) h (ground (arith, e), tt))
    ]
  ]

  run-Fits : (calls : List Call) (cs : List Cookie) → All Fits cs → All Fits (run calls cs)
  unfolding set_signed
  run-Fits [] cs h = h
  run-Fits (plain v ∷ calls) cs h = run-Fits calls (set k show v cs).0 (set-Fits v cs h)
  run-Fits (signed v secret_key ts ∷ calls) cs h =
      run-Fits calls (set_signed k clock show v secret_key ts cs).0
        (set-Fits (record v { value = (sign_value k clock secret_key v.name v.value ts).1 }) cs h)

  -- Whatever Set and SetSigned are called with, and in whatever order, no cookie that the response
  -- sends prints as more than 4096 bytes.
  pub run-length : (calls : List Call) → All Fits (run calls [])
  run-length calls = run-Fits calls [] tt
