-- ===== src/Csrf/Token.antt =====
-- ext/csrf/: a token that was given out is taken, and without a genuine one no request that changes
-- something reaches the handler.
use mathlib.Core.Path.{subst}
use xun.Base.{
  Bool, ◌≡◌, refl, sym, ap, ◌∙◌, ◌⊎◌, inl, inr, true, false, Option, none, some, List, [], ◌∷◌,
  ◌++◌, Bytes, codes, equal_iff, equal_refl, Lacks, split, split-append, split-Lacks, join,
  join-split, Bool-cases, Option-cases,
}
use xun.Http.{Request, set_cookie, write_status}
use xun.App.{Context, HandleFunc, cancelled}
use xun.Crypto.{Crypto, Decodes, request_cookie}
use xun.Csrf.Defs.{
  Options, is_safe, verify_parts, verify_js_token, verify_token, generate_token, set_token_cookie,
  give_token, check,
}

-- The script has copied the token, where it is asked for.
abbrev pub Copied : Options → Request → Bytes → Type 0
Copied o r token =
    (o.js_token ≡ false) ⊎ (request_cookie r (codes "js_" ++ o.cookie_name) ≡ some token)

module _ (k : Crypto) where
  -- The token of some random bytes.
  abbrev pub token_of : Options → Bytes → Bytes
  token_of o random = k.encode random ++ b'.' ∷ k.encode (k.hmac o.secret_key random)

  Copied-verify :
      (o : Options) (r : Request) (token : Bytes)
      → Copied o r token
      → verify_js_token k token r o ≡ true
  unfolding verify_js_token
  Copied-verify o r token (inl e) = rw (e, verify_js_token) refl
  Copied-verify o r token (inr e) = elim (Bool-cases o.js_token) [
    | inl j ↦ rw (j, e, verify_js_token) (equal_refl token)
    | inr j ↦ rw (j, verify_js_token) refl
  ]

  verify-Copied :
      (o : Options) (r : Request) (token : Bytes)
      → verify_js_token k token r o ≡ true
      → Copied o r token
  unfolding verify_js_token
  verify-Copied o r token h = elim (Bool-cases o.js_token) [
    | inr j ↦ inl j
    | inl j ↦ elim (Option-cases (request_cookie r (codes "js_" ++ o.cookie_name))) [
      | inl e ↦ cc (rw (j, e, verify_js_token) at h)
      | inr (t, e) ↦
          inr (e ∙ ap some (sym ((equal_iff token t).0 (rw (j, e, verify_js_token) at h))))
    ]
  ]

  verify_token-token_of :
      (o : Options) (r : Request) (random : Bytes)
      → Decodes k
      → ((s : Bytes) → Lacks b'.' (k.encode s))
      → Copied o r (token_of o random)
      → verify_token k (some (token_of o random)) r o ≡ true
  unfolding verify_token verify_parts
  verify_token-token_of o r random hd hl copied =
      let parts : split (token_of o random) b'.'
          ≡ k.encode random ∷ k.encode (k.hmac o.secret_key random) ∷ [] =
        split-append (k.encode random) (k.encode (k.hmac o.secret_key random)) b'.' (hl random)
        ∙ ap (λ ps. k.encode random ∷ ps)
            (split-Lacks (k.encode (k.hmac o.secret_key random)) b'.' (hl _)) in
      rw
        (
          Copied-verify o r (token_of o random) copied,
          parts,
          verify_parts,
          hd random,
          hd (k.hmac o.secret_key random),
        )
        (equal_refl (k.hmac o.secret_key random))

  -- A safe request without the cookie gets a token, whose random bytes could be read, and a later
  -- request that carries this token reaches the handler, whatever its method is, as it is. It is
  -- assumed that the cookie's name is one that net/http sends, that decoding gives back what was encoded, that no encoded text has a dot, and, where
  -- the options ask for it, that the script has copied the token.
  pub check-token_of :
      (is_valid_name : Bytes → Bool) (o : Options) (random : Bytes) (random' : Option Bytes)
      (next : HandleFunc) (c c' : Context)
      → is_valid_name o.cookie_name ≡ true
      → Decodes k
      → ((s : Bytes) → Lacks b'.' (k.encode s))
      → is_safe c.request.method ≡ true
      → request_cookie c.request o.cookie_name ≡ none
      → request_cookie c'.request o.cookie_name ≡ some (token_of o random)
      → Copied o c'.request (token_of o random)
      → (check k is_valid_name (some random) o next c
          ≡ next (record c { response = set_cookie c.response o.cookie_name (token_of o random) }))
        × (check k is_valid_name random' o next c' ≡ next c')
  unfolding check give_token set_token_cookie generate_token
  check-token_of is_valid_name o random random' next c c' valid hd hl safe missing carried copied =
      (
        rw (safe, check, missing, give_token, valid, set_token_cookie) refl,
        elim (Bool-cases (is_safe c'.request.method)) [
          | inl e ↦ rw (e, check, carried, give_token) refl
          | inr e ↦
              rw (e, check, carried, verify_token-token_of o c'.request random hd hl copied) refl
        ],
      )

  -- The request carries a token that the key has signed.
  abbrev pub IsGenuine : Options → Request → Type 0
  IsGenuine o r =
      (a : Bytes) × (b : Bytes) × (random : Bytes) × (request_cookie r o.cookie_name
        ≡ some (a ++ b'.' ∷ b))
      × (k.decode a ≡ some random)
      × (k.decode b ≡ some (k.hmac o.secret_key random))
      × Copied o r (a ++ b'.' ∷ b)

  verify-parts :
      (key : Bytes) (parts : List Bytes)
      → verify_parts k key parts ≡ true
      → (a : Bytes) × (b : Bytes) × (random : Bytes) × (parts ≡ a ∷ b ∷ [])
        × (k.decode a ≡ some random)
        × (k.decode b ≡ some (k.hmac key random))
  unfolding verify_parts
  verify-parts key [] h = cc
  verify-parts key (a ∷ []) h = cc
  verify-parts key (a ∷ b ∷ c ∷ parts) h = cc
  verify-parts key (a ∷ b ∷ []) h = elim (Option-cases (k.decode a)) [
    | inl e ↦ cc (rw (e, verify_parts) at h)
    | inr (random, e) ↦ elim (Option-cases (k.decode b)) [
      | inl f ↦ cc (rw (e, f, verify_parts) at h)
      | inr (actual, f) ↦ (
        a,
        b,
        random,
        refl,
        e,
        f ∙ ap some (sym ((equal_iff (k.hmac key random) actual).0 (rw (e, f, verify_parts) at h))),
      )
    ]
  ]

  verify-IsGenuine :
      (o : Options) (r : Request)
      → verify_token k (request_cookie r o.cookie_name) r o ≡ true
      → IsGenuine o r
  unfolding verify_token join
  verify-IsGenuine o r h = elim (Option-cases (request_cookie r o.cookie_name)) [
    | inl e ↦ cc (rw (e, verify_token) at h)
    | inr (token, e) ↦ elim (Bool-cases (verify_js_token k token r o)) [
      | inr f ↦ cc (rw (e, f, verify_token) at h)
      | inl f ↦
          let (a, b, random, g, da, db) =
            verify-parts o.secret_key (split token b'.') (rw (e, f, verify_token) at h) in
          let whole : token ≡ a ++ b'.' ∷ b =
            sym (join-split token b'.') ∙ ap (λ ps. join ps (b'.' ∷ [])) g in
          (
            a,
            b,
            random,
            e ∙ ap some whole,
            da,
            db,
            subst (λ t. Copied o r t) whole (verify-Copied o r token f),
          )
    ]
  ]

  -- A request that may change something and carries no token that the key has signed is answered
  -- with status 418 and ErrCancelled: the handler is not called.
  pub check-not-IsGenuine :
      (is_valid_name : Bytes → Bool) (random : Option Bytes) (o : Options) (next : HandleFunc)
      (c : Context)
      → is_safe c.request.method ≡ false
      → ¬ IsGenuine o c.request
      → check k is_valid_name random o next c
        ≡ (record c { response = write_status c.response 418 }, some cancelled)
  unfolding check
  check-not-IsGenuine is_valid_name random o next c unsafe h =
      elim (Bool-cases (verify_token k (request_cookie c.request o.cookie_name) c.request o)) [
        | inl e ↦ absurd (h (verify-IsGenuine o c.request e))
        | inr e ↦ rw (unsafe, check, e) refl
      ]
