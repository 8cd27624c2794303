-- ===== src/Cookie/Signed.antt =====
-- ext/cookie/cookie.go: signed cookies are read back, and nothing else is.
use xun.Base.{
  ℕ, zero, suc, ◌+◌, ◌≤◌, ◌≡◌, ◌≢◌, refl, sym, ap, ◌∙◌, false, none, some, List, [], ◌∷◌, ◌++◌,
  append_assoc, Bytes, ltb, equal, equal_iff, equal_refl, length, take, drop, length-append,
  length-take, length-drop, take-length_append, drop-length_append, take-append-drop, arith, inl,
  inr, Bool-cases, Option-cases,
}
use xun.Http.{Request}
use xun.Crypto.{Crypto, Decodes, request_cookie}
use xun.Cookie.Defs.{
  Cookie, Clock, done, send, encoded, set, get, sign_value, set_signed, verify, open_signed,
  get_signed,
}

-- The parts of a text whose first two lengths are known.
take-parts : (a b c : Bytes) (n : ℕ) → length a ≡ n → take n (a ++ (b ++ c)) ≡ a
take-parts a b c n e = ap (λ i. take i (a ++ (b ++ c))) (sym e) ∙ take-length_append a (b ++ c)

drop-nil : (n : ℕ) → drop {A = ℕ} n [] ≡ []
drop-nil zero = refl
drop-nil (suc n) = refl

drop-parts : (a b c : Bytes) (n : ℕ) → length a ≡ n → drop n (a ++ (b ++ c)) ≡ b ++ c
drop-parts a b c n e = ap (λ i. drop i (a ++ (b ++ c))) (sym e) ∙ drop-length_append a (b ++ c)

last-parts : (a b c : Bytes) (n : ℕ) → length a + length b ≡ n → drop n (a ++ (b ++ c)) ≡ c
last-parts a b c n e =
    ap (λ i. drop i (a ++ (b ++ c))) (sym (length-append a b ∙ e))
    ∙ ap (drop (length (a ++ b))) (sym (append_assoc a b c))
    ∙ drop-length_append (a ++ b) c

drop-drop : (n m : ℕ) (xs : Bytes) → drop n (drop m xs) ≡ drop (m + n) xs
drop-drop n zero xs = ap (λ i. drop i xs) {x = n} (omega arith)
drop-drop n (suc m) [] = drop-nil n ∙ sym (drop-nil (suc m + n))
drop-drop n (suc m) (x ∷ xs) =
    drop-drop n m xs ∙ ap (λ i. drop i (x ∷ xs)) {x = suc (m + n)} (omega arith)

-- A text of at least 52 bytes, in its three parts.
three_parts : (s : Bytes) → s ≡ take 32 s ++ (take 20 (drop 32 s) ++ drop 52 s)
three_parts s =
    sym (take-append-drop 32 s)
    ∙ ap (λ t. take 32 s ++ t)
        (sym (take-append-drop 20 (drop 32 s))
          ∙ ap (λ t. take 20 (drop 32 s) ++ t) (drop-drop 20 32 s))

length-middle : (s : Bytes) → ltb (length s) 52 ≡ false → length (take 20 (drop 32 s)) ≡ 20
length-middle s h = ground (arith, length-take 20 (drop 32 s), length-drop 32 s)

module _ (k : Crypto) (clock : Clock) where
  -- The cookie that SetSigned makes of one.
  abbrev pub signed_cookie : Cookie → Bytes → ℕ → Cookie
  signed_cookie v secret_key ts =
      encoded k (record v { value = (sign_value k clock secret_key v.name v.value ts).1 })

  set_signed-sent :
      (show : Cookie → Bytes) (v : Cookie) (secret_key : Bytes) (ts : ℕ) (cs : List Cookie)
      → length (show (signed_cookie v secret_key ts)) ≤ 4096
      → show (signed_cookie v secret_key ts) ≢ []
      → set_signed k clock show v secret_key ts cs
        ≡ (cs ++ signed_cookie v secret_key ts ∷ [], none)
  unfolding set_signed set send
  set_signed-sent show v secret_key ts cs fits printed =
      let short : ltb 4096 (length (show (signed_cookie v secret_key ts))) ≡ false =
        ground (arith, fits) in
      let some_text : equal (show (signed_cookie v secret_key ts)) [] ≡ false =
        ground (arith, printed, equal_iff (show (signed_cookie v secret_key ts)) []) in
      rw (short, some_text) refl

  -- What is signed opens.
  open_signed-sign_value :
      (name value secret_key : Bytes) (ts ts' : ℕ)
      → length (k.hmac secret_key (name ++ (clock.format ts ++ value))) ≡ 32
      → length (clock.format ts) ≡ 20
      → clock.parse (clock.format ts) ≡ some ts'
      → clock.format ts' ≡ clock.format ts
      → open_signed k clock name secret_key (sign_value k clock secret_key name value ts).1
        ≡ done (value, ts')
  unfolding open_signed verify sign_value
  open_signed-sign_value name value secret_key ts ts' hl fl hp hf =
      let v = clock.format ts in
      let s = k.hmac secret_key (name ++ (v ++ value)) in
      let long : ltb (length (s ++ (v ++ value))) 52 ≡ false =
        ground (arith, length-append s (v ++ value), length-append v value, hl, fl) in
      let tv : take 20 (drop 32 (s ++ (v ++ value))) ≡ v =
        ap (take 20) (drop-parts s v value 32 hl)
        ∙ ap (λ i. take i (v ++ value)) (sym fl)
        ∙ take-length_append v value in
      rw
        (
          long,
          tv,
          hp,
          take-parts s v value 32 hl,
          last-parts s v value 52 (omega (arith, hl, fl)),
          hf,
          equal_refl s,
        )
        refl

  -- A cookie that prints as some text of at most 4096 bytes, once it is signed and encoded, is sent
  -- by SetSigned, and GetSigned with the same name and key reads it back from a request that carries
  -- it: the value is the one that was signed, and the instant is what its text parses to. It is
  -- assumed that decoding gives back what was encoded, that a signature has 32 bytes, and that the
  -- instant prints as 20 bytes that parse to an instant which prints the same.
  pub get_signed-set_signed :
      (show : Cookie → Bytes) (v : Cookie) (secret_key : Bytes) (ts ts' : ℕ) (cs : List Cookie)
      (req : Request)
      → Decodes k
      → ((m : Bytes) → length (k.hmac secret_key m) ≡ 32)
      → length (clock.format ts) ≡ 20
      → clock.parse (clock.format ts) ≡ some ts'
      → clock.format ts' ≡ clock.format ts
      → length (show (signed_cookie v secret_key ts)) ≤ 4096
      → show (signed_cookie v secret_key ts) ≢ []
      → request_cookie req v.name ≡ some (signed_cookie v secret_key ts).value
      → (set_signed k clock show v secret_key ts cs
          ≡ (cs ++ signed_cookie v secret_key ts ∷ [], none))
        × (get_signed k clock req v.name secret_key ≡ done (v.value, ts'))
  unfolding get_signed get
  get_signed-set_signed show v secret_key ts ts' cs req hd hl fl hp hf fits printed carried = (
    set_signed-sent show v secret_key ts cs fits printed,
    rw (carried, hd (sign_value k clock secret_key v.name v.value ts).1, get_signed, get)
        (open_signed-sign_value v.name v.value secret_key ts ts' (hl _) fl hp hf),
  )

  -- The signed text that a value was read from.
  abbrev pub IsSigned : Bytes → Bytes → Bytes → Bytes → ℕ → Type 0
  IsSigned name secret_key signed value ts =
      (tv : Bytes) × (signed
        ≡ k.hmac secret_key (name ++ (clock.format ts ++ value)) ++ (tv ++ value))
      × (clock.parse tv ≡ some ts)
      × (length tv ≡ 20)

  verify-IsSigned :
      (name secret_key signed value : Bytes) (t ts : ℕ)
      → ltb (length signed) 52 ≡ false
      → clock.parse (take 20 (drop 32 signed)) ≡ some t
      → verify k clock secret_key name (take 32 signed) (drop 52 signed) t ≡ done (value, ts)
      → IsSigned name secret_key signed value ts
  unfolding verify sign_value
  verify-IsSigned name secret_key signed value t ts long p h =
      let s = k.hmac secret_key (name ++ (clock.format t ++ drop 52 signed)) in
      elim (Bool-cases (equal (take 32 signed) s)) [
        | inr e ↦ absurd (cc (rw (e, verify) at h))
        | inl e ↦
            let h' = (rw (e, verify) at h) in
            let hv : drop 52 signed ≡ value = cc (h') in
            let ht : t ≡ ts = cc (h') in
            rw (sym hv, sym ht)
              (
                take 20 (drop 32 signed),
                three_parts signed
                    ∙ ap (λ x. x ++ (take 20 (drop 32 signed) ++ drop 52 signed))
                        ((equal_iff (take 32 signed) s).0 e),
                p,
                length-middle signed long,
              )
      ]

  open_signed-IsSigned :
      (name secret_key signed value : Bytes) (ts : ℕ)
      → open_signed k clock name secret_key signed ≡ done (value, ts)
      → IsSigned name secret_key signed value ts
  unfolding open_signed
  open_signed-IsSigned name secret_key signed value ts h =
      elim (Bool-cases (ltb (length signed) 52)) [
        | inl e ↦ absurd (cc (rw (e, open_signed) at h))
        | inr e ↦ elim (Option-cases (clock.parse (take 20 (drop 32 signed)))) [
          | inl p ↦ absurd (cc (rw (e, p, open_signed) at h))
          | inr (t, p) ↦
              verify-IsSigned name secret_key signed value t ts e p (rw (e, p, open_signed) at h)
        ]
      ]

  -- What GetSigned gives was signed: the cookie of the request decodes to the signature, by the key,
  -- of the name, the instant's text and the value, then 20 bytes that parse to the instant, then the
  -- value.
  pub get_signed-IsSigned :
      (req : Request) (name secret_key value : Bytes) (ts : ℕ)
      → get_signed k clock req name secret_key ≡ done (value, ts)
      → (raw : Bytes) × (signed : Bytes) × (request_cookie req name ≡ some raw)
        × (k.decode raw ≡ some signed)
        × IsSigned name secret_key signed value ts
  unfolding get_signed get
  get_signed-IsSigned req name secret_key value ts h =
      elim (Option-cases (request_cookie req name)) [
        | inl e ↦ cc (rw (e, get_signed, get) at h)
        | inr (raw, e) ↦ elim (Option-cases (k.decode raw)) [
          | inl d ↦ cc (rw (e, d, get_signed, get) at h)
          | inr (signed, d) ↦ (
            raw,
            signed,
            e,
            d,
            open_signed-IsSigned name secret_key signed value ts (rw (e, d, get_signed, get) at h),
          )
        ]
      ]
