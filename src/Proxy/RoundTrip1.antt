-- ===== src/Proxy/RoundTrip1.antt =====
-- ext/proxyproto/header.go: a printed header of version 1 is read back.
use xun.Base.{
  ℕ, suc, true, false, ◌≡◌, ◌≢◌, refl, sym, ap, ◌∙◌, Option, none, some, List, [], ◌∷◌, ◌++◌, Bytes,
  codes, length, take, drop_behind, index_byte_append, Lacks, All, All-append, append_assoc,
  is_space, arith,
}
use xun.Proxy.Defs.{Header, Addr}
use xun.Proxy.V1.{fields, starts_word, join_word, v1_addresses, v1_header, read_v1_header}

-- A word is not empty and holds no white space.
abbrev pub IsWord : Bytes → Type 0
IsWord w = (w ≢ []) × All (λ c. is_space c ≡ false) w

fields-next :
    (c : ℕ) (t : Bytes)
    → is_space c ≡ false
    → fields (c ∷ t) ≡ join_word c (starts_word t) (fields t)
unfolding fields
fields-next c t h = rw (h, fields) refl

fields-space : (c : ℕ) (t : Bytes) → is_space c ≡ true → fields (c ∷ t) ≡ fields t
unfolding fields
fields-space c t h = rw (h, fields) refl

-- A word at the front of a text, behind which there is white space.
fields_at :
    (c d : ℕ) (w s : Bytes)
    → is_space c ≡ false
    → All (λ c. is_space c ≡ false) w
    → is_space d ≡ true
    → fields (c ∷ w ++ d ∷ s) ≡ (c ∷ w) ∷ fields s
fields_at c d [] s h k e = fields-next c (d ∷ s) h ∙ rw (e, fields-space d s e) refl
fields_at c d (b ∷ w) s h (k, ks) e =
    fields-next c (b ∷ w ++ d ∷ s) h
    ∙ ap (join_word c (starts_word (b ∷ w ++ d ∷ s))) (fields_at b d w s k ks e)
    ∙ rw k refl

fields-IsWord :
    (d : ℕ) (w s : Bytes) → IsWord w → is_space d ≡ true → fields (w ++ d ∷ s) ≡ w ∷ fields s
fields-IsWord d [] s (h, k) e = elim (h refl) [ ]
fields-IsWord d (c ∷ w) s (h, (k, ks)) e = fields_at c d w s k ks e

-- The fields of a line, between single spaces, with a line's end behind them.
abbrev spaced : List Bytes → Bytes
spaced [] = codes "\r\n"
spaced (w ∷ []) = w ++ codes "\r\n"
spaced (w ∷ v ∷ ws) = w ++ b' ' ∷ spaced (v ∷ ws)

fields-spaced : (ws : List Bytes) → All IsWord ws → fields (spaced ws) ≡ ws
unfolding fields is_space
fields-spaced [] h = refl
fields-spaced (w ∷ []) (h, hs) = fields-IsWord b'\r' w (b'\n' ∷ []) h refl
fields-spaced (w ∷ v ∷ ws) (h, hs) =
    fields-IsWord b' ' w (spaced (v ∷ ws)) h refl ∙ ap (◌∷◌ w) (fields-spaced (v ∷ ws) hs)

-- The line without its last byte.
abbrev body : List Bytes → Bytes
body [] = codes "\r"
body (w ∷ []) = w ++ codes "\r"
body (w ∷ v ∷ ws) = w ++ b' ' ∷ body (v ∷ ws)

spaced-body : (ws : List Bytes) → body ws ++ b'\n' ∷ [] ≡ spaced ws
spaced-body [] = refl
spaced-body (w ∷ []) = append_assoc w (codes "\r") (b'\n' ∷ [])
spaced-body (w ∷ v ∷ ws) =
    append_assoc w (b' ' ∷ body (v ∷ ws)) (b'\n' ∷ [])
    ∙ ap (λ s. w ++ b' ' ∷ s) (spaced-body (v ∷ ws))

word-Lacks : (w : Bytes) → All (λ c. is_space c ≡ false) w → Lacks b'\n' w
unfolding is_space
word-Lacks [] h = tt
word-Lacks (c ∷ w) (h, hs) = ((λ e. cc (rw e at h)), word-Lacks w hs)

body-Lacks : (ws : List Bytes) → All IsWord ws → Lacks b'\n' (body ws)
body-Lacks [] h = ((λ e. omega (arith, e)), tt)
body-Lacks (w ∷ []) (h, hs) =
    All-append (λ c. c ≢ b'\n') w (codes "\r") (word-Lacks w h.1) ((λ e. omega (arith, e)), tt)
body-Lacks (w ∷ v ∷ ws) (h, hs) =
    All-append (λ c. c ≢ b'\n') w (b' ' ∷ body (v ∷ ws)) (word-Lacks w h.1)
      ((λ e. omega (arith, e)), body-Lacks (v ∷ ws) hs)

take_behind : (p rest : Bytes) (c : ℕ) → take (suc (length p)) (p ++ c ∷ rest) ≡ p ++ c ∷ []
take_behind [] rest c = refl
take_behind (b ∷ p) rest c = ap (◌∷◌ b) (take_behind p rest c)

-- The header's line, with the address family and the fields as they are.
abbrev pub print_v1 : Bytes → Bytes → Bytes → Bytes → Bytes → Bytes
print_v1 family source target source_port target_port =
    spaced (codes "PROXY" ∷ family ∷ source ∷ target ∷ source_port ∷ target_port ∷ [])

-- The header of version 1 whose source and target are two addresses, if there are both.
abbrev pub header_between : Option Addr → Option Addr → Option Header
header_between none target = none
header_between (some source) none = none
header_between (some source) (some target) = some (record {
  local = some target;
  remote = some source;
  version = 1;
  command = 0;
  protocol = 0;
  raw_tlvs = [];
})

v1_addresses-eq : (a b : Option Addr) → v1_addresses a b ≡ header_between a b
v1_addresses-eq none b = refl
v1_addresses-eq (some a) none = refl
v1_addresses-eq (some a) (some b) = refl

module _ (resolve : Bytes → Bytes → Option Addr) where
  read_front_line :
      (p rest : Bytes)
      → Lacks b'\n' p
      → read_v1_header resolve (p ++ b'\n' ∷ rest)
        ≡ (v1_header resolve (fields (p ++ b'\n' ∷ [])), rest)
  unfolding read_v1_header
  read_front_line p rest h =
      rw (index_byte_append p rest b'\n' h, read_v1_header)
        (rw (take_behind p rest b'\n', drop_behind p rest b'\n') refl)

  read_spaced :
      (ws : List Bytes) (rest : Bytes)
      → All IsWord ws
      → read_v1_header resolve (spaced ws ++ rest) ≡ (v1_header resolve ws, rest)
  read_spaced ws rest h =
      ap (λ s. read_v1_header resolve (s ++ rest)) (sym (spaced-body ws))
      ∙ ap (read_v1_header resolve) (append_assoc (body ws) (b'\n' ∷ []) rest)
      ∙ read_front_line (body ws) rest (body-Lacks ws h)
      ∙ ap (λ s. (v1_header resolve (fields s), rest)) (spaced-body ws)
      ∙ ap (λ l. (v1_header resolve l, rest)) (fields-spaced ws h)

  keyword : IsWord (codes "PROXY")
  unfolding is_space
  keyword = ((λ e. cc), (refl, (refl, (refl, (refl, (refl, tt))))))

  -- A line of version 1 with four nonempty fields that hold no white space is read to its end and
  -- no further. For TCP4 and TCP6 its header has the source with its port as the remote address and
  -- the target with its port as the local one, as net.ResolveTCPAddr gives them, an IPv6 address
  -- put in brackets; there is no header if one of them cannot be resolved.
  pub read_v1_header-print_v1 :
      (a b p q rest : Bytes)
      → All IsWord (a ∷ b ∷ p ∷ q ∷ [])
      → (read_v1_header resolve (print_v1 (codes "TCP4") a b p q ++ rest) ≡ (
        header_between
            (resolve (codes "tcp4") (a ++ codes ":" ++ p))
            (resolve (codes "tcp4") (b ++ codes ":" ++ q)),
        rest,
      ))
        × (read_v1_header resolve (print_v1 (codes "TCP6") a b p q ++ rest) ≡ (
          header_between
              (resolve (codes "tcp6") (codes "[" ++ a ++ codes "]:" ++ p))
              (resolve (codes "tcp6") (codes "[" ++ b ++ codes "]:" ++ q)),
          rest,
        ))
  unfolding v1_header is_space
  read_v1_header-print_v1 a b p q rest h = (
    read_spaced (codes "PROXY" ∷ codes "TCP4" ∷ a ∷ b ∷ p ∷ q ∷ []) rest
          (keyword, (((λ e. cc), (refl, (refl, (refl, (refl, tt))))), h))
        ∙ ap (λ x. (x, rest)) (v1_addresses-eq _ _),
    read_spaced (codes "PROXY" ∷ codes "TCP6" ∷ a ∷ b ∷ p ∷ q ∷ []) rest
          (keyword, (((λ e. cc), (refl, (refl, (refl, (refl, tt))))), h))
        ∙ ap (λ x. (x, rest)) (v1_addresses-eq _ _),
  )
