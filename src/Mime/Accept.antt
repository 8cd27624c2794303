-- ===== src/Mime/Accept.antt =====
-- mime.go and context.go: the laws of `Match`, and how `Accept` reads a header that a client prints.
use xun.Base.{
  ℕ, true, false, ◌≡◌, ◌≢◌, refl, sym, ap, ◌∙◌, List, [], ◌∷◌, ◌++◌, map, arith, Bytes, codes,
  equal, equal_comm, equal_refl, split-Lacks, split-append, split-join, join, index_byte_append,
  index_byte-Lacks, take-length_append, trim_space, trim-IsSolid, is_space, All, Lacks, All-append,
  append-nil,
}
use xun.Http.{Request, header_get}
use xun.Mime.Defs.{MimeType, star, new_mime_type, matches, show, accept_option, accept}

-- `Match` does not depend on which of the two is offered and which is accepted.
pub matches_comm : (m accept : MimeType) → matches m accept ≡ matches accept m
unfolding matches
matches_comm m a = ground (arith, equal_comm m.type a.type, equal_comm m.sub_type a.sub_type)

pub matches_any : (m : MimeType) → matches m (record { type = star; sub_type = star }) ≡ true
unfolding matches
matches_any m = ground (arith, equal_refl star)

-- A byte that a type, a subtype and a parameter's name may hold: no separator and no space.
abbrev pub IsToken : Bytes → Type 0
IsToken = All (λ c. (is_space c ≡ false) × (c ≢ b',') × (c ≢ b';') × (c ≢ b'/'))

-- A media type with what follows it in the header, such as ";q=0.8".
pub record Ranged : Type 0 where
  pub mime : MimeType
  pub params : Bytes

abbrev pub print : Ranged → Bytes
print r = show r.mime ++ r.params

-- The parameters are absent or begin with ';', and hold no comma.
abbrev pub IsParams : Bytes → Type 0
IsParams [] = Unit {0}
IsParams (c ∷ q) = (c ≡ b';') × Lacks b',' q

pub record IsRanged (r : Ranged) : Type 0 where
  pub type_token : IsToken r.mime.type
  pub sub_type_token : IsToken r.mime.sub_type
  pub params_well : IsParams r.params

All-map {ℓ} :
    {A : Type ℓ} {P Q : A → Type 0} (imp : (a : A) → P a → Q a) (xs : List A) → All P xs → All Q xs
All-map imp [] h = tt
All-map imp (x ∷ xs) (p, h) = (imp x p, All-map imp xs h)

show-split : (m : MimeType) → IsToken m.type → IsToken m.sub_type → new_mime_type (show m) ≡ m
unfolding new_mime_type show
show-split m t s = rw (
  split-append m.type m.sub_type b'/' (All-map (λ c p. p.3) m.type t),
  split-Lacks m.sub_type b'/' (All-map (λ c p. p.3) m.sub_type s),
)

show-Lacks :
    (m : MimeType) (b : ℕ) → b ≢ b'/' → Lacks b m.type → Lacks b m.sub_type → Lacks b (show m)
unfolding show
show-Lacks m b ne t s = All-append _ m.type _ t ((λ e. ne (sym e)), s)

trim_space-show :
    (m : MimeType) → IsToken m.type → IsToken m.sub_type → trim_space (show m) ≡ show m
unfolding trim_space show is_space
trim_space-show m t s = trim-IsSolid is_space _ (
    All-append _ m.type _ (All-map (λ c p. p.0) m.type t) (refl, All-map (λ c p. p.0) m.sub_type s))

show-no-param : (m : MimeType) → IsToken m.type → IsToken m.sub_type → Lacks b';' (show m)
show-no-param m t s =
    show-Lacks m b';' (omega arith) (All-map (λ c p. p.2) m.type t)
      (All-map (λ c p. p.2) m.sub_type s)

accept_option-params :
    (m : MimeType) (params : Bytes)
    → IsToken m.type
    → IsToken m.sub_type
    → IsParams params
    → accept_option (show m ++ params) ≡ m
unfolding accept_option
accept_option-params m [] t s h =
    ap accept_option (append-nil (show m))
    ∙ rw (
      index_byte-Lacks (show m) b';' (show-no-param m t s),
      trim_space-show m t s,
      show-split m t s,
      accept_option,
    )
accept_option-params m (c ∷ q) t s (e, h) =
    ap (λ b. accept_option (show m ++ b ∷ q)) e
    ∙ rw (
      index_byte_append (show m) q b';' (show-no-param m t s),
      take-length_append (show m) (b';' ∷ q),
      trim_space-show m t s,
      show-split m t s,
      accept_option,
    )

params-Lacks : (params : Bytes) → IsParams params → Lacks b',' params
params-Lacks [] h = tt
params-Lacks (c ∷ q) (e, h) = (omega arith, h)

print-Lacks : (r : Ranged) → IsRanged r → Lacks b',' (print r)
print-Lacks r h =
    All-append _ (show r.mime) r.params
      (show-Lacks r.mime b',' (omega arith) (All-map (λ c p. p.1) r.mime.type h.type_token)
        (All-map (λ c p. p.1) r.mime.sub_type h.sub_type_token))
      (params-Lacks r.params h.params_well)

map-print-Lacks : (rs : List Ranged) → All IsRanged rs → All (Lacks b',') (map print rs)
map-print-Lacks [] h = tt
map-print-Lacks (r ∷ rs) (p, h) = (print-Lacks r p, map-print-Lacks rs h)

map-accept_option :
    (rs : List Ranged) → All IsRanged rs → map accept_option (map print rs) ≡ map (λ r. r.mime) rs
map-accept_option [] h = refl
map-accept_option (r ∷ rs) (p, h) = cc (
  accept_option-params r.mime r.params p.type_token p.sub_type_token p.params_well,
  map-accept_option rs h,
)

map-print-ne-nil : (rs : List Ranged) → rs ≢ [] → map print rs ≢ []
map-print-ne-nil [] ne = absurd (ne refl)
map-print-ne-nil (r ∷ rs) ne = λ e. cc

-- A slash is always printed, so the header is not empty.
print-ne-nil : (r : Ranged) (rest : Bytes) → equal (print r ++ rest) [] ≡ false
unfolding show equal
print-ne-nil r rest = show-ne-nil r.mime.type
  where
    show-ne-nil :
        (t : Bytes) → equal (((t ++ (b'/' ∷ r.mime.sub_type)) ++ r.params) ++ rest) [] ≡ false
    show-ne-nil [] = refl
    show-ne-nil (c ∷ t) = refl

header-ne-nil : (rs : List Ranged) → rs ≢ [] → equal (join (map print rs) (codes ",")) [] ≡ false
unfolding join
header-ne-nil [] ne = absurd (ne refl)
header-ne-nil (r ∷ []) ne = rw (← append-nil (print r)) (print-ne-nil r [])
header-ne-nil (r ∷ q ∷ rs) ne = print-ne-nil r _

-- A header that lists media types in order, each with or without parameters, is read as those media
-- types in that order, their letters as they are, the parameters dropped. Types and subtypes are made of token bytes, and
-- there is at least one entry.
pub accept-print :
    (req : Request) (rs : List Ranged)
    → rs ≢ []
    → All IsRanged rs
    → header_get req.header (codes "Accept") ≡ join (map print rs) (codes ",")
    → accept req ≡ map (λ r. r.mime) rs
unfolding accept
accept-print req rs ne h e =
    rw
      (
        e,
        header-ne-nil rs ne,
        split-join (map print rs) b',' (map-print-ne-nil rs ne) (map-print-Lacks rs h),
      )
      (map-accept_option rs h)
