-- ===== src/Mime/Defs.antt =====
-- mime.go: media types; context.go: `Accept` and `AcceptLanguage`.
use xun.Base.{
  Bool, true, false, not, ◌&&◌, ◌||◌, none, some, List, [], ◌∷◌, ◌++◌, map, Bytes, codes, ◌==◌,
  if◌then◌else◌, equal, split, index_byte, take, drop, trim, trim_space,
}
use xun.Http.{Request, header_get}

pub record MimeType : Type 0 where
  pub type : Bytes
  pub sub_type : Bytes

abbrev pub star : Bytes
star = codes "*"

abbrev of_items : List Bytes → MimeType
of_items [] = record { type = []; sub_type = star }
of_items (t ∷ []) = record { type = t; sub_type = star }
of_items (t ∷ s ∷ rest) = record { type = t; sub_type = s }

-- NewMimeType
unfoldable pub new_mime_type : Bytes → MimeType
unfolding split
new_mime_type t = of_items (split t b'/')

-- Match
unfoldable pub matches : MimeType → MimeType → Bool
unfolding equal
matches m accept =
    if not (equal m.type accept.type) && (not (equal m.type star) && not (equal accept.type star))
    then false
    else if equal m.sub_type accept.sub_type
        || (equal m.sub_type star || equal accept.sub_type star)
    then true
    else false

-- String
unfoldable pub show : MimeType → Bytes
show m = m.type ++ (b'/' ∷ m.sub_type)

-- GetMimeType. The type by a file's extension and the type sniffed from its content are net/http's
-- and package mime's.
unfoldable pub get_mime_type :
    (type_by_extension : Bytes → Bytes) (detect_content_type : Bytes → Bytes)
    → (ext buf : Bytes) → MimeType × Bytes
unfolding index_byte new_mime_type
get_mime_type type_by_extension detect_content_type ext buf =
    let by_ext = type_by_extension ext in
    let mt = if equal by_ext [] then detect_content_type buf else by_ext in
    elim (index_byte mt b';') [
      | none ↦ (new_mime_type mt, codes "; charset=utf-8")
      | some i ↦ (new_mime_type (take i mt), drop i mt)
    ]

-- One option of the Accept header: what stands before its first ';', trimmed.
unfoldable pub accept_option : Bytes → MimeType
unfolding index_byte trim_space new_mime_type
accept_option o = elim (index_byte o b';') [
  | none ↦ new_mime_type (trim_space o)
  | some n ↦ new_mime_type (trim_space (take n o))
]

-- The Accept method of Context.
unfoldable pub accept : Request → List MimeType
unfolding header_get accept_option split
accept req =
    let accepted = header_get req.header (codes "Accept") in
    if equal accepted [] then [] else map accept_option (split accepted b',')

-- strings.SplitN(option, ";", 2)[0], and strings.Trim(_, " ")
unfoldable pub locale_of : Bytes → Bytes
unfolding index_byte trim
locale_of o = elim (index_byte o b';') [
  | none ↦ trim (λ c. c == b' ') o
  | some n ↦ trim (λ c. c == b' ') (take n o)
]

-- The AcceptLanguage method of Context.
unfoldable pub accept_language : Request → List Bytes
unfolding header_get locale_of split
accept_language req =
    let accepted = header_get req.header (codes "Accept-Language") in
    if equal accepted [] then [] else map locale_of (split accepted b',')
