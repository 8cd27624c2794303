-- ===== src/Reqlog/Defs.antt =====
-- ext/reqlog/: the options, the formats and the middleware. A log is the lines that were printed,
-- oldest first. What the formats read besides the request is one record: the text of the time, the
-- protocol, the URL's host, the remote host that net.SplitHostPort gives, or the empty text.
use xun.Base.{
  Bool, false, ◌||◌, Option, none, some, List, [], ◌∷◌, ◌++◌, Bytes, codes, equal, ◌==◌,
  if◌then◌else◌, join,
}
use xun.Http.{Request, header_get, status_code_of}
use xun.App.{Context, HandleFunc, Error, contains}
use xun.Sse.Event.{itoa}

pub record Facts : Type 0 where
  pub time : Bytes
  pub proto : Bytes
  pub url_host : Bytes
  pub remote_host : Bytes

-- IsHTTPs
unfoldable pub is_https : Request → Bool
unfolding header_get equal
is_https r = r.tls || equal (header_get r.header (codes "X-Forwarded-Proto")) (codes "https")

-- strings.ReplaceAll(s, `"`, `\"`)
unfoldable pub escape_quotes : Bytes → Bytes
escape_quotes [] = []
escape_quotes (c ∷ s) = if c == b'"' then b'\\' ∷ b'"' ∷ escape_quotes s else c ∷ escape_quotes s

-- Escape
abbrev quoted : Bytes → Bytes
quoted s = b'"' ∷ (s ++ b'"' ∷ [])

unfoldable pub escape : Bytes → Bytes
unfolding escape_quotes equal
escape s = if equal s (codes "-") then s else quoted (escape_quotes s)

-- Options; the functions of an unset field are `none`.
pub record Options : Type 0 where
  pub get_visitor : Context → Bytes
  pub get_user : Context → Bytes
  pub format : Facts → (Context → Bytes) → (Context → Bytes) → Context → Bytes
  pub skip_func : Option (Context → Bool)

-- Miss
abbrev pub miss : Context → Bytes
miss c = codes "-"

-- WithVisitor and WithUser with a function: the empty text is a dash.
unfoldable pub or_dash : (Context → Bytes) → Context → Bytes
unfolding equal
or_dash get c = if equal (get c) [] then codes "-" else get c

unfoldable pub with_visitor : Option (Context → Bytes) → Options → Options
unfolding or_dash
with_visitor none o = o
with_visitor (some get) o = record o { get_visitor = or_dash get }

unfoldable pub with_user : Option (Context → Bytes) → Options → Options
unfolding or_dash
with_user none o = o
with_user (some get) o = record o { get_user = or_dash get }

-- WithSkip
unfoldable pub with_skip : Option (Context → Bool) → Options → Options
with_skip f o = record o { skip_func = f }

abbrev words : List Bytes → Bytes
words ws = join ws (codes " ")

-- The request line.
unfoldable pub request_line : Facts → Request → Bytes
unfolding join
request_line f r = quoted (words (r.method ∷ r.path ∷ f.proto ∷ []))

-- The parts that all formats have.
unfoldable pub common_parts : Facts → (Context → Bytes) → (Context → Bytes) → Context → List Bytes
unfolding escape request_line status_code_of itoa
common_parts f visitor user c =
    f.remote_host
    ∷ escape (visitor c)
    ∷ escape (user c)
    ∷ f.time
    ∷ request_line f c.request
    ∷ itoa (status_code_of c.response)
    ∷ itoa c.response.body_sent_bytes
    ∷ []

-- Common, Combined, and VCombined
unfoldable pub common : Facts → (Context → Bytes) → (Context → Bytes) → Context → Bytes
unfolding common_parts join
common f visitor user c = words (common_parts f visitor user c)

unfoldable pub combined : Facts → (Context → Bytes) → (Context → Bytes) → Context → Bytes
unfolding common_parts join header_get
combined f visitor user c = words (
    common_parts f visitor user c
    ++ quoted (header_get c.request.header (codes "Referer"))
      ∷ quoted (header_get c.request.header (codes "User-Agent"))
      ∷ [])

-- The virtual host, with a port.
unfoldable pub virtual_host : Facts → Request → Bytes
unfolding is_https contains equal
virtual_host f r =
    let host = if equal r.host [] then f.url_host else r.host in
    if contains host (codes ":")
    then host
    else host ++ (if is_https r then codes ":443" else codes ":80")

unfoldable pub vcombined : Facts → (Context → Bytes) → (Context → Bytes) → Context → Bytes
unfolding common_parts join header_get virtual_host escape
vcombined f visitor user c = words (
    virtual_host f c.request
    ∷ (common_parts f visitor user c
        ++ escape (header_get c.request.header (codes "Referer"))
          ∷ escape (header_get c.request.header (codes "User-Agent"))
          ∷ []))

-- The options that New begins with.
unfoldable pub default_options : Options
unfolding combined
default_options = record {
  get_visitor = miss;
  get_user = miss;
  format = combined;
  skip_func = none;
}

-- The function that New returns: the line is printed when the handler has returned, or has panicked,
-- which is not modelled. `facts` is what the request tells besides its Request.
abbrev skips : Option (Context → Bool) → Context → Bool
skips none c = false
skips (some f) c = f c

unfoldable pub log_request :
    Options → Facts → HandleFunc → Context → List Bytes → (Context × Option Error) × List Bytes
log_request o f next c log =
    let (c', e) = next c in
    if skips o.skip_func c
    then ((c', e), log)
    else ((c', e), log ++ o.format f o.get_visitor o.get_user c' ∷ [])
