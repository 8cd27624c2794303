-- ===== src/Mime/Tests.antt =====
-- mime.go and context.go: runs, and the theorems at concrete inputs.
use xun.Base.{
  is_space, equal, ◌≡◌, refl, [], ◌∷◌, List, Bytes, codes, arith, true, false, join, All,
}
use xun.Http.{Request, header_get}
use xun.Mime.Defs.{
  MimeType, new_mime_type, matches, get_mime_type, accept, accept_language, star, show,
}
use xun.Mime.Accept.{Ranged, IsRanged, accept-print}

abbrev html : MimeType
html = record { type = codes "text"; sub_type = codes "html" }

abbrev any_xml : MimeType
any_xml = record { type = codes "*"; sub_type = codes "xml" }

abbrev asks : Bytes → Request
asks accepted = record {
  method = codes "GET";
  path = codes "/";
  request_uri = codes "/";
  host = codes "a.com";
  remote_addr = codes "1.2.3.4:5";
  tls = false;
  header = (codes "accept", accepted) ∷ (codes "accept-language", codes "en-US, de;q=0.5") ∷ [];
  cookies = [];
}

accept_tests :
    (accept (asks (codes "text/html;level=1, */xml ;q=0.9")) ≡ html ∷ any_xml ∷ [])
    × (accept (asks []) ≡ [])
    × (accept_language (asks []) ≡ codes "en-US" ∷ codes "de" ∷ [])
    × (new_mime_type (codes "text") ≡ record { type = codes "text"; sub_type = star })
    × (matches html (record { type = star; sub_type = codes "html" }) ≡ true)
    × (matches html any_xml ≡ false)
unfolding accept accept_language new_mime_type matches
accept_tests = (refl, refl, refl, refl, refl, refl)

get_mime_type_test :
    get_mime_type (λ _. codes "text/css; charset=utf-8") (λ _. []) (codes ".css") []
    ≡ (record { type = codes "text"; sub_type = codes "css" }, codes "; charset=utf-8")
unfolding get_mime_type equal
get_mime_type_test = refl

abbrev ranges : List Ranged
ranges =
    record { mime = html; params = codes ";q=0.8" } ∷ record { mime = any_xml; params = [] } ∷ []

ranges-IsRanged : All IsRanged ranges
unfolding is_space
ranges-IsRanged = (
  record { type_token = ground arith; sub_type_token = ground arith; params_well = omega arith },
  (record { type_token = ground arith; sub_type_token = ground arith; params_well = tt }, tt),
)

accept-print_example : accept (asks (codes "text/html;q=0.8,*/xml")) ≡ html ∷ any_xml ∷ []
unfolding show join header_get
accept-print_example =
    accept-print (asks (codes "text/html;q=0.8,*/xml")) ranges (λ e. cc) ranges-IsRanged refl
