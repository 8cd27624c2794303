-- ===== src/Etag/Tests.antt =====
-- etag.go: runs, and the theorems at concrete inputs.
use xun.Base.{◌≡◌, refl, true, false, some, [], ◌∷◌, Bytes, codes, Bool, equal, join}
use xun.Http.{Request, Response, header_get}
use xun.Etag.Defs.{etag_weak_match, check_if_none_match, write_if_none_match, is_etag_byte}
use xun.Etag.Scan.{close, byte, IsEtag, strong, weak}
use xun.Etag.Total.{check_if_none_match_total}
use xun.Etag.Listed.{check_if_none_match-tags}
use xun.Etag.Answer.{IsAnswer, write_if_none_match-IsAnswer}

abbrev tagged : Response
tagged = record {
  header = (codes "etag", codes "\"b\"") ∷ (codes "content-type", codes "x") ∷ [];
  set_cookies = [];
  status_code = 0;
  body_sent_bytes = 0;
  sent = [];
  body = [];
  closed = false;
}

abbrev asks : Bytes → Request
asks tags = record {
  method = codes "GET";
  path = codes "/";
  request_uri = codes "/";
  host = codes "a.com";
  remote_addr = codes "1.2.3.4:5";
  tls = false;
  header = (codes "if-none-match", tags) ∷ [];
  cookies = [];
}

check_tests :
    (check_if_none_match tagged (asks (codes "\"a\" , W/\"b\"")) ≡ some true)
    × (check_if_none_match tagged (asks (codes ",,*")) ≡ some true)
    × (check_if_none_match tagged (asks (codes "\"a\"")) ≡ some false)
    × (check_if_none_match tagged (asks (codes "\"a b\", \"b\"")) ≡ some false)
    × (check_if_none_match tagged (asks []) ≡ some false)
unfolding check_if_none_match equal
check_tests = (refl, refl, refl, refl, refl)

a_tag : IsEtag (codes "\"a\"")
unfolding is_etag_byte
a_tag = strong (byte refl close)

b_tag : IsEtag (codes "W/\"b\"")
unfolding is_etag_byte
b_tag = weak (byte refl close)

check_if_none_match_total_example :
    (b : Bool) × (check_if_none_match tagged (asks (codes "x")) ≡ some b)
check_if_none_match_total_example = check_if_none_match_total tagged (asks (codes "x"))

check_if_none_match-tags_example :
    check_if_none_match tagged (asks (codes "\"a\", W/\"b\"")) ≡ some true
unfolding join header_get etag_weak_match
check_if_none_match-tags_example =
    check_if_none_match-tags tagged (asks (codes "\"a\", W/\"b\"")) (codes "\"a\"")
      (codes "W/\"b\"" ∷ []) a_tag (b_tag, tt) refl

write_if_none_match-IsAnswer_example :
    (matched : Bool) × (a : Response × Bool) × (check_if_none_match tagged (asks (codes "\"b\""))
      ≡ some matched)
    × (write_if_none_match tagged (asks (codes "\"b\"")) ≡ some a)
    × IsAnswer tagged (asks (codes "\"b\"")) matched a
write_if_none_match-IsAnswer_example =
    write_if_none_match-IsAnswer tagged (asks (codes "\"b\"")) refl
