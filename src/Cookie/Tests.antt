-- ===== src/Cookie/Tests.antt =====
-- ext/cookie/: runs, and the theorems at concrete inputs.
use xun.Base.{◌≡◌, refl, ◌++◌, false, none, some, [], ◌∷◌, Bytes, codes, length, All, arith}
use xun.Http.{Request}
use xun.Sse.Event.{pos}
use xun.Crypto.{request_cookie}
use xun.Crypto.Sample.{sample, sample-Decodes, length-sample}
use xun.Cookie.Defs.{
  no_cookie, Cookie, Clock, done, failed, delete_cookie, get, sign_value, set_signed, get_signed,
}
use xun.Cookie.Signed.{signed_cookie, IsSigned, get_signed-set_signed, get_signed-IsSigned}
use xun.Cookie.Bounds.{plain, signed, run, Fits, run-length}

-- A clock with one text for all instants.
abbrev sample_clock : Clock
sample_clock = record { format = λ t. codes "2024-01-02T03:04:05Z"; parse = λ s. some 7 }

abbrev show_cookie : Cookie → Bytes
show_cookie v = v.name ++ b'=' ∷ v.value

abbrev user : Cookie
user = record {
  name = codes "user";
  value = codes "ann";
  expires = none;
  max_age = pos 0;
  attributes = [];
}

abbrev carrying : Request
unfolding sign_value
carrying = record {
  method = codes "GET";
  path = codes "/";
  request_uri = codes "/";
  host = codes "a.com";
  remote_addr = codes "1.2.3.4:5";
  tls = false;
  header = [];
  cookies = (codes "user", (signed_cookie sample sample_clock user (codes "key") 9).value) ∷ [];
}

cookie_tests :
    (get sample carrying (codes "other") ≡ failed no_cookie)
    × (length (delete_cookie show_cookie user []) ≡ 1)
unfolding get delete_cookie carrying
cookie_tests = (refl, refl)

get_signed-set_signed_example :
    (set_signed sample sample_clock show_cookie user (codes "key") 9 []
      ≡ (signed_cookie sample sample_clock user (codes "key") 9 ∷ [], none))
    × (get_signed sample sample_clock carrying (codes "user") (codes "key") ≡ done (codes "ann", 7))
unfolding sign_value request_cookie
get_signed-set_signed_example =
    get_signed-set_signed sample sample_clock show_cookie user (codes "key") 9 7 [] carrying
      sample-Decodes (length-sample (codes "key")) refl refl refl (omega arith) (cc) refl

get_signed-IsSigned_example :
    (raw : Bytes) × (text : Bytes) × (request_cookie carrying (codes "user") ≡ some raw)
    × (sample.decode raw ≡ some text)
    × IsSigned sample sample_clock (codes "user") (codes "key") text (codes "ann") 7
unfolding get_signed
get_signed-IsSigned_example =
    get_signed-IsSigned sample sample_clock carrying (codes "user") (codes "key") (codes "ann") 7
      refl

run-length_example :
    All
      (Fits sample sample_clock show_cookie)
      (run sample sample_clock show_cookie (plain user ∷ signed user (codes "key") 9 ∷ []) [])
run-length_example =
    run-length sample sample_clock show_cookie (plain user ∷ signed user (codes "key") 9 ∷ [])
