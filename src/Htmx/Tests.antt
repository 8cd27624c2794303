-- ===== src/Htmx/Tests.antt =====
-- ext/htmx/helpers.go: runs.
use xun.Base.{◌≡◌, refl, true, false, [], ◌∷◌, codes}
use xun.Http.{Request, new_response, header_get}
use xun.Htmx.Defs.{
  plain, is_boosted, target, write_trigger, write_redirect, write_push_url, write_push_url_to,
}

abbrev request : Request
request = record {
  method = codes "GET";
  path = codes "/";
  request_uri = codes "/";
  host = codes "a.com";
  remote_addr = codes "1.2.3.4:5";
  tls = false;
  header = (codes "hx-boosted", codes "true") ∷ (codes "hx-target", codes "list") ∷ [];
  cookies = [];
}

-- The last of two writes of one header counts, and the empty text takes the header out.
htmx_tests :
    (is_boosted request ≡ true)
    × (target request ≡ codes "list")
    × ((write_redirect new_response (codes "/a")).sent ≡ 200 ∷ [])
    × (header_get
          (write_push_url_to (write_push_url new_response) (codes "/b")).header
          (codes "HX-Push-Url")
        ≡ codes "/b")
    × ((write_trigger
          (write_trigger new_response (codes "HX-Trigger") (plain (codes "a")))
          (codes "HX-Trigger")
          (plain [])).header
        ≡ [])
unfolding is_boosted target write_redirect write_push_url_to write_push_url write_trigger
    new_response
htmx_tests = (refl, refl, refl, refl, refl)
