-- ===== src/Reqlog/Tests.antt =====
-- ext/reqlog/: runs, and the theorem at a concrete input.
use xun.Base.{arith, has_prefix, ◌≡◌, refl, true, some, [], ◌++◌, codes}
use xun.Http.{new_response}
use xun.App.{Context}
use xun.Reqlog.Defs.{Facts, escape, miss, or_dash, common, virtual_host}
use xun.Reqlog.Escape.{read_field, read_field-escape}

abbrev facts : Facts
facts = record {
  time = codes "[t]";
  proto = codes "HTTP/1.1";
  url_host = [];
  remote_host = codes "1.2.3.4";
}

abbrev context : Context
context = record {
  request = record {
    method = codes "GET";
    path = codes "/a";
    request_uri = codes "/a";
    host = codes "a.com";
    remote_addr = codes "1.2.3.4:5";
    tls = true;
    header = [];
    cookies = [];
  };
  response = new_response;
  viewers = [];
  app_viewers = [];
  temp_data = [];
}

reqlog_tests :
    (common facts miss (λ c. codes "a\"b") context
      ≡ codes "1.2.3.4 - \"a\\\"b\" [t] \"GET /a HTTP/1.1\" 200 0")
    × (virtual_host facts context.request ≡ codes "a.com:443")
    × (or_dash (λ c. []) context ≡ codes "-")
unfolding common virtual_host or_dash new_response has_prefix
reqlog_tests = (refl, refl, refl)

-- A backslash at the end of a value takes the quote behind it into the value.
backslash_test :
    read_field (escape (codes "a\\") ++ codes " \"b\"") ≡ some (codes "a\" ", codes "b\"")
unfolding read_field escape
backslash_test = refl

read_field-escape_example :
    read_field (escape (codes "a\"b") ++ codes " 200 0") ≡ some (codes "a\"b", codes " 200 0")
read_field-escape_example =
    read_field-escape (codes "a\"b") (codes " 200 0") (omega arith) (λ e. cc)
