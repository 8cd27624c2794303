-- ===== src/Http/Defs.antt =====
-- A request, and response_writer_std.go: the standard response writer over net/http's.
-- Header keys are kept in lower case, where net/http keeps one canonical case; Get and Set meet the
-- first value of a key, and cookies, which are added, are a list of their own.
use xun.Base.{
  ℕ, ◌+◌, take, Bool, false, none, some, List, [], ◌∷◌, ◌++◌, Bytes, Dict, ◌==◌, if◌then◌else◌,
  lookup, insert, delete, to_lower,
}

-- Header.Get: a missing key reads as the empty text.
unfoldable pub header_get : Dict Bytes → Bytes → Bytes
unfolding lookup to_lower
header_get h key = elim (lookup (to_lower key) h) [ none ↦ [] | some v ↦ v ]

unfoldable pub header_set : Dict Bytes → Bytes → Bytes → Dict Bytes
unfolding insert to_lower
header_set h key value = insert (to_lower key) value h

unfoldable pub header_del : Dict Bytes → Bytes → Dict Bytes
unfolding delete to_lower
header_del h key = delete (to_lower key) h

pub record Request : Type 0 where
  pub method : Bytes
  pub path : Bytes
  pub request_uri : Bytes
  pub host : Bytes
  pub remote_addr : Bytes
  pub tls : Bool
  pub header : Dict Bytes
  pub cookies : Dict Bytes

-- `status_code` and `body_sent_bytes` are the writer's fields, and the status is 0 until one is
-- written. `sent` holds what reached the underlying writer: the status codes, oldest first.
pub record Response : Type 0 where
  pub header : Dict Bytes
  pub set_cookies : List (Bytes × Bytes)
  pub status_code : ℕ
  pub body_sent_bytes : ℕ
  pub sent : List ℕ
  pub body : Bytes
  pub closed : Bool

-- NewResponseWriter
unfoldable pub new_response : Response
new_response = record {
  header = [];
  set_cookies = [];
  status_code = 0;
  body_sent_bytes = 0;
  sent = [];
  body = [];
  closed = false;
}

-- WriteHeader of stdResponseWriter: the first status alone is passed on.
unfoldable pub write_status : Response → ℕ → Response
write_status rw code =
    if rw.status_code == 0
    then record rw { status_code = code; sent = rw.sent ++ code ∷ [] }
    else rw

-- StatusCode
unfoldable pub status_code_of : Response → ℕ
status_code_of rw = if rw.status_code == 0 then 200 else rw.status_code

-- Write, where the underlying writer takes the first `n` bytes.
unfoldable pub write_body : Response → Bytes → ℕ → Response
write_body rw b n = record rw {
  body_sent_bytes = rw.body_sent_bytes + n;
  body = rw.body ++ take n b;
}

-- WriteHeader of Context: an empty value deletes the key.
unfoldable pub write_header : Response → Bytes → Bytes → Response
unfolding header_set header_del
write_header rw key [] = record rw { header = header_del rw.header key }
write_header rw key (c ∷ value) = record rw { header = header_set rw.header key (c ∷ value) }

-- http.SetCookie, of a name and a value
unfoldable pub set_cookie : Response → Bytes → Bytes → Response
set_cookie rw name value = record rw { set_cookies = rw.set_cookies ++ (name, value) ∷ [] }
