-- ===== src/Http/Tests.antt =====
-- response_writer_std.go: runs, and the theorem at concrete calls.
use xun.Base.{◌≡◌, refl, [], ◌∷◌, List, codes, arith}
use xun.Http.Defs.{new_response, write_header, header_get, status_code_of}
use xun.Http.Writer.{Call, writes_status, writes, writes_header, calls, calls-new_response}

abbrev some_calls : List Call
some_calls =
    writes_header (codes "ETag") (codes "x")
    ∷ writes (codes "abc") 2
    ∷ writes_status 404
    ∷ writes_status 500
    ∷ writes (codes "d") 1
    ∷ []

header_tests :
    header_get (write_header new_response (codes "ETag") (codes "x")).header (codes "Etag")
    ≡ codes "x"
unfolding new_response write_header header_get
header_tests = refl

calls-new_response_example :
    ((calls new_response some_calls).sent ≡ 404 ∷ [])
    × (status_code_of (calls new_response some_calls) ≡ 404)
    × ((calls new_response some_calls).body_sent_bytes ≡ 3)
calls-new_response_example = calls-new_response some_calls (omega arith)
