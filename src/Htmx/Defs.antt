-- ===== src/Htmx/Defs.antt =====
-- ext/htmx/helpers.go, and WriteHeader of htmx.go. A value of a header is a text, or another value by
-- the text that encoding it as JSON writes, which is empty if that fails at once.
use xun.Base.{Bool, Bytes, codes, equal}
use xun.Http.{Request, Response, header_get, write_header, write_status}

pub data HeaderValue : Type 0 where
  plain : Bytes → HeaderValue
  encoded : Bytes → HeaderValue

-- WriteHeader
unfoldable pub write_hx : Response → Bytes → HeaderValue → Response
unfolding write_header
write_hx rw key (plain s) = write_header rw key s
write_hx rw key (encoded buf) = write_header rw key buf

abbrev is_true : Request → Bytes → Bool
is_true r key = equal (header_get r.header key) (codes "true")

-- IsBoosted, IsHistoryRestore
unfoldable pub is_boosted : Request → Bool
unfolding equal header_get
is_boosted r = is_true r (codes "HX-Boosted")

unfoldable pub is_history_restore : Request → Bool
unfolding equal header_get
is_history_restore r = is_true r (codes "HX-History-Restore-Request")

-- Target, Trigger, TriggerName, Prompt, CurrentURL
unfoldable pub target : Request → Bytes
unfolding header_get
target r = header_get r.header (codes "HX-Target")

unfoldable pub trigger : Request → Bytes
unfolding header_get
trigger r = header_get r.header (codes "HX-Trigger")

unfoldable pub trigger_name : Request → Bytes
unfolding header_get
trigger_name r = header_get r.header (codes "HX-Trigger-Name")

unfoldable pub prompt : Request → Bytes
unfolding header_get
prompt r = header_get r.header (codes "HX-Prompt")

unfoldable pub current_url : Request → Bytes
unfolding header_get
current_url r = header_get r.header (codes "HX-Current-Url")

-- WriteTrigger, with the key of one of the three steps
unfoldable pub write_trigger : Response → Bytes → HeaderValue → Response
unfolding write_hx
write_trigger rw key value = write_hx rw key value

-- WriteRedirect
unfoldable pub write_redirect : Response → Bytes → Response
unfolding write_hx write_status
write_redirect rw url = write_status (write_hx rw (codes "HX-Redirect") (plain url)) 200

-- WriteRefresh, WriteLocation, WriteRetarget
unfoldable pub write_refresh : Response → Response
unfolding write_hx
write_refresh rw = write_hx rw (codes "HX-Refresh") (plain (codes "true"))

unfoldable pub write_location : Response → Bytes → Response
unfolding write_hx
write_location rw json = write_hx rw (codes "HX-Location") (encoded json)

unfoldable pub write_retarget : Response → Bytes → Response
unfolding write_hx
write_retarget rw selector = write_hx rw (codes "HX-Retarget") (plain selector)

-- WritePushUrl, WritePushUrlTo, WriteReplaceUrl, WriteReplaceUrlTo
unfoldable pub write_push_url : Response → Response
unfolding write_hx
write_push_url rw = write_hx rw (codes "HX-Push-Url") (plain (codes "true"))

unfoldable pub write_push_url_to : Response → Bytes → Response
unfolding write_hx
write_push_url_to rw url = write_hx rw (codes "HX-Push-Url") (plain url)

unfoldable pub write_replace_url : Response → Response
unfolding write_hx
write_replace_url rw = write_hx rw (codes "HX-Replace-Url") (plain (codes "true"))

unfoldable pub write_replace_url_to : Response → Bytes → Response
unfolding write_hx
write_replace_url_to rw url = write_hx rw (codes "HX-Replace-Url") (plain url)

-- WriteReswap, WriteReselect
unfoldable pub write_reswap : Response → Bytes → Response
unfolding write_hx
write_reswap rw strategy = write_hx rw (codes "HX-Reswap") (plain strategy)

unfoldable pub write_reselect : Response → Bytes → Response
unfolding write_hx
write_reselect rw selector = write_hx rw (codes "HX-Reselect") (plain selector)
