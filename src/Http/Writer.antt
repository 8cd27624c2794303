-- ===== src/Http/Writer.antt =====
-- response_writer_std.go: what the response writer promises over any sequence of calls.
use xun.Base.{
  ℕ, ◌+◌, ◌≡◌, ◌≢◌, refl, List, [], ◌∷◌, ◌++◌, Bytes, arith, ◌==◌, All, if◌then◌else◌, append-nil,
  ◌∙◌,
}
use xun.Http.Defs.{Response, new_response, write_status, status_code_of, write_body, write_header}

-- A call on the writer; `writes b n` is a Write of `b` of which `n` bytes are taken.
pub data Call : Type 0 where
  writes_status : ℕ → Call
  writes : Bytes → ℕ → Call
  writes_header : Bytes → Bytes → Call

pub call : Response → Call → Response
call rw (writes_status code) = write_status rw code
call rw (writes b n) = write_body rw b n
call rw (writes_header key value) = write_header rw key value

pub calls : Response → List Call → Response
unfolding call
calls rw [] = rw
calls rw (c ∷ cs) = calls (call rw c) cs

-- The bytes taken, and the first nonzero status asked for (0 if there is none).
abbrev pub bytes_taken : List Call → ℕ
bytes_taken [] = 0
bytes_taken (writes b n ∷ cs) = n + bytes_taken cs
bytes_taken (_ ∷ cs) = bytes_taken cs

abbrev pub first_status : List Call → ℕ
first_status [] = 0
first_status (writes_status code ∷ cs) = if code == 0 then first_status cs else code
first_status (_ ∷ cs) = first_status cs

abbrev AskedWell : Call → Type 0
AskedWell (writes_status code) = code ≢ 0
AskedWell _ = Unit {0}

-- Every status asked for is a real one: net/http panics below 100.
abbrev pub AllAskedWell : List Call → Type 0
AllAskedWell cs = All AskedWell cs

abbrev pub or_else : ℕ → ℕ → ℕ
or_else a b = if a == 0 then b else a

abbrev pub singleton_of : ℕ → List ℕ
singleton_of n = if n == 0 then [] else n ∷ []

write_header-keeps :
    (rw : Response) (key value : Bytes)
    → ((write_header rw key value).status_code ≡ rw.status_code)
      × ((write_header rw key value).body_sent_bytes ≡ rw.body_sent_bytes)
      × ((write_header rw key value).sent ≡ rw.sent)
unfolding write_header
write_header-keeps rw key [] = (refl, refl, refl)
write_header-keeps rw key (c ∷ value) = (refl, refl, refl)

write_status-first :
    (rw : Response) (code n : ℕ)
    → code ≢ 0
    → (or_else (write_status rw code).status_code n
        ≡ or_else rw.status_code (if code == 0 then n else code))
      × ((if (write_status rw code).status_code == 0
            then (write_status rw code).sent ++ singleton_of n
            else (write_status rw code).sent)
          ≡ (if rw.status_code == 0
              then rw.sent ++ singleton_of (if code == 0 then n else code)
              else rw.sent))
unfolding write_status
write_status-first rw code n h = ground arith

calls-written :
    (cs : List Call) (next rw : Response)
    → ((calls next cs).status_code ≡ or_else next.status_code (first_status cs))
      × ((calls next cs).sent ≡ (
          if next.status_code == 0 then next.sent ++ singleton_of (first_status cs) else next.sent))
    → next.status_code ≡ rw.status_code
    → next.sent ≡ rw.sent
    → ((calls next cs).status_code ≡ or_else rw.status_code (first_status cs))
      × ((calls next cs).sent
          ≡ (if rw.status_code == 0 then rw.sent ++ singleton_of (first_status cs) else rw.sent))
calls-written cs next rw (e, f) same sent = ground arith

calls-status :
    (cs : List Call) (rw : Response)
    → AllAskedWell cs
    → ((calls rw cs).status_code ≡ or_else rw.status_code (first_status cs))
      × ((calls rw cs).sent
          ≡ (if rw.status_code == 0 then rw.sent ++ singleton_of (first_status cs) else rw.sent))
unfolding calls
calls-status [] rw h = ground (arith, append-nil rw.sent)
calls-status (writes_status code ∷ cs) rw (p, h) =
    let (same, sent) = calls-status cs (write_status rw code) h in
    let (first, second) = write_status-first rw code (first_status cs) p in
    (same ∙ first, sent ∙ second)
calls-status (writes b n ∷ cs) rw (p, h) =
    calls-written cs (write_body rw b n) rw (calls-status cs (write_body rw b n) h)
      (unfold write_body in refl) (unfold write_body in refl)
calls-status (writes_header key value ∷ cs) rw (p, h) =
    let (same, _, sent) = write_header-keeps rw key value in
    calls-written cs (write_header rw key value) rw (calls-status cs (write_header rw key value) h)
      same sent

write_status-bytes :
    (rw : Response) (code : ℕ) → (write_status rw code).body_sent_bytes ≡ rw.body_sent_bytes
unfolding write_status
write_status-bytes rw code = ground arith

write_body-bytes :
    (rw : Response) (b : Bytes) (n : ℕ)
    → (write_body rw b n).body_sent_bytes ≡ rw.body_sent_bytes + n
unfolding write_body
write_body-bytes rw b n = refl

calls-body_sent_bytes :
    (cs : List Call) (rw : Response)
    → (calls rw cs).body_sent_bytes ≡ rw.body_sent_bytes + bytes_taken cs
unfolding calls
calls-body_sent_bytes [] rw = omega arith
calls-body_sent_bytes (writes_status code ∷ cs) rw =
    ground (arith, calls-body_sent_bytes cs (write_status rw code), write_status-bytes rw code)
calls-body_sent_bytes (writes b n ∷ cs) rw =
    ground (arith, calls-body_sent_bytes cs (write_body rw b n), write_body-bytes rw b n)
calls-body_sent_bytes (writes_header key value ∷ cs) rw =
    ground
      (arith, calls-body_sent_bytes cs (write_header rw key value), write_header-keeps rw key value)

-- Over any calls on a new writer, whose statuses are not 0: the underlying writer is given the
-- first status asked for and no other, StatusCode reports it (200 when none was asked for), and
-- BodyBytesSent is the sum of the bytes taken.
pub calls-new_response :
    (cs : List Call)
    → AllAskedWell cs
    → ((calls new_response cs).sent ≡ singleton_of (first_status cs))
      × (status_code_of (calls new_response cs) ≡ or_else (first_status cs) 200)
      × ((calls new_response cs).body_sent_bytes ≡ bytes_taken cs)
unfolding new_response status_code_of
calls-new_response cs h =
    let (status, sent) = calls-status cs new_response h in
    (sent, ground arith, calls-body_sent_bytes cs new_response ∙ omega arith)
