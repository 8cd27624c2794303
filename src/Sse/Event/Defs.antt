-- ===== src/Sse/Event/Defs.antt =====
-- ext/sse/event.go and reader.go: writing events, and the reader's Next.
-- The stream is the list of the chunks that its reads return, up to its end. Each call of Next makes
-- a buffered reader of its own, so that what a chunk holds behind the event's end is lost; a chunk
-- longer than the buffer is two chunks. A read that fails other than at the end is left out.
use xun.Base.{
  ℕ, zero, suc, ◌+◌, Bool, true, false, Option, none, some, List, [], ◌∷◌, ◌++◌, Bytes, codes, ◌==◌,
  ltb, if◌then◌else◌, equal, has_prefix, trim_space, drop, split,
}
use xun.Sse.Event.Numbers.{ℤ, pos, negsuc, itoa, atoi}

-- `content` is the field Data.
pub record TextEvent : Type 0 where
  pub id : Bytes
  pub name : Bytes
  pub retry : ℤ
  pub content : Bytes

abbrev pub line : Bytes → Bytes → Bytes
line label value = label ++ (value ++ b'\n' ∷ [])

abbrev pub line_unless_empty : Bytes → Bytes → Bytes
line_unless_empty label [] = []
line_unless_empty label (c ∷ value) = line label (c ∷ value)

abbrev pub retry_line : ℤ → Bytes
retry_line (pos zero) = []
retry_line (pos (suc n)) = line (codes "retry: ") (itoa (suc n))
retry_line (negsuc n) = []

abbrev pub data_lines : List Bytes → Bytes
data_lines [] = []
data_lines (l ∷ ls) = line (codes "data: ") l ++ data_lines ls

-- Write of TextEvent: the text that reaches the writer.
unfoldable pub write_text : TextEvent → Bytes
unfolding itoa split
write_text e =
    line_unless_empty (codes "id: ") e.id
    ++ (retry_line e.retry
        ++ (line_unless_empty (codes "event: ") e.name
            ++ (data_lines (split e.content b'\n') ++ codes "\n\n")))

abbrev nonempty : List Bytes → List Bytes
nonempty [] = []
nonempty ([] ∷ ls) = nonempty ls
nonempty ((c ∷ l) ∷ ls) = (c ∷ l) ∷ nonempty ls

-- Write of JsonEvent, where encoding the data gave a text or an error.
unfoldable pub write_json : (id name : Bytes) → ℤ → (encoded : Option Bytes) → Option Bytes
unfolding itoa split
write_json id name retry none = none
write_json id name retry (some encoded) = some (
    line_unless_empty (codes "id: ") id
    ++ (retry_line retry
        ++ (line_unless_empty (codes "event: ") name
            ++ (data_lines (nonempty (split encoded b'\n')) ++ codes "\n\n"))))

-- Write of PingEvent
abbrev pub write_ping : Bytes
write_ping = codes ": ping\n\n\n"

-- A Next in progress: the blank lines seen in a row, the event, and the bytes of the line begun; or
-- done.
pub data Reading : Type 0 where
  reading : ℕ → TextEvent → Bytes → Reading
  finished : TextEvent → Reading

abbrev pub set_retry : TextEvent → Option ℤ → TextEvent
set_retry e none = e
set_retry e (some n) = record e { retry = n }

abbrev pub add_data : TextEvent → Bytes → TextEvent
add_data e value =
    if equal e.content []
    then record e { content = value }
    else record e { content = e.content ++ b'\n' ∷ value }

-- The field of a line.
unfoldable pub read_field : TextEvent → Bytes → TextEvent
unfolding has_prefix trim_space equal atoi
read_field e l =
    if has_prefix l (codes "id:")
    then record e { id = trim_space (drop 3 l) }
    else if has_prefix l (codes "event:")
    then record e { name = trim_space (drop 6 l) }
    else if has_prefix l (codes "retry:")
    then set_retry e (atoi (trim_space (drop 6 l)))
    else if has_prefix l (codes "data:")
    then add_data e (trim_space (drop 5 l))
    else e

-- The body of the loop of Next, on a line with its end.
unfoldable pub read_line : ℕ → TextEvent → Bytes → Reading
unfolding read_field
read_line breaks e l =
    if has_prefix l (codes ":")
    then reading breaks e []
    else if equal l (codes "\n")
    then if ltb 1 (breaks + 1) then finished e else reading (breaks + 1) e []
    else reading 0 (read_field e l) []

-- ReadBytes('\n') over one chunk.
unfoldable pub feed : Reading → Bytes → Reading
unfolding read_line
feed (finished e) s = finished e
feed (reading breaks e begun) [] = reading breaks e begun
feed (reading breaks e begun) (c ∷ s) =
    feed
      (if c == b'\n'
        then read_line breaks e (begun ++ c ∷ [])
        else reading breaks e (begun ++ c ∷ []))
      s

-- What Next returns: the event, whether the stream ended first (io.EOF), and the chunks that are
-- left on the stream.
abbrev pub Next : Type 0
Next = TextEvent × Bool × List Bytes

abbrev pub no_event : TextEvent
no_event = record { id = []; name = []; retry = pos 0; content = [] }

unfoldable pub next_from : Reading → List Bytes → Next
unfolding feed
next_from (finished e) chunks = (e, false, chunks)
next_from (reading breaks e begun) [] = (e, true, [])
next_from (reading breaks e begun) (chunk ∷ chunks) =
    next_from (feed (reading breaks e begun) chunk) chunks

-- Next
unfoldable pub next : List Bytes → Next
unfolding next_from
next chunks = next_from (reading 0 no_event []) chunks
