-- ===== src/Sse/Event/Tests.antt =====
-- ext/sse/event.go and reader.go: runs, and the theorem at a concrete input.
use xun.Base.{
  ◌≡◌, refl, true, false, none, some, List, [], ◌∷◌, ◌++◌, Bytes, codes, arith, inl, split, join,
  take, drop, IsTrimmed, is_space, index_byte-eq-none, index_byte, trim,
}
use xun.Sse.Event.Numbers.{negsuc, itoa, atoi}
use xun.Sse.Event.Defs.{TextEvent, write_text, write_json, write_ping, next, no_event}
use xun.Sse.Event.Lines.{IsField}
use xun.Sse.Event.RoundTrip.{event, next-write_text}

abbrev sample : TextEvent
sample = event (codes "7") (codes "tick") 12 (codes "a b\n\nc")

abbrev sample_text : Bytes
sample_text = codes "id: 7\nretry: 12\nevent: tick\ndata: a b\ndata: \ndata: c\n\n\n"

-- The last run loses the second event: it stands in the same chunk as the first.
event_tests :
    (write_text sample ≡ sample_text)
    × (write_json [] (codes "n") (negsuc 0) (some (codes "{}\n"))
        ≡ some (codes "event: n\ndata: {}\n\n\n"))
    × (next (write_ping ∷ []) ≡ (no_event, false, []))
    × (next (codes "data: x\n" ∷ codes "\n" ∷ []) ≡ (event [] [] 0 (codes "x"), true, []))
    × (next ((sample_text ++ sample_text) ∷ []) ≡ (sample, false, []))
    × (atoi (codes "-5") ≡ some (negsuc 4))
    × (atoi (codes "9223372036854775808") ≡ none)
unfolding write_text write_json next itoa atoi
event_tests = (refl, refl, refl, refl, refl, refl, refl)

field : (s : Bytes) → index_byte s b'\n' ≡ none → IsTrimmed is_space s → IsField s
field s h k = record { lacks = index_byte-eq-none s b'\n' h; trimmed = k }

next-write_text_example :
    (left : List Bytes) × (next (take 30 sample_text ∷ drop 30 sample_text ∷ [])
      ≡ (sample, false, left))
unfolding write_text itoa split join is_space index_byte trim
next-write_text_example =
    next-write_text (codes "7") (codes "tick") (codes "a b") 12 ([] ∷ codes "c" ∷ [])
      (take 30 sample_text ∷ drop 30 sample_text ∷ []) (field (codes "7") refl refl)
      (field (codes "tick") refl refl) (omega arith) (inl (λ e. cc))
      (field (codes "a b") refl refl, (field [] refl refl, (field (codes "c") refl refl, tt))) refl
