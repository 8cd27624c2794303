-- ===== src/Sse/Event/RoundTrip.antt =====
-- ext/sse/event.go and reader.go: a written event is read back.
use xun.Base.{
  ℕ, zero, suc, ◌^◌, ◌<◌, true, false, ◌≡◌, ◌≢◌, refl, ap, ◌∙◌, ◌⊎◌, inl, inr, List, [], ◌∷◌, ◌++◌,
  Bytes, codes, equal, has_prefix, Lacks, All, append_assoc, arith, is_space, trim-IsSolid,
  index_byte, index_byte-eq-none, split-join, join,
}
use xun.Sse.Event.Numbers.{pos, itoa, atoi, itoa-All, atoi-itoa, is_digit}
use xun.Sse.Event.Defs.{
  TextEvent, line, line_unless_empty, retry_line, data_lines, write_text, reading, finished,
  read_line, feed, next, add_data, set_retry, no_event,
}
use xun.Sse.Event.Lines.{stream, next_from-feed, feed-line, IsField, trim-IsField}

abbrev pub event : Bytes → Bytes → ℕ → Bytes → TextEvent
event id name n content = record { id = id; name = name; retry = pos n; content = content }

id_line :
    (v rest : Bytes)
    → IsField v
    → feed (reading 0 no_event []) (line_unless_empty (codes "id: ") v ++ rest)
      ≡ feed (reading 0 (event v [] 0 []) []) rest
unfolding read_line has_prefix equal index_byte
id_line [] rest h = refl
id_line (c ∷ v) rest h =
    feed-line (codes "id: ") (c ∷ v) 0 no_event rest (index_byte-eq-none (codes "id: ") b'\n' refl)
      h.lacks
    ∙ ap (λ w. feed (reading 0 (event w [] 0 []) []) rest) (trim-IsField (c ∷ v) h)

name_line :
    (id v rest : Bytes) (n : ℕ)
    → IsField v
    → feed (reading 0 (event id [] n []) []) (line_unless_empty (codes "event: ") v ++ rest)
      ≡ feed (reading 0 (event id v n []) []) rest
unfolding read_line has_prefix equal index_byte
name_line id [] rest n h = refl
name_line id (c ∷ v) rest n h =
    feed-line (codes "event: ") (c ∷ v) 0 (event id [] n []) rest
      (index_byte-eq-none (codes "event: ") b'\n' refl) h.lacks
    ∙ ap (λ w. feed (reading 0 (event id w n []) []) rest) (trim-IsField (c ∷ v) h)

digits-IsField :
    (s : Bytes) → All (λ c. is_digit c ≡ true) s → Lacks b'\n' s × All (λ c. is_space c ≡ false) s
unfolding is_space
digits-IsField [] h = (tt, tt)
digits-IsField (c ∷ s) (h, hs) =
    let (lacks, solid) = digits-IsField s hs in
    ((ground (arith, h), lacks), (ground (arith, h), solid))

number-IsField : (n : ℕ) → IsField (itoa n)
number-IsField n =
    let (lacks, solid) = digits-IsField (itoa n) (itoa-All n) in
    record { lacks = lacks; trimmed = trim-IsSolid is_space (itoa n) solid }

retry_from :
    (id rest : Bytes) (n : ℕ)
    → n < 2 ^ 63
    → feed (reading 0 (event id [] 0 []) []) (retry_line (pos n) ++ rest)
      ≡ feed (reading 0 (event id [] n []) []) rest
unfolding read_line has_prefix equal index_byte
retry_from id rest zero h = refl
retry_from id rest (suc n) h =
    let e = event id [] 0 [] in
    feed-line (codes "retry: ") (itoa (suc n)) 0 e rest
      (index_byte-eq-none (codes "retry: ") b'\n' refl) (number-IsField (suc n)).lacks
    ∙ ap (λ w. feed (reading 0 (set_retry e (atoi w)) []) rest)
        (trim-IsField (itoa (suc n)) (number-IsField (suc n)))
    ∙ ap (λ w. feed (reading 0 (set_retry e w) []) rest) (atoi-itoa (suc n) h)

-- What a data line does to the event.
data_line :
    (e : TextEvent) (l rest : Bytes)
    → IsField l
    → feed (reading 0 e []) (line (codes "data: ") l ++ rest)
      ≡ feed (reading 0 (add_data e l) []) rest
unfolding read_line has_prefix index_byte
data_line e l rest h =
    feed-line (codes "data: ") l 0 e rest (index_byte-eq-none (codes "data: ") b'\n' refl) h.lacks
    ∙ ap (λ w. feed (reading 0 (add_data e w) []) rest) (trim-IsField l h)

-- The content behind one that is there.
abbrev grown : Bytes → List Bytes → Bytes
grown d [] = d
grown d (l ∷ ls) = grown (d ++ b'\n' ∷ l) ls

grown-join : (d : Bytes) (ls : List Bytes) → grown d ls ≡ join (d ∷ ls) (b'\n' ∷ [])
unfolding join
grown-join d [] = refl
grown-join d (l ∷ []) = refl
grown-join d (l ∷ m ∷ ls) =
    grown-join (d ++ b'\n' ∷ l) (m ∷ ls)
    ∙ append_assoc d (b'\n' ∷ l) (b'\n' ∷ join (m ∷ ls) (b'\n' ∷ []))

abbrev tail : Bytes
tail = codes "\n\n"

feed-tail : (e : TextEvent) → feed (reading 0 e []) tail ≡ finished e
unfolding feed read_line has_prefix equal
feed-tail e = refl

add_data-some :
    (id name d l : Bytes) (n : ℕ)
    → d ≢ []
    → add_data (event id name n d) l ≡ event id name n (d ++ b'\n' ∷ l)
unfolding equal
add_data-some id name [] l n h = absurd (h refl)
add_data-some id name (c ∷ d) l n h = refl

append-ne-nil : (d l : Bytes) → d ++ b'\n' ∷ l ≢ []
append-ne-nil [] l = cc
append-ne-nil (c ∷ d) l = cc

more_lines :
    (id name d : Bytes) (n : ℕ) (ls : List Bytes)
    → d ≢ []
    → All IsField ls
    → feed (reading 0 (event id name n d) []) (data_lines ls ++ tail)
      ≡ finished (event id name n (grown d ls))
more_lines id name d n [] h k = feed-tail (event id name n d)
more_lines id name d n (l ∷ ls) h (k, ks) =
    ap (feed (reading 0 (event id name n d) []))
      (append_assoc (line (codes "data: ") l) (data_lines ls) tail)
    ∙ data_line (event id name n d) l (data_lines ls ++ tail) k
    ∙ ap (λ e. feed (reading 0 e []) (data_lines ls ++ tail)) (add_data-some id name d l n h)
    ∙ more_lines id name (d ++ b'\n' ∷ l) n ls (append-ne-nil d l) ks

feed-data_lines :
    (id name first : Bytes) (n : ℕ) (ls : List Bytes)
    → (first ≢ []) ⊎ (ls ≡ [])
    → All IsField (first ∷ ls)
    → feed (reading 0 (event id name n []) []) (data_lines (first ∷ ls) ++ tail)
      ≡ finished (event id name n (join (first ∷ ls) (b'\n' ∷ [])))
unfolding equal join
feed-data_lines id name first n ls h (k, ks) =
    ap (feed (reading 0 (event id name n []) []))
      (append_assoc (line (codes "data: ") first) (data_lines ls) tail)
    ∙ data_line (event id name n []) first (data_lines ls ++ tail) k
    ∙ elim h [
      | inl ne ↦
          more_lines id name first n ls ne ks
          ∙ ap (λ c. finished (event id name n c)) (grown-join first ls)
      | inr e ↦ rw e (feed-tail (event id name n first))
    ]

All-Lacks : (ls : List Bytes) → All IsField ls → All (Lacks b'\n') ls
All-Lacks [] h = tt
All-Lacks (l ∷ ls) (h, hs) = (h.lacks, All-Lacks ls hs)

feed-write_text :
    (id name first : Bytes) (n : ℕ) (ls : List Bytes)
    → IsField id
    → IsField name
    → n < 2 ^ 63
    → (first ≢ []) ⊎ (ls ≡ [])
    → All IsField (first ∷ ls)
    → feed (reading 0 no_event []) (write_text (event id name n (join (first ∷ ls) (b'\n' ∷ []))))
      ≡ finished (event id name n (join (first ∷ ls) (b'\n' ∷ [])))
unfolding write_text
feed-write_text id name first n ls i m r h k =
    let content = join (first ∷ ls) (b'\n' ∷ []) in
    let ends = data_lines (first ∷ ls) ++ tail in
    let named = line_unless_empty (codes "event: ") name ++ ends in
    ap
      (λ l. feed (reading 0 no_event []) (
        line_unless_empty (codes "id: ") id
        ++ (retry_line (pos n)
            ++ (line_unless_empty (codes "event: ") name ++ (data_lines l ++ tail)))))
      (split-join (first ∷ ls) b'\n' (λ e. cc) (All-Lacks (first ∷ ls) k))
    ∙ id_line id (retry_line (pos n) ++ named) i
    ∙ retry_from id named n r
    ∙ name_line id name ends n m
    ∙ feed-data_lines id name first n ls h k

-- An event whose ID and name are free of line ends and of white space at their ends, as is each line
-- of its data, whose retry is not negative and fits 64 bits, and whose data begins with a line that
-- is not empty or has one line only: however the stream that holds what Write writes of it is cut
-- into chunks, Next returns exactly that event and no error.
pub next-write_text :
    (id name first : Bytes) (n : ℕ) (ls chunks : List Bytes)
    → IsField id
    → IsField name
    → n < 2 ^ 63
    → (first ≢ []) ⊎ (ls ≡ [])
    → All IsField (first ∷ ls)
    → stream chunks ≡ write_text (event id name n (join (first ∷ ls) (b'\n' ∷ [])))
    → (left : List Bytes) × (next chunks
        ≡ (event id name n (join (first ∷ ls) (b'\n' ∷ [])), false, left))
unfolding next
next-write_text id name first n ls chunks i m r h k e =
    next_from-feed chunks (reading 0 no_event []) (event id name n (join (first ∷ ls) (b'\n' ∷ [])))
      (ap (feed (reading 0 no_event [])) e ∙ feed-write_text id name first n ls i m r h k)
