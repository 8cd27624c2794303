-- ===== src/Sse/Event/Lines.antt =====
-- ext/sse/reader.go: Next over chunks, line by line.
use xun.Base.{
  ℕ, false, ◌≡◌, ◌≢◌, refl, sym, ap, ◌∙◌, List, [], ◌∷◌, ◌++◌, Bytes, ◌==◌, if◌then◌else◌, Lacks,
  All-append, append_assoc, arith, trim_space, trim_one, trim_last, is_space, IsTrimmed,
}
use xun.Sse.Event.Defs.{TextEvent, line, Reading, reading, finished, read_line, feed, next_from}

pub feed-append : (s : Bytes) (r : Reading) (t : Bytes) → feed r (s ++ t) ≡ feed (feed r s) t
unfolding feed
feed-append s (finished e) t = refl
feed-append [] (reading k e p) t = refl
feed-append (c ∷ s) (reading k e p) t =
    feed-append s (if c == b'\n' then read_line k e (p ++ c ∷ []) else reading k e (p ++ c ∷ [])) t

abbrev pub stream : List Bytes → Bytes
stream [] = []
stream (c ∷ cs) = c ++ stream cs

finished-inj : (a b : TextEvent) → finished a ≡ finished b → a ≡ b
finished-inj a b h = cc

-- However the stream is cut into chunks, Next returns the event that its bytes finish.
pub next_from-feed :
    (chunks : List Bytes) (r : Reading) (e : TextEvent)
    → feed r (stream chunks) ≡ finished e
    → (left : List Bytes) × (next_from r chunks ≡ (e, false, left))
unfolding feed next_from
next_from-feed chunks (finished f) e h = (chunks, rw (finished-inj f e h) refl)
next_from-feed [] (reading k f p) e h = cc
next_from-feed (c ∷ cs) (reading k f p) e h =
    next_from-feed cs (feed (reading k f p) c) e
      (sym (feed-append c (reading k f p) (stream cs)) ∙ h)

-- A line is handled when its end is met.
feed-Lacks :
    (l : Bytes) (k : ℕ) (e : TextEvent) (p rest : Bytes)
    → Lacks b'\n' l
    → feed (reading k e p) (l ++ b'\n' ∷ rest) ≡ feed (read_line k e (p ++ (l ++ b'\n' ∷ []))) rest
unfolding feed
feed-Lacks [] k e p rest h = refl
feed-Lacks (c ∷ l) k e p rest (h, hs) =
    let other : (c == b'\n') ≡ false = ground (arith, h) in
    ap
      (λ b.
        feed (if b then read_line k e (p ++ c ∷ []) else reading k e (p ++ c ∷ []))
          (l ++ b'\n' ∷ rest))
      other
    ∙ (feed-Lacks l k e (p ++ c ∷ []) rest hs
        ∙ ap (λ s. feed (read_line k e s) rest) (append_assoc p (c ∷ []) (l ++ b'\n' ∷ [])))

pub feed-line :
    (label value : Bytes) (k : ℕ) (e : TextEvent) (rest : Bytes)
    → Lacks b'\n' label
    → Lacks b'\n' value
    → feed (reading k e []) (line label value ++ rest)
      ≡ feed (read_line k e (line label value)) rest
feed-line label value k e rest h h' =
    ap (feed (reading k e [])) (
      append_assoc label (value ++ b'\n' ∷ []) rest
      ∙ ap (◌++◌ label) (append_assoc value (b'\n' ∷ []) rest)
      ∙ sym (append_assoc label value (b'\n' ∷ rest)))
    ∙ feed-Lacks (label ++ value) k e [] rest (All-append (λ c. c ≢ b'\n') label value h h')
    ∙ ap (λ s. feed (read_line k e s) rest) (append_assoc label value (b'\n' ∷ []))

-- What may stand in a field: one line without white space at its ends.
pub record IsField (v : Bytes) : Type 0 where
  pub lacks : Lacks b'\n' v
  pub trimmed : IsTrimmed is_space v

pub trim-IsField : (v : Bytes) → IsField v → trim_space (b' ' ∷ (v ++ b'\n' ∷ [])) ≡ v
unfolding trim_space is_space
trim-IsField v h =
    trim_one is_space b' ' (v ++ b'\n' ∷ []) refl ∙ trim_last is_space v b'\n' refl ∙ h.trimmed
