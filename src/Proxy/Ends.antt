-- ===== src/Proxy/Ends.antt =====
-- ext/proxyproto/header.go: what readV2Header leaves of its input.
use xun.Base.{
  ℕ, Bool, true, false, ◌≡◌, refl, sym, ap, ◌∙◌, [], ◌∷◌, ◌++◌, Bytes, ◌==◌, ◌&&◌, leb,
  if◌then◌else◌, length, take, drop, take-append-drop, append-nil, append_assoc,
}
use xun.Proxy.Defs.{Read}
use xun.Proxy.V2.{
  read_payload, read_length, validate_length, read_protocol, read_command, is_ipv4, is_ipv6,
  is_supported, uint16,
}

-- The second text is the end of the first.
abbrev pub EndsIn : Bytes → Bytes → Type 0
EndsIn s rest = (pre : Bytes) × (s ≡ pre ++ rest)

pub whole : (s : Bytes) → EndsIn s s
whole s = ([], refl)

pub nothing : (s : Bytes) → EndsIn s []
nothing s = (s, sym (append-nil s))

pub dropped : (n : ℕ) (s : Bytes) → EndsIn s (drop n s)
dropped n s = (take n s, sym (take-append-drop n s))

pub behind : (c : ℕ) (s rest : Bytes) → EndsIn s rest → EndsIn (c ∷ s) rest
behind c s rest (pre, e) = (c ∷ pre, ap (◌∷◌ c) e)

pub deeper : (n : ℕ) (s rest : Bytes) → EndsIn (drop n s) rest → EndsIn s rest
deeper n s rest (pre, e) = (
  take n s ++ pre,
  sym (take-append-drop n s) ∙ ap (◌++◌ (take n s)) e ∙ sym (append_assoc (take n s) pre rest),
)

pub either :
    (b : Bool) (s : Bytes) (x y : Read)
    → EndsIn s x.1
    → EndsIn s y.1
    → EndsIn s (if b then x else y).1
either true s x y h k = h
either false s x y h k = k

read_payload-EndsIn : (c ap len : ℕ) (s : Bytes) → EndsIn s (read_payload c ap len s).1
unfolding read_payload
read_payload-EndsIn c ap len s =
    either (leb len 4096 && leb len (length s)) s _ _
      (either (is_ipv4 ap) s _ _ (dropped len s)
        (either (is_ipv6 ap) s _ _ (dropped len s) (whole s)))
      (whole s)

read_length-EndsIn : (c ap : ℕ) (s : Bytes) → EndsIn s (read_length c ap s).1
unfolding read_length
read_length-EndsIn c ap [] = whole []
read_length-EndsIn c ap (hi ∷ []) = nothing (hi ∷ [])
read_length-EndsIn c ap (hi ∷ lo ∷ s) =
    let len = uint16 (hi ∷ lo ∷ []) in
    let two : (rest : Bytes) → EndsIn s rest → EndsIn (hi ∷ lo ∷ s) rest =
      λ rest h. behind hi (lo ∷ s) rest (behind lo s rest h) in
    either (validate_length ap len) (hi ∷ lo ∷ s) _ _
      (either (len == 0) (hi ∷ lo ∷ s) _ _ (two s (whole s))
        (two (read_payload c ap len s).1 (read_payload-EndsIn c ap len s)))
      (two s (whole s))

pub read_command-EndsIn : (s : Bytes) → EndsIn s (read_command s).1
unfolding read_command read_protocol
read_command-EndsIn [] = whole []
read_command-EndsIn (c ∷ []) =
    either (is_supported c) (c ∷ []) _ _ (nothing (c ∷ [])) (nothing (c ∷ []))
read_command-EndsIn (c ∷ ap ∷ s) =
    either (is_supported c) (c ∷ ap ∷ s) _ _
      (behind c (ap ∷ s) _ (behind ap s _ (read_length-EndsIn c ap s)))
      (behind c (ap ∷ s) _ (whole (ap ∷ s)))
