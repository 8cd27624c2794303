-- ===== src/Cache/FirstRule.antt =====
-- ext/cache/: which rule a path meets.
use mathlib.Core.Path.{subst}
use xun.Http.{write_header}
use xun.Sse.Event.{itoa}
use xun.Base.{
  ℕ, codes, ◌-◌, ◌+◌, ◌≡◌, refl, sym, ap, ◌∙◌, ◌↔◌, Bool, true, false, not, ◌&&◌, List, [], ◌∷◌,
  ◌++◌, Bytes, length, length-append, take, drop, take-append-drop, take-length_append,
  drop-length_append, append-nil, ltb, equal, equal_iff, equal_fold, to_lower, if◌then◌else◌, All,
  arith, Bool-cases, inl, inr,
}
use xun.App.{Context, HandleFunc}
use xun.Cache.Defs.{Rule, has_prefix, has_suffix, matches, apply_rules, new}

-- The text begins, or ends, with another one up to the case of letters.
abbrev pub BeginsWith : Bytes → Bytes → Type 0
BeginsWith p s = (a : Bytes) × (b : Bytes) × (s ≡ a ++ b) × (to_lower a ≡ to_lower p)

abbrev pub EndsWith : Bytes → Bytes → Type 0
EndsWith p s = (a : Bytes) × (b : Bytes) × (s ≡ a ++ b) × (to_lower b ≡ to_lower p)

length-to_lower : (s : Bytes) → length (to_lower s) ≡ length s
unfolding to_lower
length-to_lower [] = refl
length-to_lower (c ∷ s) = omega (arith, length-to_lower s)

same_length : (a b : Bytes) → to_lower a ≡ to_lower b → length a ≡ length b
same_length a b h = sym (length-to_lower a) ∙ ap length h ∙ length-to_lower b

has_prefix-BeginsWith : (s p : Bytes) → has_prefix s p ≡ true → BeginsWith p s
unfolding has_prefix equal_fold
has_prefix-BeginsWith s p h = elim (Bool-cases (ltb (length s) (length p))) [
  | inl e ↦ cc (rw (e, has_prefix) at h)
  | inr e ↦ (
    take (length p) s,
    drop (length p) s,
    sym (take-append-drop (length p) s),
    (equal_iff (to_lower (take (length p) s)) (to_lower p)).0 (rw (e, has_prefix) at h),
  )
]

BeginsWith-has_prefix : (s p : Bytes) → BeginsWith p s → has_prefix s p ≡ true
unfolding has_prefix equal_fold
BeginsWith-has_prefix s p (a, b, e, h) =
    let long : ltb (length s) (length p) ≡ false =
      ground (arith, ap length e, length-append a b, same_length a p h) in
    let front : take (length p) s ≡ a =
      ap (λ n. take n s) (sym (same_length a p h))
      ∙ ap (take (length a)) e
      ∙ take-length_append a b in
    rw (long, has_prefix)
      ((equal_iff (to_lower (take (length p) s)) (to_lower p)).1 (ap to_lower front ∙ h))

has_suffix-EndsWith : (s p : Bytes) → has_suffix s p ≡ true → EndsWith p s
unfolding has_suffix equal_fold
has_suffix-EndsWith s p h = elim (Bool-cases (ltb (length s) (length p))) [
  | inl e ↦ cc (rw (e, has_suffix) at h)
  | inr e ↦
      let n = length s - length p in
      (
        take n s,
        drop n s,
        sym (take-append-drop n s),
        (equal_iff (to_lower (drop n s)) (to_lower p)).0 (rw (e, has_suffix) at h),
      )
]

EndsWith-has_suffix : (s p : Bytes) → EndsWith p s → has_suffix s p ≡ true
unfolding has_suffix equal_fold
EndsWith-has_suffix s p (a, b, e, h) =
    let len : length s ≡ length a + length b = ap length e ∙ length-append a b in
    let long : ltb (length s) (length p) ≡ false = ground (arith, len, same_length b p h) in
    let from : length s - length p ≡ length a = omega (arith, len, same_length b p h) in
    let end : drop (length s - length p) s ≡ b =
      ap (λ n. drop n s) from ∙ ap (drop (length a)) e ∙ drop-length_append a b in
    rw (long, has_suffix)
      ((equal_iff (to_lower (drop (length s - length p) s)) (to_lower p)).1 (ap to_lower end ∙ h))

negated : (b : Bool) → not b ≡ false → b ≡ true
negated true h = refl
negated false h = cc

and_never : (b : Bool) → (b && false) ≡ false
and_never true = refl
and_never false = refl

-- The two guards of Match, by what they leave.
start_iff : (s p : Bytes) → ((not (equal p []) && not (has_prefix s p)) ≡ false) ↔ BeginsWith p s
start_iff s p = (
  (λ h. elim (Bool-cases (equal p [])) [
    | inl e ↦ subst (λ q. BeginsWith q s) (sym ((equal_iff p []).0 e)) ([], s, refl, refl)
    | inr e ↦ has_prefix-BeginsWith s p (negated (has_prefix s p) (rw e at h))
  ]),
  (λ k. rw (BeginsWith-has_prefix s p k) (and_never (not (equal p [])))),
)

end_iff : (s p : Bytes) → ((not (equal p []) && not (has_suffix s p)) ≡ false) ↔ EndsWith p s
end_iff s p = (
  (λ h. elim (Bool-cases (equal p [])) [
    | inl e ↦
        subst (λ q. EndsWith q s) (sym ((equal_iff p []).0 e)) (s, [], sym (append-nil s), refl)
    | inr e ↦ has_suffix-EndsWith s p (negated (has_suffix s p) (rw e at h))
  ]),
  (λ k. rw (EndsWith-has_suffix s p k) (and_never (not (equal p [])))),
)

guards :
    (a b : Bool)
    → ((if a then false else if b then false else true) ≡ true) ↔ ((a ≡ false) × (b ≡ false))
guards true b = ((λ h. cc), (λ h. cc))
guards false true = ((λ h. cc), (λ h. cc))
guards false false = ((λ h. (refl, refl)), (λ h. refl))

-- A rule matches exactly the paths that begin with its one text and end with its other, up to the
-- case of letters; an empty text asks for nothing.
pub matches_iff :
    (r : Rule) (path : Bytes)
    → (matches r path ≡ true) ↔ (BeginsWith r.starts_with path × EndsWith r.ends_with path)
unfolding matches
matches_iff r path =
    let a = not (equal r.starts_with []) && not (has_prefix path r.starts_with) in
    let b = not (equal r.ends_with []) && not (has_suffix path r.ends_with) in
    (
      (λ h.
          let (x, y) = (guards a b).0 h in
          ((start_iff path r.starts_with).0 x, (end_iff path r.ends_with).0 y)),
      (λ k.
          (guards a b).1 ((start_iff path r.starts_with).1 k.0, (end_iff path r.ends_with).1 k.1)),
    )

-- The rules that stand first and do not match have no effect. By the first rule that matches the
-- path the middleware sets the response's header Cache-Control to `public, max-age=` and the
-- seconds of the rule's duration, and then calls the handler; without such a rule it only calls the
-- handler. `seconds` is what int and Duration.Seconds give for a duration.
pub new-first :
    (seconds : ℕ → ℕ) (before after : List Rule) (r : Rule) (next : HandleFunc) (c : Context)
    → All (λ q. matches q c.request.path ≡ false) before
    → (new seconds before next c ≡ next c)
      × (matches r c.request.path ≡ true
          → new seconds (before ++ r ∷ after) next c
            ≡ next (record c {
              response =
                  write_header c.response
                    (codes "Cache-Control")
                    (codes "public, max-age=" ++ itoa (seconds r.duration));
            }))
unfolding new apply_rules
new-first seconds [] after r next c h = (refl, (λ m. rw (m, apply_rules) refl))
new-first seconds (q ∷ before) after r next c (h, hs) =
    let (a, b) = new-first seconds before after r next c hs in
    (rw (h, apply_rules) a, (λ m. rw (h, apply_rules) (b m)))
