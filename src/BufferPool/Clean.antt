-- ===== src/BufferPool/Clean.antt =====
-- buffer_pool.go: what the pool promises over any use.
use xun.Base.{
  ℕ, ◌≡◌, refl, ◌∙◌, ◌≤◌, inl, inr, List, [], ◌∷◌, Bytes, length, length-append, ltb, All,
  All-append, arith, Bool-cases,
}
use xun.BufferPool.Defs.{BufferPool, new_buffer_pool, get, get_from, put}

pub data Use : Type 0 where
  gets : Use
  puts : Bytes → Use

-- The pool after some uses, and the buffers that Get gave, latest first.
unfoldable pub run : BufferPool → List Use → List Bytes → BufferPool × List Bytes
unfolding get put
run bp [] got = (bp, got)
run bp (gets ∷ us) got = let (bp', b) = get bp in run bp' us (b ∷ got)
run bp (puts b ∷ us) got = run (put bp b) us got

abbrev pub AllEmpty : List Bytes → Type 0
AllEmpty = All (λ b. b ≡ [])

-- Buffers in the pool are empty, and no more than its size.
pub record IsClean (bp : BufferPool) : Type 0 where
  pub empty : AllEmpty bp.buffers
  pub bounded : length bp.buffers ≤ bp.size

put-IsClean : (bp : BufferPool) (b : Bytes) → IsClean bp → IsClean (put bp b)
unfolding put
put-IsClean bp b k = elim (Bool-cases (ltb (length bp.buffers) bp.size)) [
  | inl e ↦
      rw (e, put)
        (record {
          empty = All-append (λ b. b ≡ []) bp.buffers ([] ∷ []) k.empty (refl, tt);
          bounded = ground (arith, e, length-append bp.buffers ([] ∷ []));
        })
  | inr e ↦ rw (e, put) k
]

get_from-IsClean :
    (size : ℕ) (bs : List Bytes)
    → AllEmpty bs
    → length bs ≤ size
    → IsClean (get_from size bs).0
      × ((get_from size bs).1 ≡ [])
      × ((get_from size bs).0.size ≡ size)
get_from-IsClean size [] h b = (record { empty = tt; bounded = omega arith }, refl, refl)
get_from-IsClean size (c ∷ bs) (h, hs) b =
    (record { empty = hs; bounded = omega (arith, b) }, h, refl)

put-size : (bp : BufferPool) (b : Bytes) → (put bp b).size ≡ bp.size
unfolding put
put-size bp b = elim (Bool-cases (ltb (length bp.buffers) bp.size)) [
  | inl e ↦ rw (e, put) refl
  | inr e ↦ rw (e, put) refl
]

run-IsClean :
    (us : List Use) (bp : BufferPool) (got : List Bytes)
    → IsClean bp
    → AllEmpty got
    → IsClean (run bp us got).0 × AllEmpty (run bp us got).1 × ((run bp us got).0.size ≡ bp.size)
unfolding run get
run-IsClean [] bp got k h = (k, h, refl)
run-IsClean (gets ∷ us) bp got k h =
    let (k', e, s) = get_from-IsClean bp.size bp.buffers k.empty k.bounded in
    let (a, b, c) = run-IsClean us (get bp).0 ((get bp).1 ∷ got) k' (e, h) in (a, b, c ∙ s)
run-IsClean (puts x ∷ us) bp got k h =
    let (a, b, c) = run-IsClean us (put bp x) got (put-IsClean bp x k) h in
    (a, b, c ∙ put-size bp x)

-- Over any uses of a new pool, whatever was written to the buffers that are put back: every buffer
-- that Get gives is empty, and the pool never holds more buffers than its size.
pub run-new_buffer_pool :
    (size : ℕ) (us : List Use)
    → let (bp, got) = run (new_buffer_pool size) us [] in AllEmpty got × (length bp.buffers ≤ size)
unfolding new_buffer_pool
run-new_buffer_pool size us =
    let (k, h, s) =
      run-IsClean us (new_buffer_pool size) [] (record { empty = tt; bounded = omega arith }) tt in
    (h, omega (arith, k.bounded, s))
