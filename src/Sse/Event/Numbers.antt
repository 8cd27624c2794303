-- ===== src/Sse/Event/Numbers.antt =====
-- ext/sse/event.go and reader.go: strconv.Itoa and strconv.Atoi, as the two use them.
use xun.Base.{
  ℕ, zero, suc, ◌+◌, ◌*◌, ◌/◌, ◌%◌, ◌-◌, ◌^◌, ◌<◌, Bool, true, false, ◌&&◌, Option, none, some, [],
  ◌∷◌, ◌++◌, Bytes, ◌==◌, leb, ltb, if◌then◌else◌, ◌≡◌, refl, ◌∙◌, ap, arith, Bool-cases, inl, inr,
  All, All-append, some_inj, ◌≢◌, lt→ltb, ==_iff,
}

-- A Go int. `negsuc n` is -1 - n.
pub data ℤ : Type 0 where
  pos negsuc : ℕ → ℤ

-- The decimal digits, on fuel, of which the number itself is enough.
unfoldable pub digits : ℕ → ℕ → Bytes
digits zero n = []
digits (suc fuel) n =
    let front = digits fuel (n / 10) in
    if n / 10 == 0 then (48 + n) ∷ [] else front ++ (48 + n % 10) ∷ []

-- strconv.Itoa of a number that is not negative
unfoldable pub itoa : ℕ → Bytes
unfolding digits
itoa n = digits (suc n) n

abbrev pub is_digit : ℕ → Bool
is_digit c = leb 48 c && leb c 57

-- The value of digits behind a value; `none` is a byte that is no digit.
unfoldable pub value_from : ℕ → Bytes → Option ℕ
value_from acc [] = some acc
value_from acc (c ∷ s) = if is_digit c then value_from (acc * 10 + (c - 48)) s else none

-- At least one digit, and a value that is below the bound.
abbrev in_range : ℕ → Option ℕ → Option ℕ
in_range limit none = none
in_range limit (some n) = if ltb n limit then some n else none

unfoldable pub natural : ℕ → Bytes → Option ℕ
unfolding value_from
natural limit [] = none
natural limit (c ∷ s) = in_range limit (value_from 0 (c ∷ s))

abbrev pub positive : Option ℕ → Option ℤ
positive none = none
positive (some n) = some (pos n)

abbrev negative : Option ℕ → Option ℤ
negative none = none
negative (some zero) = some (pos 0)
negative (some (suc n)) = some (negsuc n)

-- strconv.Atoi: `none` is an error, also of a value that 64 bits do not hold.
unfoldable pub atoi : Bytes → Option ℤ
unfolding natural
atoi [] = none
atoi (c ∷ s) =
    if c == b'-'
    then negative (natural (2 ^ 63 + 1) s)
    else if c == b'+'
    then positive (natural (2 ^ 63) s)
    else positive (natural (2 ^ 63) (c ∷ s))

-- The value of digits with one more behind them.
value_from-append :
    (s : Bytes) (acc n d : ℕ)
    → d < 10
    → value_from acc s ≡ some n
    → value_from acc (s ++ (48 + d) ∷ []) ≡ some (n * 10 + d)
unfolding value_from
value_from-append [] acc n d h e = let e' : acc ≡ n = some_inj e in ground (arith, h, e')
value_from-append (c ∷ s) acc n d h e = elim (Bool-cases (is_digit c)) [
  | inl b ↦ rw b (value_from-append s (acc * 10 + (c - 48)) n d h (rw b at e))
  | inr b ↦ cc (rw b at e)
]

value_from-digits : (fuel n : ℕ) → n < fuel → value_from 0 (digits fuel n) ≡ some n
unfolding digits value_from
value_from-digits zero n h = absurd (omega (arith, h))
value_from-digits (suc fuel) n h = elim (Bool-cases (n / 10 == 0)) [
  | inl b ↦
      let z : n / 10 ≡ 0 = (==_iff (n / 10) 0).0 b in
      rw b (value_from-append [] 0 0 n (omega (arith, z)) refl ∙ ap some (omega arith))
  | inr b ↦ rw b (
      value_from-append (digits fuel (n / 10)) 0 (n / 10) (n % 10) (omega arith)
        (value_from-digits fuel (n / 10) (ground (arith, b, h)))
      ∙ ap some (omega arith))
]

digits-All : (fuel n : ℕ) → n < fuel → All (λ c. is_digit c ≡ true) (digits fuel n)
unfolding digits
digits-All zero n h = tt
digits-All (suc fuel) n h = elim (Bool-cases (n / 10 == 0)) [
  | inl b ↦ rw b (ground (arith, b), tt)
  | inr b ↦ rw b (
      All-append (λ c. is_digit c ≡ true) (digits fuel (n / 10)) ((48 + n % 10) ∷ [])
        (digits-All fuel (n / 10) (ground (arith, b, h))) (ground arith, tt))
]

-- The text of a number is made of digits only.
pub itoa-All : (n : ℕ) → All (λ c. is_digit c ≡ true) (itoa n)
unfolding itoa
itoa-All n = digits-All (suc n) n (omega arith)

-- Digits with a value are read as that value.
append-ne-nil : (s : Bytes) (c : ℕ) → s ++ c ∷ [] ≢ []
append-ne-nil [] c = cc
append-ne-nil (b ∷ s) c = cc

digits-ne-nil : (fuel n : ℕ) → digits (suc fuel) n ≢ []
unfolding digits
digits-ne-nil fuel n = elim (Bool-cases (n / 10 == 0)) [
  | inl b ↦ rw b (λ e. cc)
  | inr b ↦ rw b (append-ne-nil (digits fuel (n / 10)) (48 + n % 10))
]

atoi-value :
    (s : Bytes) (n : ℕ)
    → All (λ c. is_digit c ≡ true) s
    → s ≢ []
    → value_from 0 s ≡ some n
    → n < 2 ^ 63
    → atoi s ≡ some (pos n)
unfolding atoi
atoi-value [] n a ne e h = absurd (ne refl)
atoi-value (c ∷ s) n (a, as_digits) ne e h =
    let minus : (c == b'-') ≡ false = ground (arith, a) in
    let plus : (c == b'+') ≡ false = ground (arith, a) in
    let small : ltb n (2 ^ 63) ≡ true = lt→ltb n (2 ^ 63) h in
    rw (minus, plus, atoi) (ap (λ o. positive (in_range (2 ^ 63) o)) e ∙ rw small refl)

pub atoi-itoa : (n : ℕ) → n < 2 ^ 63 → atoi (itoa n) ≡ some (pos n)
unfolding itoa
atoi-itoa n h =
    atoi-value (digits (suc n) n) n (digits-All (suc n) n (omega arith)) (digits-ne-nil n n)
      (value_from-digits (suc n) n (omega arith)) h
