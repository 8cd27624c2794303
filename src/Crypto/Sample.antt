-- ===== src/Crypto/Sample.antt =====
-- Functions for which the assumptions on package hmac and base64 hold, for runs.
use xun.Base.{
  ℕ, zero, suc, ◌+◌, ◌*◌, ◌/◌, ◌≡◌, refl, ap, some, [], ◌∷◌, ◌++◌, map, Bytes, length, Lacks, arith,
}
use xun.Crypto.{Crypto, Decodes}

-- A byte as an odd one, and back.
abbrev odd : ℕ → ℕ
odd c = c * 2 + 1

abbrev half : ℕ → ℕ
half c = c / 2

-- The first bytes of a text, filled up with zeros.
abbrev pad : ℕ → Bytes → Bytes
pad zero s = []
pad (suc n) [] = 0 ∷ pad n []
pad (suc n) (c ∷ s) = c ∷ pad n s

abbrev pub sample : Crypto
sample = record {
  hmac = λ key m. pad 32 (m ++ key);
  encode = λ s. map odd s;
  decode = λ s. some (map half s);
}

half-odd : (s : Bytes) → map half (map odd s) ≡ s
half-odd [] = refl
half-odd (c ∷ s) = ground (arith, half-odd s)

pub sample-Decodes : Decodes sample
sample-Decodes s = ap some (half-odd s)

pub sample-Lacks : (s : Bytes) → Lacks b'.' (sample.encode s)
sample-Lacks [] = tt
sample-Lacks (c ∷ s) = (λ h. absurd (omega (arith, h)), sample-Lacks s)

length-pad : (n : ℕ) (s : Bytes) → length (pad n s) ≡ n
length-pad zero s = refl
length-pad (suc n) [] = omega (arith, length-pad n [])
length-pad (suc n) (c ∷ s) = omega (arith, length-pad n s)

pub length-sample : (key m : Bytes) → length (sample.hmac key m) ≡ 32
length-sample key m = length-pad 32 (m ++ key)
