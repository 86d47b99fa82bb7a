-- ===== src/Base64/Digits.antt =====
-- The alphabet and the table are inverse to each other.
use vncc.Base.{
  ℕ, ◌<◌, ◌≡◌, ◌≢◌, refl, true, ◌==◌, ==_iff, passes_below, passes_below_sound, arith, subst,
}
use vncc.Base64.{digit, value_of, pad}

all_digits : passes_below (λ i. value_of (digit i) == i) 64 ≡ true
unfolding digit value_of passes_below
all_digits = refl

pub value_of-digit : (i : ℕ) → i < 64 → value_of (digit i) ≡ i
value_of-digit i h =
    (==_iff _ _).0 (passes_below_sound (λ i. value_of (digit i) == i) 64 i h all_digits)

pub value_of-pad : value_of pad ≡ 255
unfolding value_of
value_of-pad = refl

-- No digit is the padding.
pub digit-pad : (i : ℕ) → i < 64 → digit i ≢ pad
digit-pad i h e = omega (arith, value_of-digit i h, value_of-pad, same)
  where
    same : value_of (digit i) ≡ value_of pad
    same = subst (λ c. value_of (digit i) ≡ value_of c) e refl
