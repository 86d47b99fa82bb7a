-- ===== src/Base64/Encode.antt =====
-- What `Base64Encode` writes when there is room: the six-bit groups of the bytes, in digits.
use vncc.Base.{
  if_true, if_false, lt→ltb, ◌^◌, some, IsByte, ℕ, ◌+◌, ◌*◌, ◌/◌, ◌%◌, ◌≤◌, ◌<◌, ◌≡◌, ◌∙◌, ap, ap₂,
  ap_at, refl, List, [], ◌∷◌, leb, false, length, All, arith,
}
use vncc.Base64.{digit, pad, encode_loop, encoded_length, base64_encode}

-- Four characters for three bytes, and for the bytes that are left.
abbrev pub whole_length : List ℕ → ℕ
whole_length src = (length src + 2) / 3 * 4

-- Three bytes are four groups of six bits; one byte left is two groups, two bytes left are three.
abbrev pub digits : List ℕ → List ℕ
digits [] = []
digits (a ∷ []) = digit (a / 4) ∷ digit (a % 4 * 16) ∷ pad ∷ pad ∷ []
digits (a ∷ b ∷ []) = digit (a / 4) ∷ digit (a % 4 * 16 + b / 16) ∷ digit (b % 16 * 4) ∷ pad ∷ []
digits (a ∷ b ∷ c ∷ src) =
    digit (a / 4)
    ∷ digit (a % 4 * 16 + b / 16)
    ∷ digit (b % 16 * 4 + c / 64)
    ∷ digit (c % 64)
    ∷ digits src

cons4 :
    (a b c d e f g h : ℕ) (xs ys : List ℕ)
    → a ≡ e
    → b ≡ f
    → c ≡ g
    → d ≡ h
    → xs ≡ ys
    → digit a ∷ digit b ∷ digit c ∷ digit d ∷ xs ≡ digit e ∷ digit f ∷ digit g ∷ digit h ∷ ys
cons4 a b c d e f g h xs ys p q r s t =
    ap₂ ◌∷◌ (ap digit p) (ap₂ ◌∷◌ (ap digit q) (ap₂ ◌∷◌ (ap digit r) (ap₂ ◌∷◌ (ap digit s) t)))

room : (max index : ℕ) → index + 3 < max → leb max (index + 3) ≡ false
room max index h = ground arith

encode_loop-eq-digits :
    (max index : ℕ) (src : List ℕ)
    → All IsByte src
    → index + whole_length src ≤ max
    → encode_loop max index src ≡ digits src
unfolding encode_loop
encode_loop-eq-digits max index [] all h = refl
encode_loop-eq-digits max index (a ∷ []) all h =
    if_false _ _ _ (room max index (omega arith))
    ∙ ap₂ ◌∷◌ (ap_at digit _ _ (omega arith))
        (ap (λ d. d ∷ pad ∷ pad ∷ []) (ap_at digit _ _ (omega arith)))
encode_loop-eq-digits max index (a ∷ b ∷ []) all h =
    if_false _ _ _ (room max index (omega arith))
    ∙ ap₂ ◌∷◌ (ap_at digit _ _ (omega arith)) (
        ap₂ ◌∷◌ (ap_at digit _ _ (omega arith))
          (ap (λ d. d ∷ pad ∷ []) (ap_at digit _ _ (omega arith))))
encode_loop-eq-digits max index (a ∷ b ∷ c ∷ src) all h =
    if_false _ _ _ (room max index (omega arith))
    ∙ cons4 _ _ _ _ _ _ _ _ _ _ (omega arith) (omega arith) (omega arith) (omega arith)
        (encode_loop-eq-digits max (index + 4) src all.1.1.1 (omega arith))

pub encoded_length-fits :
    (src : List ℕ) → whole_length src < 2 ^ 31 → encoded_length src ≡ some (whole_length src)
unfolding encoded_length
encoded_length-fits src h = if_true _ _ _ (lt→ltb _ _ h)

-- With the length that the first call answers, all the digits are written.
pub base64_encode-eq-digits :
    (src : List ℕ)
    → All IsByte src
    → whole_length src < 2 ^ 31
    → base64_encode src ≡ some (digits src)
unfolding base64_encode
base64_encode-eq-digits src all h =
    rw (encoded_length-fits src h)
      (ap some (encode_loop-eq-digits (whole_length src) 0 src all (omega arith)))

-- The length that `Base64Encode` answers is that of what it writes.
pub length-digits : (src : List ℕ) → length (digits src) ≡ whole_length src
length-digits [] = refl
length-digits (a ∷ []) = refl
length-digits (a ∷ b ∷ []) = refl
length-digits (a ∷ b ∷ c ∷ src) = omega (arith, length-digits src)
