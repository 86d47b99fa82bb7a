-- ===== src/Base64/Decode.antt =====
-- What `Base64Decode` makes of the digits of some bytes.
use vncc.Base.{
  IsByte, ℕ, ◌+◌, ◌-◌, ◌*◌, ◌/◌, ◌%◌, ◌^◌, ◌≤◌, ◌<◌, ◌≡◌, ◌∙◌, ap₂, ap_at, refl, List, [], ◌∷◌, leb,
  ◌==◌, true, false, length, All, arith,
}
use vncc.Base64.{digit, value_of, pad, decode_loop}
use vncc.Base64.Digits.{value_of-digit, value_of-pad}
use vncc.Base64.Encode.{digits}

-- One character, by the branches.
module _ (max v written t c : ℕ) (src : List ℕ) (value : value_of c ≡ t) (small : t < 64)
    (fits : written < max) where
  not_last : (value_of c == 255) ≡ false
  not_last = ground arith

  not_full : leb max written ≡ false
  not_full = ground arith

  abbrev next : ℕ
  next = v * 2 ^ 6 % 2 ^ 64 + value_of c

  decode-keeps : decode_loop max v 0 written (c ∷ src) ≡ decode_loop max next 6 written src
  unfolding decode_loop
  decode-keeps = rw (not_last, not_full)

  decode-writes :
      (n : ℕ)
      → 2 ≤ n
      → decode_loop max v n written (c ∷ src)
        ≡ (next / 2 ^ (n + 6 - 8) % 256) ∷ decode_loop max next (n + 6 - 8) (written + 1) src
  unfolding decode_loop
  decode-writes n h = rw (not_last, not_full, enough) refl
    where
      enough : leb 8 (n + 6) ≡ true
      enough = ground arith

decode-ends :
    (max v n written c : ℕ) (src : List ℕ)
    → value_of c ≡ 255
    → decode_loop max v n written (c ∷ src) ≡ []
unfolding decode_loop
decode-ends max v n written c src e = rw e

-- Two digits give the first byte of a group, three the second, four the third; the bits that an earlier
-- group left in `v` do not matter.
module _ (max v written s t : ℕ) (src : List ℕ) (small_s : s < 64) (small_t : t < 64)
    (fits : written < max) where
  abbrev after_one : ℕ
  after_one = v * 2 ^ 6 % 2 ^ 64 + value_of (digit s)

  abbrev after_two : ℕ
  after_two = after_one * 2 ^ 6 % 2 ^ 64 + value_of (digit t)

  two-digits :
      decode_loop max v 0 written (digit s ∷ digit t ∷ src)
      ≡ (s * 4 + t / 16) ∷ decode_loop max after_two 4 (written + 1) src
  two-digits =
      decode-keeps max v written s (digit s) (digit t ∷ src) (value_of-digit s small_s) small_s fits
      ∙ decode-writes max after_one written t (digit t) src (value_of-digit t small_t) small_t fits
          6 (omega arith)
      ∙ ap_at (λ b. b ∷ decode_loop max after_two 4 (written + 1) src) (after_two / 16 % 256)
          (s * 4 + t / 16) (omega (arith, value_of-digit s small_s, value_of-digit t small_t))

module _ (max v written t : ℕ) (src : List ℕ) (small_t : t < 64) (fits : written < max) where
  abbrev after_digit : ℕ
  after_digit = v * 2 ^ 6 % 2 ^ 64 + value_of (digit t)

  third-digit :
      decode_loop max v 4 written (digit t ∷ src)
      ≡ (v % 16 * 16 + t / 4) ∷ decode_loop max after_digit 2 (written + 1) src
  third-digit =
      decode-writes max v written t (digit t) src (value_of-digit t small_t) small_t fits 4
        (omega arith)
      ∙ ap_at (λ b. b ∷ decode_loop max after_digit 2 (written + 1) src) (after_digit / 4 % 256)
          (v % 16 * 16 + t / 4) (omega (arith, value_of-digit t small_t))

  fourth-digit :
      decode_loop max v 2 written (digit t ∷ src)
      ≡ (v % 4 * 64 + t) ∷ decode_loop max after_digit 0 (written + 1) src
  fourth-digit =
      decode-writes max v written t (digit t) src (value_of-digit t small_t) small_t fits 2
        (omega arith)
      ∙ ap_at (λ b. b ∷ decode_loop max after_digit 0 (written + 1) src) (after_digit / 1 % 256)
          (v % 4 * 64 + t) (omega (arith, value_of-digit t small_t))

-- The digits of some bytes decode to these bytes, if there is room for them.
pub decode_loop-digits :
    (src : List ℕ) (max v written : ℕ)
    → All IsByte src
    → written + length src ≤ max
    → decode_loop max v 0 written (digits src) ≡ src
decode_loop-digits [] max v written all h = unfold decode_loop in refl
decode_loop-digits (a ∷ []) max v written all h =
    two-digits max v written (a / 4) (a % 4 * 16) _ (omega arith) (omega arith) (omega arith)
    ∙ ap₂ ◌∷◌ (omega arith) (decode-ends max _ 4 (written + 1) pad _ value_of-pad)
decode_loop-digits (a ∷ b ∷ []) max v written all h =
    two-digits max v written (a / 4) (a % 4 * 16 + b / 16) _ (omega arith) (omega arith)
      (omega arith)
    ∙ ap₂ ◌∷◌ (omega arith) (
        third-digit max _ (written + 1) (b % 16 * 4) _ (omega arith) (omega arith)
        ∙ ap₂ ◌∷◌ (omega (arith, value_of-digit (a % 4 * 16 + b / 16) (omega arith)))
            (decode-ends max _ 2 (written + 1 + 1) pad _ value_of-pad))
decode_loop-digits (a ∷ b ∷ c ∷ src) max v written all h =
    two-digits max v written (a / 4) (a % 4 * 16 + b / 16) _ (omega arith) (omega arith)
      (omega arith)
    ∙ ap₂ ◌∷◌ (omega arith) (
        third-digit max _ (written + 1) (b % 16 * 4 + c / 64) _ (omega arith) (omega arith)
        ∙ ap₂ ◌∷◌ (omega (arith, value_of-digit (a % 4 * 16 + b / 16) (omega arith))) (
            fourth-digit max _ (written + 1 + 1) (c % 64) _ (omega arith) (omega arith)
            ∙ ap₂ ◌∷◌ (omega (arith, value_of-digit (b % 16 * 4 + c / 64) (omega arith)))
                (decode_loop-digits src max _ (written + 1 + 1 + 1) all.1.1.1 (omega arith))))
