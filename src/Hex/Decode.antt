-- ===== src/Hex/Decode.antt =====
-- Hexadecimal text read back.
use vncc.Base.{
  IsByte, ℕ, ◌+◌, ◌-◌, ◌*◌, ◌/◌, ◌%◌, ◌<◌, ◌≤◌, ◌≡◌, ◌⊎◌, refl, ap, ap₂, leb, if◌then◌else◌, List,
  [], ◌∷◌, All, length, arith,
}
use vncc.Hex.{hex_char, char2_hex, char_str2_hex_str}

abbrev pub digit_value : ℕ → ℕ
digit_value c = if leb c 57 then c - 48 else c - 55

unfoldable pub hex_decode : List ℕ → List ℕ
hex_decode (a ∷ b ∷ text) = (digit_value a * 16 + digit_value b) ∷ hex_decode text
hex_decode _ = []

-- A digit, or a capital letter up to 'F'.
abbrev pub IsHex : ℕ → Type 0
IsHex c = ((48 ≤ c) × (c ≤ 57)) ⊎ ((65 ≤ c) × (c ≤ 70))

hex_char-IsHex : (n : ℕ) → n < 16 → IsHex (hex_char n)
hex_char-IsHex n h = ground arith

digit_value-hex_char : (n : ℕ) → n < 16 → digit_value (hex_char n) ≡ n
digit_value-hex_char n h = ground arith

two_digits :
    (c : ℕ) → IsByte c → digit_value (hex_char (c / 16)) * 16 + digit_value (hex_char (c % 16)) ≡ c
two_digits c byte = omega (
  arith,
  ap (λ n. n * 16) (digit_value-hex_char (c / 16) (omega arith)),
  digit_value-hex_char (c % 16) (omega arith),
)

-- The hexadecimal text of any bytes has two characters for each, all of them digits or letters from
-- 'A' to 'F', and reads back as the bytes.
pub hex_decode-char_str2_hex_str :
    (text : List ℕ)
    → All IsByte text
    → (hex_decode (char_str2_hex_str text) ≡ text)
      × All IsHex (char_str2_hex_str text)
      × (length (char_str2_hex_str text) ≡ 2 * length text)
unfolding hex_decode char_str2_hex_str char2_hex
hex_decode-char_str2_hex_str [] all = (refl, tt, refl)
hex_decode-char_str2_hex_str (c ∷ text) (byte, all) =
    let (same, hex, long) = hex_decode-char_str2_hex_str text all in
    (
      ap₂ (λ n ns. n ∷ ns) (two_digits c byte) same,
      (hex_char-IsHex (c / 16) (omega arith), (hex_char-IsHex (c % 16) (omega arith), hex)),
      omega (arith, long),
    )
