-- ===== src/Hex.antt =====
-- The hexadecimal digests of base/misctool.cpp. A text is a list of bytes; the C functions read it up
-- to its first zero. SHA-256 and MD5 themselves are parameters.
pub mod Decode
mod Tests
use vncc.Base.{ℕ, ◌+◌, ◌-◌, ◌/◌, ◌%◌, ◌==◌, leb, if◌then◌else◌, List, [], ◌∷◌, ◌++◌}

-- The bytes up to the first zero.
abbrev pub c_text : List ℕ → List ℕ
c_text [] = []
c_text (c ∷ rest) = let later = c_text rest in if c == 0 then [] else c ∷ later

abbrev pub hex_char : ℕ → ℕ
hex_char byte = if leb byte 9 then 48 + byte else 65 + byte - 10

-- The two digits, without the zero that ends them.
unfoldable pub char2_hex : ℕ → List ℕ
char2_hex ch = hex_char (ch / 16) ∷ hex_char (ch % 16) ∷ []

unfoldable pub char_str2_hex_str : List ℕ → List ℕ
char_str2_hex_str [] = []
char_str2_hex_str (c ∷ text) = char2_hex c ++ char_str2_hex_str text

unfoldable pub get_string_sha256 : (List ℕ → List ℕ) → List ℕ → List ℕ
get_string_sha256 sha256 text = char_str2_hex_str (sha256 (c_text text))

unfoldable pub get_string_md5 : (List ℕ → List ℕ) → List ℕ → List ℕ
get_string_md5 md5 text = char_str2_hex_str (md5 (c_text text))
