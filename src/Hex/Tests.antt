-- ===== src/Hex/Tests.antt =====
-- A byte in hexadecimal.
use vncc.Base.{◌≡◌, refl, [], ◌∷◌}
use vncc.Hex.{char2_hex, char_str2_hex_str}

two_bytes : char_str2_hex_str (175 ∷ 9 ∷ []) ≡ 65 ∷ 70 ∷ 48 ∷ 57 ∷ []
unfolding char_str2_hex_str char2_hex
two_bytes = refl
