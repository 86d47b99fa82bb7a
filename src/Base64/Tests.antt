-- ===== src/Base64/Tests.antt =====
-- The texts of RFC 4648, section 10.
use vncc.Base.{
  ℕ, ◌+◌, ◌*◌, ◌/◌, ◌^◌, ◌<◌, ◌≤◌, ◌⊎◌, none, some, ◌≡◌, refl, List, [], ◌∷◌, length, arith,
}
use vncc.Base64.{digit, encode_loop, base64_encode, base64_decode, decoded_length, encoded_length}
use vncc.Base64.Tail.{base64_decode-base64_encode}

abbrev foob : List ℕ
foob = 102 ∷ 111 ∷ 111 ∷ 98 ∷ []

-- "Zm9vYg=="
base64_encode-foob : base64_encode foob ≡ some (90 ∷ 109 ∷ 57 ∷ 118 ∷ 89 ∷ 103 ∷ 61 ∷ 61 ∷ [])
unfolding base64_encode encoded_length encode_loop digit
base64_encode-foob = refl

base64_decode-base64_encode_example :
    (((length foob + 2) / 3 * 4 < 2 ^ 31)
      × ((text : List ℕ) × (base64_encode foob ≡ some text)
          × (base64_decode 99 text ≡ foob)
          × (encoded_length foob ≡ some (length text))
          × (decoded_length text ≡ 4)))
    ⊎ ((2 ^ 31 ≤ (length foob + 2) / 3 * 4) × (base64_encode foob ≡ none))
base64_decode-base64_encode_example = base64_decode-base64_encode 99 foob (omega arith)
