-- ===== src/Web/Tests.antt =====
-- A query with a space, a percent sign and a byte above 127.
use vncc.Base.{ℕ, ◌≡◌, refl, List, [], ◌∷◌, All, arith}
use vncc.Web.{url_encode, kept, hex_digit}
use vncc.Web.Decode.{url_decode, IsSafe, url_decode-url_encode}

-- "a b%" and the byte 228.
abbrev query : List ℕ
query = 97 ∷ 32 ∷ 98 ∷ 37 ∷ 228 ∷ []

-- "a%20b%25%E4"
url_encode-query : url_encode query ≡ 97 ∷ 37 ∷ 50 ∷ 48 ∷ 98 ∷ 37 ∷ 50 ∷ 53 ∷ 37 ∷ 69 ∷ 52 ∷ []
unfolding url_encode kept hex_digit
url_encode-query = refl

url_decode-url_encode_example :
    (url_decode (url_encode query) ≡ query) × All IsSafe (url_encode query)
url_decode-url_encode_example = url_decode-url_encode query (omega arith)
