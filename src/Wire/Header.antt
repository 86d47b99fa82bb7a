-- ===== src/Wire/Header.antt =====
-- The length header, both ways, and the frames of a stream.
use vncc.Base.{
  u32, IsByte, ℕ, ◌+◌, ◌*◌, ◌<◌, ◌≡◌, ap₂, refl, List, [], ◌∷◌, ◌++◌, arith, length, All, map,
  concat,
}
use vncc.Wire.{htonl_bytes, ntohl_bytes}

-- Reading a header gives the length that was written.
pub ntohl_bytes-htonl_bytes :
    (n : ℕ) (rest : List ℕ) → n < u32 → ntohl_bytes (htonl_bytes n ++ rest) ≡ n
ntohl_bytes-htonl_bytes n rest h = omega arith

pub ntohl_bytes-lt :
    (a b c d : ℕ) (rest : List ℕ)
    → All IsByte (a ∷ b ∷ c ∷ d ∷ [])
    → ntohl_bytes (a ∷ b ∷ c ∷ d ∷ rest) < u32
ntohl_bytes-lt a b c d rest h = omega arith

-- Four bytes are the header of the length that they stand for.
htonl_bytes-four :
    (a b c d : ℕ)
    → All IsByte (a ∷ b ∷ c ∷ d ∷ [])
    → htonl_bytes (((a * 256 + b) * 256 + c) * 256 + d) ≡ a ∷ b ∷ c ∷ d ∷ []
htonl_bytes-four a b c d h =
    ap₂ ◌∷◌ (omega arith)
      (ap₂ ◌∷◌ (omega arith) (ap₂ ◌∷◌ (omega arith) (ap₂ ◌∷◌ (omega arith) refl)))

pub htonl_bytes-ntohl_bytes :
    (head : List ℕ)
    → length head ≡ 4
    → All IsByte head
    → (htonl_bytes (ntohl_bytes head) ≡ head) × (ntohl_bytes head < u32)
htonl_bytes-ntohl_bytes [] e h = absurd (omega arith)
htonl_bytes-ntohl_bytes (a ∷ []) e h = absurd (omega arith)
htonl_bytes-ntohl_bytes (a ∷ b ∷ []) e h = absurd (omega arith)
htonl_bytes-ntohl_bytes (a ∷ b ∷ c ∷ []) e h = absurd (omega arith)
htonl_bytes-ntohl_bytes (a ∷ b ∷ c ∷ d ∷ []) e h =
    (htonl_bytes-four a b c d h, ntohl_bytes-lt a b c d [] h)
htonl_bytes-ntohl_bytes (a ∷ b ∷ c ∷ d ∷ x ∷ rest) e h = absurd (omega arith)

-- A payload with its header.
abbrev pub frame : List ℕ → List ℕ
frame p = htonl_bytes (length p) ++ p

abbrev pub frames : List (List ℕ) → List ℕ
frames ps = concat (map frame ps)
