-- ===== src/Base64.antt =====
-- Base64 as base/algorithm/Base64.cpp writes and reads it: `CBase64::Base64Encode` and
-- `CBase64::Base64Decode`, each with its length limit, and the two calls that find the length first.
-- Bytes and characters are numbers; `unsigned long` has 64 bits.
pub mod Digits
pub mod Encode
pub mod Decode
pub mod Tail
mod Tests
use vncc.Base.{
  ℕ, zero, suc, ◌+◌, ◌-◌, ◌*◌, ◌/◌, ◌%◌, ◌^◌, ◌≤◌, ◌<◌, List, [], ◌∷◌, ◌++◌, Option, none, some,
  leb, ltb, ◌==◌, if◌then◌else◌, length, get_or, set, take, tabulate,
}

-- The 64 digits, and '=' at position 64.
abbrev pub base64_alphabet : List ℕ
base64_alphabet =
    tabulate 26 (λ k. 65 + k)
    ++ (tabulate 26 (λ k. 97 + k) ++ (tabulate 10 (λ k. 48 + k) ++ (43 ∷ 47 ∷ 61 ∷ [])))

unfoldable pub digit : ℕ → ℕ
digit i = get_or base64_alphabet i 0

abbrev pub pad : ℕ
pad = 61

abbrev fill : ℕ → List ℕ → List ℕ
fill zero table = table
fill (suc n) table = set (fill n table) (get_or base64_alphabet n 0) n

abbrev pub base64_table : List ℕ
base64_table = fill 64 (tabulate 256 (λ k. 255))

unfoldable pub value_of : ℕ → ℕ
value_of c = get_or base64_table c 255

-- The loop of `Base64Encode`, with `nIndex`: it stops when four characters might not fit.
unfoldable pub encode_loop : ℕ → ℕ → List ℕ → List ℕ
encode_loop max index [] = []
encode_loop max index (a ∷ []) =
    if leb max (index + 3)
    then []
    else digit (a * 2 ^ 16 / 2 ^ 18) ∷ digit (a * 2 ^ 16 / 2 ^ 12 % 64) ∷ pad ∷ pad ∷ []
encode_loop max index (a ∷ b ∷ []) =
    let v = a * 2 ^ 16 + b * 2 ^ 8 in
    if leb max (index + 3)
    then []
    else digit (v / 2 ^ 18) ∷ digit (v / 2 ^ 12 % 64) ∷ digit (v / 2 ^ 6 % 64) ∷ pad ∷ []
encode_loop max index (a ∷ b ∷ c ∷ src) =
    let v = a * 2 ^ 16 + b * 2 ^ 8 + c in
    let rest = encode_loop max (index + 4) src in
    if leb max (index + 3)
    then []
    else digit (v / 2 ^ 18)
      ∷ digit (v / 2 ^ 12 % 64)
      ∷ digit (v / 2 ^ 6 % 64)
      ∷ digit (v % 64)
      ∷ rest

-- What `Base64Encode` returns, whatever it wrote: an `int`, and `none` if the product, or the sum
-- before it, does not fit one.
unfoldable pub encoded_length : List ℕ → Option ℕ
encoded_length src =
    if ltb ((length src + 2) / 3 * 4) (2 ^ 31) then some ((length src + 2) / 3 * 4) else none

abbrev encode_in : List ℕ → Option ℕ → Option (List ℕ)
encode_in src none = none
encode_in src (some max) = some (encode_loop max 0 src)

-- The call that finds the length first.
unfoldable pub base64_encode : List ℕ → Option (List ℕ)
base64_encode src = encode_in src (encoded_length src)

-- The loop of `Base64Decode`: `v` holds what was read, of which `n` bits are not written yet.
unfoldable pub decode_loop : ℕ → ℕ → ℕ → ℕ → List ℕ → List ℕ
decode_loop max v n written [] = []
decode_loop max v n written (c ∷ src) =
    let next = v * 2 ^ 6 % 2 ^ 64 + value_of c in
    let stay = decode_loop max next (n + 6) written src in
    let go = decode_loop max next (n + 6 - 8) (written + 1) src in
    if value_of c == 255
    then []
    else if leb max written
    then []
    else if leb 8 (n + 6)
    then (next / 2 ^ (n + 6 - 8) % 256) ∷ go
    else stay

-- `nEndCount`, from the last character back.
unfoldable pub end_count : ℕ → List ℕ → ℕ
end_count zero src = 0
end_count (suc j) src = if get_or src j 0 == pad then suc (end_count j src) else 0

-- What `Base64Decode` returns.
abbrev pub decoded_length : List ℕ → ℕ
decoded_length src = length src / 4 * 3 - end_count (length src) src

-- The call that finds the length first; `v` is what the variable holds at its start.
unfoldable pub base64_decode : ℕ → List ℕ → List ℕ
base64_decode v src = decode_loop (decoded_length src) v 0 0 src
