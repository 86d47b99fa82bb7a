-- ===== src/Web.antt =====
-- `url_encode` of eWebRequest.cpp: what goes into the query of a request. Characters are bytes, and
-- `isalnum` is that of the C locale.
pub mod Decode
mod Tests
use vncc.Base.{
  ℕ, ◌+◌, ◌/◌, ◌%◌, ◌==◌, leb, ltb, Bool, true, false, ◌&&◌, ◌||◌, if◌then◌else◌, List, [], ◌∷◌,
}

abbrev pub between : ℕ → ℕ → ℕ → Bool
between low high c = leb low c && leb c high

abbrev pub isalnum : ℕ → Bool
isalnum c = between 48 57 c || (between 65 90 c || between 97 122 c)

-- '-', '_', '.' and '~' are kept as well.
unfoldable pub kept : ℕ → Bool
kept c = isalnum c || ((c == 45) || ((c == 95) || ((c == 46) || (c == 126))))

-- `std::hex` and `std::uppercase`; two digits by `setw(2)` and the filling zero.
unfoldable pub hex_digit : ℕ → ℕ
hex_digit n = if ltb n 10 then 48 + n else 55 + n

abbrev pub percent : ℕ
percent = 37

unfoldable pub url_encode : List ℕ → List ℕ
url_encode [] = []
url_encode (c ∷ value) =
    let rest = url_encode value in
    if kept c then c ∷ rest else percent ∷ hex_digit (c / 16) ∷ hex_digit (c % 16) ∷ rest
