-- ===== src/Web/Decode.antt =====
-- Percent-encoding as RFC 3986 reads it, against `url_encode`.
use vncc.Base.{
  IsByte, ℕ, ◌+◌, ◌-◌, ◌*◌, ◌/◌, ◌%◌, ◌<◌, ◌≡◌, ◌⊎◌, inl, inr, ◌∙◌, sym, ap, ap₂, refl, subst, ◌==◌,
  ltb, Bool-cases, true, false, if◌then◌else◌, if_true, if_false, List, [], ◌∷◌, All, arith,
}
use vncc.Web.{kept, hex_digit, percent, url_encode}

abbrev pub hex_value : ℕ → ℕ
hex_value c = if ltb c 65 then c - 48 else c - 55

-- The reader of the text: a percent sign and two digits stand for a byte.
unfoldable pub url_decode : List ℕ → List ℕ
url_decode [] = []
url_decode (c ∷ []) = c ∷ []
url_decode (c ∷ a ∷ []) = c ∷ a ∷ []
url_decode (c ∷ a ∷ b ∷ text) =
    let escaped = url_decode text in
    let plain = url_decode (a ∷ b ∷ text) in
    if c == percent then (hex_value a * 16 + hex_value b) ∷ escaped else c ∷ plain

url_decode-plain :
    (c : ℕ) (text : List ℕ) → (c == percent) ≡ false → url_decode (c ∷ text) ≡ c ∷ url_decode text
unfolding url_decode
url_decode-plain c [] e = refl
url_decode-plain c (a ∷ []) e = refl
url_decode-plain c (a ∷ b ∷ text) e = if_false (c == percent) _ _ e

url_decode-escaped :
    (a b : ℕ) (text : List ℕ)
    → url_decode (percent ∷ a ∷ b ∷ text) ≡ (hex_value a * 16 + hex_value b) ∷ url_decode text
unfolding url_decode
url_decode-escaped a b text = refl

kept-percent : (c : ℕ) → kept c ≡ true → (c == percent) ≡ false
unfolding kept
kept-percent c h = ground arith

hex_value-hex_digit : (n : ℕ) → n < 16 → hex_value (hex_digit n) ≡ n
unfolding hex_digit
hex_value-hex_digit n h = ground arith

module _ (c : ℕ) (value : List ℕ) where
  url_encode-kept : kept c ≡ true → url_encode (c ∷ value) ≡ c ∷ url_encode value
  unfolding url_encode
  url_encode-kept e = if_true (kept c) _ _ e

  url_encode-escaped :
      kept c ≡ false
      → url_encode (c ∷ value)
        ≡ percent ∷ hex_digit (c / 16) ∷ hex_digit (c % 16) ∷ url_encode value
  unfolding url_encode
  url_encode-escaped e = if_false (kept c) _ _ e

-- A character that may stand in a query: a kept one, a percent sign.
abbrev pub IsSafe : ℕ → Type 0
IsSafe c = (kept c ≡ true) ⊎ (c ≡ percent)

hex_digit-kept : (n : ℕ) → n < 16 → kept (hex_digit n) ≡ true
unfolding kept hex_digit
hex_digit-kept n h = ground arith

abbrev Reads : List ℕ → List ℕ → Type 0
Reads value text = (url_decode text ≡ value) × All IsSafe text

Reads-cons :
    (c : ℕ) (value : List ℕ)
    → IsByte c
    → Reads value (url_encode value)
    → Reads (c ∷ value) (url_encode (c ∷ value))
Reads-cons c value h rest = elim (Bool-cases (kept c)) [
  | inl e ↦ subst (Reads (c ∷ value)) (sym (url_encode-kept c value e)) (
    url_decode-plain c (url_encode value) (kept-percent c e) ∙ ap (◌∷◌ c) rest.0,
    (inl e, rest.1),
  )
  | inr e ↦ subst (Reads (c ∷ value)) (sym (url_encode-escaped c value e)) (
    url_decode-escaped (hex_digit (c / 16)) (hex_digit (c % 16)) (url_encode value)
        ∙ ap₂ ◌∷◌
            (omega (
              arith,
              hex_value-hex_digit (c / 16) (omega arith),
              hex_value-hex_digit (c % 16) (omega arith),
            ))
            rest.0,
    (
      inr refl,
      (
        inl (hex_digit-kept (c / 16) (omega arith)),
        (inl (hex_digit-kept (c % 16) (omega arith)), rest.1),
      ),
    ),
  )
]

-- What `url_encode` makes of any bytes reads back as these bytes, and holds nothing but letters,
-- digits, '-', '_', '.', '~' and percent signs.
pub url_decode-url_encode :
    (value : List ℕ)
    → All IsByte value
    → (url_decode (url_encode value) ≡ value) × All IsSafe (url_encode value)
url_decode-url_encode [] all = (unfold url_encode url_decode in refl, unfold url_encode in tt)
url_decode-url_encode (c ∷ value) all = Reads-cons c value all.0 (url_decode-url_encode value all.1)
