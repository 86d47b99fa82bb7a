-- ===== src/Launch/Texts.antt =====
-- Texts with a colon, texts of 128 characters, and what is read back from the text of an object.
use mathlib.Core.Bool.{false≢true}
use vncc.Base.{
  inl, inr, Bool-cases, ltb, ltb→lt, subst, not, ◌&&◌, same_bytes, ℕ, ◌^◌, ◌<◌, ◌≡◌, ◌==◌, refl, ap,
  ◌∙◌, lt→ltb, if_true, Bool, true, false, if◌then◌else◌, List, [], ◌∷◌, ◌++◌, All, Option, some,
  length,
}
use vncc.Instructions.{ℤ, pos, negsuc}
use vncc.Launch.{
  Value, int, str, get_int, get_str, Root, in_128, has_colon, before_colon, after_colon, split_url,
}

-- A host name has no colon.
abbrev pub IsHost : List ℕ → Type 0
IsHost host = All (λ c. (c == 58) ≡ false) host

has_colon-host : (host rest : List ℕ) → IsHost host → has_colon (host ++ 58 ∷ rest) ≡ true
has_colon-host [] rest h = refl
has_colon-host (c ∷ host) rest (e, h) = rw e (has_colon-host host rest h)

before_colon-host : (host rest : List ℕ) → IsHost host → before_colon (host ++ 58 ∷ rest) ≡ host
before_colon-host [] rest h = refl
before_colon-host (c ∷ host) rest (e, h) = rw e (ap (λ cs. c ∷ cs) (before_colon-host host rest h))

after_colon-host : (host rest : List ℕ) → IsHost host → after_colon (host ++ 58 ∷ rest) ≡ rest
after_colon-host [] rest h = refl
after_colon-host (c ∷ host) rest (e, h) = rw e (after_colon-host host rest h)

pub split_url-host :
    (host rest : List ℕ) → IsHost host → split_url (host ++ 58 ∷ rest) ≡ (host, rest)
split_url-host host rest h = λ i. (before_colon-host host rest h i, port i)
  where
    port :
        (if has_colon (host ++ 58 ∷ rest)
          then after_colon (host ++ 58 ∷ rest)
          else host ++ 58 ∷ rest)
        ≡ rest
    port = if_true _ _ _ (has_colon-host host rest h) ∙ after_colon-host host rest h

pub in_128-fits : (text : List ℕ) → length text < 128 → in_128 text ≡ some text
in_128-fits text h = if_true _ _ _ (lt→ltb _ _ h)

-- The value of an `int`, and a text of ASCII characters.
abbrev pub IsInt : ℤ → Type 0
IsInt (pos n) = n < 2 ^ 31
IsInt (negsuc n) = n < 2 ^ 31

abbrev pub IsAscii : List ℕ → Type 0
IsAscii text = All (λ c. c < 128) text

abbrev pub all_ascii : List ℕ → Bool
all_ascii [] = true
all_ascii (c ∷ cs) = ltb c 128 && all_ascii cs

pub all_ascii-IsAscii : (text : List ℕ) → all_ascii text ≡ true → IsAscii text
all_ascii-IsAscii [] e = tt
all_ascii-IsAscii (c ∷ cs) e = elim (Bool-cases (ltb c 128)) [
  | inl f ↦ (ltb→lt c 128 f, all_ascii-IsAscii cs (subst (λ b. (b && all_ascii cs) ≡ true) f e))
  | inr f ↦ absurd (false≢true (subst (λ b. (b && all_ascii cs) ≡ true) f e))
]

abbrev pub IsMember : List ℕ × Value → Type 0
IsMember (name, int z) = IsAscii name × IsInt z
IsMember (name, str s) = IsAscii name × IsAscii s

abbrev pub is_new : List ℕ → Root → Bool
is_new name [] = true
is_new name ((n, v) ∷ rest) = not (same_bytes n name) && is_new name rest

abbrev pub all_new : Root → Bool
all_new [] = true
all_new ((n, v) ∷ rest) = is_new n rest && all_new rest

-- An object whose members are found again in what is parsed from its text, in whatever order.
pub record ReadBack {Text : Type 0} (dump : Root → Text) (parse : Text → Option Root) (r : Root)
    : Type 0 where
  pub back : Root
  pub parses : parse (dump r) ≡ some back
  pub ints : (name : List ℕ) → get_int name back ≡ get_int name r
  pub strs : (name : List ℕ) → get_str name back ≡ get_str name r
