-- ===== src/Instructions/Laws.antt =====
-- What the JSON library is relied on for when a struct is written and read back.
use Prim.Native.String.{String}
use text.Mathlib.Text.{◌==◌}
use vncc.Base.{◌^◌, ◌<◌, ◌≡◌, Bool, false, if◌then◌else◌, some}
use vncc.Instructions.{
  ℤ, pos, negsuc, Width, int_type, long_type, long_long_type, unsigned_type,
  unsigned_long_long_type, JsonLib,
}

-- The values of an integer type, where `long` has 64 bits.
abbrev pub InRange : Width → ℤ → Type 0
InRange int_type (pos n) = n < 2 ^ 31
InRange int_type (negsuc n) = n < 2 ^ 31
InRange long_type (pos n) = n < 2 ^ 63
InRange long_type (negsuc n) = n < 2 ^ 63
InRange long_long_type (pos n) = n < 2 ^ 63
InRange long_long_type (negsuc n) = n < 2 ^ 63
InRange unsigned_type (pos n) = n < 2 ^ 32
InRange unsigned_long_long_type (pos n) = n < 2 ^ 64
InRange _ (negsuc n) = ⊥

module _ {Json Real : Type 0} (lib : JsonLib Json Real) where
  -- An object as assignments to members make it from `null`.
  pub data Made : Json → Type 0 where
    start : Made lib.null
    more : {j : Json} (name : String) (v : Json) → Made j → Made (lib.assign name v j)

  -- `json[name] = v` makes the member, and a value that was written is read as itself.
  pub record JsonLaws : Type 0 where
    pub find-assign :
        (n m : String) (v j : Json)
        → Made j
        → lib.find n (lib.assign m v j) ≡ (if n == m then some v else lib.find n j)
    pub is_integer : (x : ℤ) → lib.is_null (lib.of_integer x) ≡ false
    pub is_boolean : (x : Bool) → lib.is_null (lib.of_boolean x) ≡ false
    pub is_real : (x : Real) → lib.is_null (lib.of_real x) ≡ false
    pub is_text : (x : String) → lib.is_null (lib.of_text x) ≡ false
    pub integer_back :
        (w : Width) (x : ℤ) → InRange w x → lib.get_integer w (lib.of_integer x) ≡ some x
    pub boolean_back : (x : Bool) → lib.get_boolean (lib.of_boolean x) ≡ some x
    pub real_back : (x : Real) → lib.get_real (lib.of_real x) ≡ some x
    pub text_back : (x : String) → lib.get_text (lib.of_text x) ≡ some x
