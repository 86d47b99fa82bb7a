-- ===== src/Base/Texts.antt =====
-- Texts as lists of bytes.
use Prim.Native.Char.{code}
use Prim.Native.String.{String}
use Prim.Native.Nat.{ℕ}
use mathlib.Core.Path.{◌≡◌, refl, ap₂}
use mathlib.Core.Bool.{Bool, true, false, ◌&&◌, and-eq-true_iff}
use mathlib.Core.List.{List, [], ◌∷◌}
use native.Mathlib.Omega.{arith}
use vncc.Base.Tests.{◌==◌, ==_iff}

-- The bytes of a literal of the source, all of them ASCII.
abbrev pub ascii : String → List ℕ
ascii Prim.Native.String.[] = []
ascii (Prim.Native.String.◌∷◌ c s) = code c ∷ ascii s

abbrev pub same_bytes : List ℕ → List ℕ → Bool
same_bytes [] [] = true
same_bytes (a ∷ xs) (b ∷ ys) = (a == b) && same_bytes xs ys
same_bytes _ _ = false

pub same_bytes_self : (xs : List ℕ) → same_bytes xs xs ≡ true
same_bytes_self [] = refl
same_bytes_self (x ∷ xs) = ground (arith, same_bytes_self xs)

pub same_bytes-eq : (xs ys : List ℕ) → same_bytes xs ys ≡ true → xs ≡ ys
same_bytes-eq [] [] h = refl
same_bytes-eq [] (y ∷ ys) h = cc
same_bytes-eq (x ∷ xs) [] h = cc
same_bytes-eq (x ∷ xs) (y ∷ ys) h =
    let (a, b) = (and-eq-true_iff (x == y) (same_bytes xs ys)).0 h in
    ap₂ (λ c cs. c ∷ cs) ((==_iff x y).0 a) (same_bytes-eq xs ys b)
