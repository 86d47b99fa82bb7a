-- ===== src/Draw/Squares.antt =====
-- `Generate_Square_array` of common/evideorender.cpp. The coordinates are whole numbers.
use vncc.Base.{ℕ, zero, suc, ◌+◌, ◌*◌, ◌-◌, ltb, if◌then◌else◌, List, [], ◌∷◌, ◌++◌}
use vncc.Instructions.{ℤ, pos, negsuc}

-- The corner of a square, its first two floats.
pub record Corner : Type 0 where
  pub x : ℤ
  pub y : ℤ

pub record Square : Type 0 where
  pub tr : Corner
  pub br : Corner
  pub bl : Corner
  pub tl : Corner

-- `tri_frist` and `tri_second`.
pub record DrawIndices : Type 0 where
  pub tri_frist : ℕ × ℕ × ℕ
  pub tri_second : ℕ × ℕ × ℕ

-- `a - b`.
abbrev pub minus : ℕ → ℕ → ℤ
minus a b = if ltb a b then negsuc (b - a - 1) else pos (a - b)

-- The square of line `i` and column `j`.
abbrev pub square : ℕ → ℕ → Square
square i j = record {
  tr = record { x = minus (2 * j + 2) 1; y = minus 1 (2 * i) };
  br = record { x = minus (2 * j + 2) 1; y = minus 1 (2 * i + 2) };
  bl = record { x = minus (2 * j) 1; y = minus 1 (2 * i + 2) };
  tl = record { x = minus (2 * j) 1; y = minus 1 (2 * i) };
}

abbrev pub columns : ℕ → ℕ → ℕ → List Square
columns i zero j = []
columns i (suc left) j = square i j ∷ columns i left (j + 1)

abbrev pub lines : ℕ → ℕ → ℕ → List Square
lines zero i col = []
lines (suc left) i col = columns i col 0 ++ lines left (i + 1) col

abbrev pub indices_from : ℕ → ℕ → List DrawIndices
indices_from zero i = []
indices_from (suc left) i =
    record {
      tri_frist = (i * 4, i * 4 + 1, i * 4 + 3);
      tri_second = (i * 4 + 1, i * 4 + 2, i * 4 + 3);
    }
    ∷ indices_from left (i + 1)

unfoldable pub generate_square_array : ℕ → ℕ → List Square × List DrawIndices
generate_square_array line col = (lines line 0 col, indices_from (line * col) 0)
