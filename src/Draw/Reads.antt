-- ===== src/Draw/Reads.antt =====
-- What a drawing reads of a picture's bytes: the calls of `glTexSubImage2D` in `OnFrame` of
-- common/evideorender.cpp, with the alignment of four bytes that OpenGL has for rows unless it is told
-- another.
use vncc.Base.{
  ℕ, zero, suc, ◌+◌, ◌*◌, ◌/◌, ◌≤◌, ◌≡◌, ◌==◌, refl, sym, ap, subst, ◌∙◌, Option, none, some, List,
  [], ◌∷◌, ◌++◌, length, drop, length-append, All, ltb, Bool-cases, inl, inr, arith,
}
use vncc.Draw.{PixelFormat, render_unknow, render_yuv420p, render_nv12, put_data, put_all}

-- The bytes of so many rows of so many bytes: the last row has no padding.
abbrev pub rows : ℕ → ℕ → ℕ
rows row zero = 0
rows row (suc h) = (row + 3) / 4 * 4 * h + row

-- The offset and the number of bytes of each read.
unfoldable pub reads : PixelFormat → ℕ → ℕ → List (ℕ × ℕ)
reads render_unknow w h = []
reads render_yuv420p w h =
    (0, rows w h) ∷ (w * h, rows (w / 2) (h / 2)) ∷ (w * h * 5 / 4, rows (w / 2) (h / 2)) ∷ []
reads render_nv12 w h = (0, rows w h) ∷ (w * h, rows (w / 2 * 2) (h / 2)) ∷ []

abbrev pub Within : ℕ → ℕ × ℕ → Type 0
Within n read = read.0 + read.1 ≤ n

-- Each read ends within `n` bytes.
abbrev pub IsReadable : PixelFormat → ℕ → ℕ → ℕ → Type 0
IsReadable fmt w h n = All (Within n) (reads fmt w h)

-- A frame that is handed over has a width of eight, a height of two, and all its bytes.
pub record IsWhole (bytes : List ℕ) (w h : ℕ) (fmt : PixelFormat) : Type 0 where
  pub columns : ℕ
  pub lines : ℕ
  pub eights : w ≡ 8 * columns
  pub twos : h ≡ 2 * lines
  pub all_bytes : 24 * (columns * lines) ≤ length bytes

whole_row : (k : ℕ) → (4 * k + 3) / 4 * 4 ≡ 4 * k
whole_row k = omega arith

product : (k h : ℕ) → 4 * k * h + 4 * k ≡ 4 * (k * suc h)
product k h = grind (arith)

area : (k m : ℕ) → 8 * k * (2 * m) ≡ 16 * (k * m)
area k m = grind (arith)

double : (k m : ℕ) → 2 * k * (2 * m) ≡ 4 * (k * m)
double k m = grind (arith)

rows_lem : (k h : ℕ) → rows (4 * k) h ≡ 4 * (k * h)
rows_lem k zero = omega arith
rows_lem k (suc h) = rw (whole_row k) (product k h)

rows_of : (row h k m : ℕ) → row ≡ 4 * k → h ≡ m → rows row h ≡ 4 * (k * m)
rows_of row h k m e f = ap (λ r. rows r h) e ∙ ap (rows (4 * k)) f ∙ rows_lem k m

whole_plane : (k m : ℕ) → rows (8 * k) (2 * m) ≡ 16 * (k * m)
whole_plane k m =
    rows_of (8 * k) (2 * m) (2 * k) (2 * m) (omega arith) refl
    ∙ ap (λ p. 4 * p) (double k m)
    ∙ omega arith

small_plane : (k m : ℕ) → rows (8 * k / 2) (2 * m / 2) ≡ 4 * (k * m)
small_plane k m = rows_of (8 * k / 2) (2 * m / 2) k m (omega arith) (omega arith)

pair_plane : (k m : ℕ) → rows (8 * k / 2 * 2) (2 * m / 2) ≡ 8 * (k * m)
pair_plane k m =
    rows_of (8 * k / 2 * 2) (2 * m / 2) (2 * k) m (omega arith) (omega arith) ∙ grind (arith)

after : {a b c d n : ℕ} → a ≡ c → b ≡ d → c + d ≤ n → a + b ≤ n
after e f le = omega arith

readable : (fmt : PixelFormat) (k m n : ℕ) → 24 * (k * m) ≤ n → IsReadable fmt (8 * k) (2 * m) n
unfolding reads
readable render_unknow k m n le = tt
readable render_yuv420p k m n le = (
  let e = whole_plane k m in omega arith,
  (
    after (area k m) (small_plane k m) (omega arith),
    (after (ap (λ a. a * 5 / 4) (area k m)) (small_plane k m) (omega arith), tt),
  ),
)
readable render_nv12 k m n le =
    (let e = whole_plane k m in omega arith, (after (area k m) (pair_plane k m) (omega arith), tt))

pub IsWhole-IsReadable :
    (bytes : List ℕ) (w h : ℕ) (fmt : PixelFormat)
    → IsWhole bytes w h fmt
    → IsReadable fmt w h (length bytes)
IsWhole-IsReadable bytes w h fmt whole =
    subst (λ w'. IsReadable fmt w' h (length bytes)) (sym whole.eights)
      (subst (λ h'. IsReadable fmt (8 * whole.columns) h' (length bytes)) (sym whole.twos)
        (readable fmt whole.columns whole.lines (length bytes) whole.all_bytes))

pub Within-le : (m n : ℕ) (xs : List (ℕ × ℕ)) → m ≤ n → All (Within m) xs → All (Within n) xs
Within-le m n [] le a = a
Within-le m n (x ∷ xs) le (a, later) = (omega arith, Within-le m n xs le later)

-- What a buffer may hold.
abbrev pub Kept : PixelFormat → ℕ → ℕ → Option (List ℕ) → Type 0
Kept fmt w h none = Unit
Kept fmt w h (some xs) = IsReadable fmt w h (length xs)

put_data-Kept :
    (fmt : PixelFormat) (w h : ℕ) (bytes : List ℕ) (p : Option (List ℕ))
    → IsReadable fmt w h (length bytes)
    → Kept fmt w h (put_data bytes p)
unfolding put_data
put_data-Kept fmt w h bytes none a = elim (Bool-cases (length bytes == 0)) [
  | inl e ↦ rw e tt
  | inr e ↦ rw e a
]
put_data-Kept fmt w h bytes (some old) a = elim (Bool-cases (ltb (length old) (length bytes))) [
  | inl e ↦ rw e a
  | inr e ↦ rw e (Within-le _ _ _ longer a)
]
  where
    longer : length bytes ≤ length (bytes ++ drop (length bytes) old)
    longer = rw (length-append bytes (drop (length bytes) old)) (omega arith)

pub put_all-Kept :
    (fmt : PixelFormat) (w h : ℕ) (bytes : List ℕ) (ps : List (Option (List ℕ)))
    → IsReadable fmt w h (length bytes)
    → All (Kept fmt w h) (put_all bytes ps)
put_all-Kept fmt w h bytes [] a = tt
put_all-Kept fmt w h bytes (p ∷ ps) a =
    (put_data-Kept fmt w h bytes p a, put_all-Kept fmt w h bytes ps a)
