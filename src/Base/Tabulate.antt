-- ===== src/Base/Tabulate.antt =====
-- Lists given by a function of the position, and block writes: what a ring buffer's `memcpy` calls
-- read and write, position by position.
use Prim.Native.Nat.{ℕ, zero, suc, ◌+◌, ◌<◌, ◌≤◌}
use mathlib.Core.Path.{◌≡◌, refl, ap, ap₂, ◌∙◌}
use mathlib.Core.List.{List, [], ◌∷◌, ◌++◌}
use native.Mathlib.Omega.{arith}
use vncc.Base.Lists.{
  ap_at, length, get_or, set, take, drop, length-set, get_or-set_self, get_or-set_ne,
}

module _ {ℓ} {A : Type ℓ} where
  -- The first `n` values of a function.
  abbrev pub tabulate : ℕ → (ℕ → A) → List A
  tabulate zero f = []
  tabulate (suc n) f = f 0 ∷ tabulate n (λ k. f (suc k))

  pub length-tabulate : (n : ℕ) (f : ℕ → A) → length (tabulate n f) ≡ n
  length-tabulate zero f = refl
  length-tabulate (suc n) f = ap suc (length-tabulate n (λ k. f (suc k)))

  pub tabulate-ext :
      (n : ℕ) (f g : ℕ → A) → ((k : ℕ) → k < n → f k ≡ g k) → tabulate n f ≡ tabulate n g
  tabulate-ext zero f g h = refl
  tabulate-ext (suc n) f g h =
      ap₂ ◌∷◌ (h 0 (omega arith)) (tabulate-ext n _ _ (λ k lt. h (suc k) (omega arith)))

  pub tabulate-add :
      (n m : ℕ) (f : ℕ → A) → tabulate (n + m) f ≡ tabulate n f ++ tabulate m (λ k. f (n + k))
  tabulate-add zero m f =
      ap_at (λ j. tabulate j f) (0 + m) (m) (omega arith)
      ∙ tabulate-ext m _ _ (λ k lt. ap_at f (k) (0 + k) (omega arith))
  tabulate-add (suc n) m f =
      ap_at (λ j. tabulate j f) (suc n + m) (suc (n + m)) (omega arith)
      ∙ ap (◌∷◌ (f 0)) (
          tabulate-add n m (λ k. f (suc k))
          ∙ ap (◌++◌ (tabulate n (λ k. f (suc k))))
              (tabulate-ext m _ _ (λ k lt. ap_at f (suc (n + k)) (suc n + k) (omega arith))))

  shift_index :
      (x : A) (xs : List A) (d : A) (i j : ℕ) → suc i ≡ j → get_or xs i d ≡ get_or (x ∷ xs) j d
  shift_index x xs d i j e = ap (λ k. get_or (x ∷ xs) k d) e

  -- A block read of `n` items from position `off`, inside the list.
  pub take-drop-eq-tabulate :
      (off n : ℕ) (xs : List A) (d : A)
      → off + n ≤ length xs
      → take n (drop off xs) ≡ tabulate n (λ k. get_or xs (off + k) d)
  take-drop-eq-tabulate zero zero xs d h = refl
  take-drop-eq-tabulate zero (suc n) [] d h = absurd (omega arith)
  take-drop-eq-tabulate zero (suc n) (x ∷ xs) d h =
      ap₂ ◌∷◌ (ap_at (λ k. get_or (x ∷ xs) k d) (0) (0 + 0) (omega arith)) (
        take-drop-eq-tabulate zero n xs d (omega arith)
        ∙ tabulate-ext n _ _ (λ k lt. shift_index x xs d (0 + k) (0 + suc k) (omega arith)))
  take-drop-eq-tabulate (suc off) zero [] d h = refl
  take-drop-eq-tabulate (suc off) (suc n) [] d h = absurd (omega arith)
  take-drop-eq-tabulate (suc off) n (x ∷ xs) d h =
      take-drop-eq-tabulate off n xs d (omega arith)
      ∙ tabulate-ext n _ _ (λ k lt. shift_index x xs d (off + k) (suc off + k) (omega arith))

  pub take-eq-tabulate :
      (n : ℕ) (xs : List A) (d : A) → n ≤ length xs → take n xs ≡ tabulate n (λ k. get_or xs k d)
  take-eq-tabulate zero xs d h = refl
  take-eq-tabulate (suc n) [] d h = absurd (omega arith)
  take-eq-tabulate (suc n) (x ∷ xs) d h = ap (◌∷◌ x) (take-eq-tabulate n xs d (omega arith))

  pub get_or-take : (n k : ℕ) (xs : List A) (d : A) → k < n → get_or (take n xs) k d ≡ get_or xs k d
  get_or-take zero k xs d h = absurd (omega arith)
  get_or-take (suc n) k [] d h = refl
  get_or-take (suc n) zero (x ∷ xs) d h = refl
  get_or-take (suc n) (suc k) (x ∷ xs) d h = get_or-take n k xs d (omega arith)

  pub get_or-drop : (n k : ℕ) (xs : List A) (d : A) → get_or (drop n xs) k d ≡ get_or xs (n + k) d
  get_or-drop zero k xs d = ap_at (λ j. get_or xs j d) (k) (0 + k) (omega arith)
  get_or-drop (suc n) k [] d = refl
  get_or-drop (suc n) k (x ∷ xs) d =
      get_or-drop n k xs d ∙ shift_index x xs d (n + k) (suc n + k) (omega arith)

  -- `memcpy(dst + off, src, length src)`.
  unfoldable pub write_at : List A → ℕ → List A → List A
  write_at dst off [] = dst
  write_at dst off (x ∷ xs) = write_at (set dst off x) (suc off) xs

  pub length-write_at :
      (dst : List A) (off : ℕ) (src : List A) → length (write_at dst off src) ≡ length dst
  unfolding write_at
  length-write_at dst off [] = refl
  length-write_at dst off (x ∷ xs) =
      length-write_at (set dst off x) (suc off) xs ∙ length-set dst off x

  -- Positions before the block keep their values.
  pub get_or-write_at_below :
      (dst : List A) (off : ℕ) (src : List A) (j : ℕ) (d : A)
      → j < off
      → get_or (write_at dst off src) j d ≡ get_or dst j d
  unfolding write_at
  get_or-write_at_below dst off [] j d h = refl
  get_or-write_at_below dst off (x ∷ xs) j d h =
      get_or-write_at_below (set dst off x) (suc off) xs j d (omega arith)
      ∙ get_or-set_ne dst off j x d (omega arith)

  -- Positions behind the block keep their values.
  pub get_or-write_at_above :
      (dst : List A) (off : ℕ) (src : List A) (j : ℕ) (d : A)
      → off + length src ≤ j
      → get_or (write_at dst off src) j d ≡ get_or dst j d
  unfolding write_at
  get_or-write_at_above dst off [] j d h = refl
  get_or-write_at_above dst off (x ∷ xs) j d h =
      get_or-write_at_above (set dst off x) (suc off) xs j d (omega arith)
      ∙ get_or-set_ne dst off j x d (omega arith)

  -- Positions of the block have the values written.
  pub get_or-write_at_in :
      (dst : List A) (off : ℕ) (src : List A) (k : ℕ) (d : A)
      → off + length src ≤ length dst
      → k < length src
      → get_or (write_at dst off src) (off + k) d ≡ get_or src k d
  unfolding write_at
  get_or-write_at_in dst off [] k d h lt = absurd (omega arith)
  get_or-write_at_in dst off (x ∷ xs) zero d h lt =
      get_or-write_at_below (set dst off x) (suc off) xs (off + 0) d (omega arith)
      ∙ ap_at (λ j. get_or (set dst off x) j d) (off + 0) (off) (omega arith)
      ∙ get_or-set_self dst off x d (omega arith)
  get_or-write_at_in dst off (x ∷ xs) (suc k) d h lt =
      ap_at (λ j. get_or (write_at (set dst off x) (suc off) xs) j d) (off + suc k) (suc off + k)
        (omega arith)
      ∙ get_or-write_at_in (set dst off x) (suc off) xs k d (omega (arith, length-set dst off x))
          (omega arith)
