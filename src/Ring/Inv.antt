-- ===== src/Ring/Inv.antt =====
-- The representation invariant of `ring_buf_t`, the bytes that a ring holds, and how a counter that
-- wraps at 2^32 meets an index that wraps at `size`.
use native.Mathlib.Nat.{mod-mod_of_dvd, mod-add-mod}
use Prim.Native.Nat.{◌∣◌}
use vncc.Base.{
  u32, ℕ, ◌+◌, ◌%◌, ◌≤◌, ◌<◌, ◌≡◌, ◌⊎◌, inl, inr, ◌∙◌, sym, ap, ap_at, refl, List, arith, length,
  get_or, tabulate, length-tabulate, some,
}
use vncc.Ring.{RingBuf, len, remain, create, clr}

pub record IsValid (r : RingBuf) : Type 0 where
  pub pos : 0 < r.size
  pub small : r.size < u32
  pub storage : r.size ≤ length r.buf
  pub front_word : r.front < u32
  pub rear_word : r.rear < u32
  pub fits : len r ≤ r.size
  pub coherent : (r.front + len r) % r.size ≡ r.rear % r.size

-- The bytes held, oldest first.
abbrev pub contents : RingBuf → List ℕ
contents r = tabulate (len r) (λ k. get_or r.buf ((r.front + k) % r.size) 0)

pub length-contents : (r : RingBuf) → length (contents r) ≡ len r
length-contents r = length-tabulate (len r) _

-- A counter may advance by `n` if it does not pass 2^32, or if `size` divides 2^32.
abbrev pub MayAdvance : ℕ → ℕ → ℕ → Type 0
MayAdvance size counter n = (counter + n < u32) ⊎ (size ∣ u32)

-- After such an advance the counter still points to the right index, and so do the places after it.
pub advance-index :
    (size counter n k : ℕ)
    → MayAdvance size counter n
    → ((counter + n) % u32 + k) % size ≡ (counter + n + k) % size
advance-index size counter n k (inl h) =
    ap_at (λ c. (c + k) % size) ((counter + n) % u32) (counter + n) (omega arith)
advance-index size counter n k (inr d) =
    sym (mod-add-mod ((counter + n) % u32) size k)
    ∙ ap (λ c. (c + k) % size) (mod-mod_of_dvd size (counter + n) d)
    ∙ mod-add-mod (counter + n) size k

-- Free space and contents make up the size.
pub remain-add-len : {r : RingBuf} → IsValid r → remain r + len r ≡ r.size
remain-add-len v = omega arith

-- A ring over enough storage starts valid and empty.
pub create-IsValid :
    (b : List ℕ) (n : ℕ)
    → 0 < n
    → n < u32
    → n ≤ length b
    → IsValid (create (some b) n).0 × (len (create (some b) n).0 ≡ 0) × ((create (some b) n).1 ≡ 0)
unfolding create
create-IsValid b n p s h = (omega arith, omega arith, refl)

-- `ring_buf_clr` empties a valid ring and keeps it valid.
pub clr-IsValid : {r : RingBuf} → IsValid r → IsValid (clr r) × (len (clr r) ≡ 0)
unfolding clr
clr-IsValid v = (omega arith, omega arith)
