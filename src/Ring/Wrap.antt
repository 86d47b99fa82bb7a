-- ===== src/Ring/Wrap.antt =====
-- What becomes of a ring whose size does not divide 2^32 when its rear counter wraps.
use native.Mathlib.Nat.{add-mod}
use vncc.Base.{
  u32, ℕ, ◌+◌, ◌-◌, ◌%◌, ◌≤◌, ◌<◌, ◌≡◌, ◌≢◌, ◌⊎◌, inl, inr, ◌∙◌, sym, ap_at, List, arith, mod-lt,
  mod-eq_of_lt, mod-eq-sub-mod,
}
use vncc.Ring.{RingBuf, len, put, put_len}
use vncc.Ring.Inv.{IsValid}
use vncc.Ring.Put.{index-shift}

-- A step that does not change an index is a multiple of the size.
mod-zero_of_fixed : (s x y : ℕ) → 0 < s → (x + y) % s ≡ x % s → y % s ≡ 0
mod-zero_of_fixed s x y p e = elim (split (x % s + y % s)) [
  | inl lt ↦ omega (arith, add-mod x y s, mod-eq_of_lt lt)
  | inr ge ↦ absurd (
      omega (
        arith,
        add-mod x y s,
        mod-lt x p,
        mod-lt y p,
        mod-eq-sub-mod {n = x % s + y % s} {m = s} ge,
        mod-eq_of_lt {n = x % s + y % s - s} {m = s} (omega (arith, mod-lt x p, mod-lt y p)),
      ))
]
  where
    split : (k : ℕ) → (k < s) ⊎ (s ≤ k)
    split k = grind arith

-- If the size does not divide 2^32 and a put takes the rear counter past 2^32, the counter no longer
-- points behind the bytes held: the next put writes them elsewhere than the reads look for them.
pub put-loses-place :
    (r : RingBuf) (src : List ℕ) (n : ℕ)
    → IsValid r
    → u32 % r.size ≢ 0
    → u32 ≤ r.rear + put_len r n
    → let q = (put r src n).0 in (q.front + len q) % q.size ≢ q.rear % q.size
unfolding put
put-loses-place r src n v odd wraps e = odd (
    mod-zero_of_fixed r.size (r.rear + put_len r n - u32) u32 v.pos (
      ap_at (λ x. x % r.size) (r.rear + put_len r n - u32 + u32) (r.rear + put_len r n)
        (omega arith)
      ∙ sym (index-shift r.size r.front r.rear (len r) (put_len r n) v.coherent)
      ∙ ap_at (λ l. (r.front + l) % r.size) (len r + put_len r n)
          (((r.rear + put_len r n) % u32 + u32 - r.front) % u32) (omega (arith, v))
      ∙ e
      ∙ ap_at (λ x. x % r.size) ((r.rear + put_len r n) % u32) (r.rear + put_len r n - u32)
          (omega (arith, v))))
