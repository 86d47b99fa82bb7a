-- ===== src/Ring/Put.antt =====
-- `ring_buf_put` of erender/eAVRender.cpp, seen through the bytes that a ring holds.
use native.Mathlib.Nat.{mod-add-mod}
use vncc.Base.{
  u32, ℕ, ◌+◌, ◌-◌, ◌%◌, ◌≤◌, ◌<◌, ◌≡◌, ◌⊎◌, inl, inr, ◌∙◌, sym, ap, ap₂, ap_at, min, List, ◌++◌,
  arith, length, get_or, take, drop, tabulate, tabulate-add, tabulate-ext, write_at,
  length-write_at, length-take, length-drop, get_or-write_at_below, get_or-write_at_above,
  get_or-write_at_in, get_or-take, get_or-drop, take-eq-tabulate, mod-lt, mod-eq_of_lt,
  mod-eq-sub-mod,
}
use vncc.Ring.{RingBuf, len, remain, put, put_len, put_head}
use vncc.Ring.Inv.{IsValid, contents, MayAdvance, advance-index}

-- An index a bounded way past a counter: it lies behind the counter's own index, or wraps once.
pub index-split :
    (size c k : ℕ)
    → 0 < size
    → k ≤ size
    → ((c + k) % size ≡ c % size + k) × (c % size + k < size)
      ⊎ ((c + k) % size + size ≡ c % size + k) × (size ≤ c % size + k)
index-split size c k p h = elim (split (c % size + k)) [
  | inl lt ↦ inl (sym (mod-add-mod c size k) ∙ mod-eq_of_lt lt, lt)
  | inr ge ↦ inr (
    omega (
      arith,
      mod-add-mod c size k,
      mod-lt c p,
      mod-eq-sub-mod {n = c % size + k} {m = size} ge,
      mod-eq_of_lt {n = c % size + k - size} {m = size} (omega (arith, mod-lt c p)),
    ),
    ge,
  )
]
  where
    split : (x : ℕ) → (x < size) ⊎ (size ≤ x)
    split x = grind arith

pub index-shift :
    (size f r l k : ℕ) → (f + l) % size ≡ r % size → (f + (l + k)) % size ≡ (r + k) % size
index-shift size f r l k e =
    ap_at (λ x. x % size) (f + (l + k)) (f + l + k) (omega arith)
    ∙ sym (mod-add-mod (f + l) size k)
    ∙ ap (λ x. (x + k) % size) e
    ∙ mod-add-mod r size k

-- The two `memcpy` calls: a block at `h`, and a block at the start.
module _ (buf : List ℕ) (h : ℕ) (head tail : List ℕ) where
  abbrev two_copies : List ℕ
  two_copies = write_at (write_at buf h head) 0 tail

  length-two_copies : length two_copies ≡ length buf
  length-two_copies = length-write_at (write_at buf h head) 0 tail ∙ length-write_at buf h head

  two_copies_outside :
      (p : ℕ)
      → length tail ≤ p
      → (p < h) ⊎ (h + length head ≤ p)
      → get_or two_copies p 0 ≡ get_or buf p 0
  two_copies_outside p t (inl b) =
      get_or-write_at_above (write_at buf h head) 0 tail p 0 (omega arith)
      ∙ get_or-write_at_below buf h head p 0 b
  two_copies_outside p t (inr a) =
      get_or-write_at_above (write_at buf h head) 0 tail p 0 (omega arith)
      ∙ get_or-write_at_above buf h head p 0 a

  two_copies_head :
      (k : ℕ)
      → length tail ≤ h + k
      → h + length head ≤ length buf
      → k < length head
      → get_or two_copies (h + k) 0 ≡ get_or head k 0
  two_copies_head k t s lt =
      get_or-write_at_above (write_at buf h head) 0 tail (h + k) 0 (omega arith)
      ∙ get_or-write_at_in buf h head k 0 s lt

  two_copies_tail :
      (k : ℕ) → length tail ≤ length buf → k < length tail → get_or two_copies k 0 ≡ get_or tail k 0
  two_copies_tail k s lt =
      ap_at (λ j. get_or two_copies j 0) k (0 + k) (omega arith)
      ∙ get_or-write_at_in (write_at buf h head) 0 tail k 0
          (omega (arith, length-write_at buf h head)) lt

-- What a put of `m` bytes does to the storage, for a ring with `l` bytes held.
module _ (buf src : List ℕ) (size f r l m : ℕ) (pos : 0 < size) (storage : size ≤ length buf)
    (room : l + m ≤ size) (given : m ≤ length src) (coherent : (f + l) % size ≡ r % size) where
  abbrev head_len : ℕ
  head_len = min m (size - r % size)

  abbrev head_part : List ℕ
  head_part = take head_len src

  abbrev tail_part : List ℕ
  tail_part = take (m - head_len) (drop head_len src)

  abbrev stored : List ℕ
  stored = two_copies buf (r % size) head_part tail_part

  length-head_part : length head_part ≡ head_len
  length-head_part = omega (arith, length-take head_len src)

  length-tail_part : length tail_part ≡ m - head_len
  length-tail_part =
      omega (arith, length-take (m - head_len) (drop head_len src), length-drop head_len src)

  -- A byte held before keeps its place and its value.
  stored_old : (k : ℕ) → k < l → get_or stored ((f + k) % size) 0 ≡ get_or buf ((f + k) % size) 0
  stored_old k lt =
      two_copies_outside buf (r % size) head_part tail_part ((f + k) % size)
        (omega (arith, length-tail_part, place, mod-lt r pos, mod-lt (f + k) pos))
        (grind (arith, length-head_part, place, mod-lt r pos, mod-lt (f + k) pos))
    where
      end : (f + k + (l - k)) % size ≡ r % size
      end = ap_at (λ x. x % size) (f + k + (l - k)) (f + l) (omega arith) ∙ coherent

      place : ((f + k) % size + (l - k) ≡ r % size) ⊎ ((f + k) % size + (l - k) ≡ r % size + size)
      place = elim (index-split size (f + k) (l - k) pos (omega arith)) [
        | inl (e, b) ↦ inl (omega (arith, end))
        | inr (e, b) ↦ inr (omega (arith, end))
      ]

  -- The bytes put stand behind them, in order.
  stored_new : (k : ℕ) → k < m → get_or stored ((f + (l + k)) % size) 0 ≡ get_or src k 0
  stored_new k lt = elim (index-split size r k pos (omega arith)) [
    | inl (e, b) ↦
        ap (λ p. get_or stored p 0) (index-shift size f r l k coherent ∙ e)
        ∙ two_copies_head buf (r % size) head_part tail_part k (omega (arith, length-tail_part))
            (omega (arith, length-head_part, mod-lt r pos)) (omega (arith, length-head_part))
        ∙ get_or-take head_len k src 0 (omega arith)
    | inr (e, b) ↦
        ap (λ p. get_or stored p 0) (index-shift size f r l k coherent)
        ∙ ap_at (λ p. get_or stored p 0) ((r + k) % size) (k - head_len)
            (omega (arith, mod-lt r pos))
        ∙ two_copies_tail buf (r % size) head_part tail_part (k - head_len)
            (omega (arith, length-tail_part)) (omega (arith, length-tail_part, mod-lt r pos))
        ∙ get_or-take (m - head_len) (k - head_len) (drop head_len src) 0
            (omega (arith, mod-lt r pos))
        ∙ get_or-drop head_len (k - head_len) src 0
        ∙ ap_at (λ p. get_or src p 0) (head_len + (k - head_len)) k (omega (arith, mod-lt r pos))
  ]

  stored_bytes :
      tabulate (l + m) (λ k. get_or stored ((f + k) % size) 0)
      ≡ tabulate l (λ k. get_or buf ((f + k) % size) 0) ++ take m src
  stored_bytes =
      tabulate-add l m _
      ∙ ap₂ ◌++◌ (tabulate-ext l _ _ stored_old)
          (tabulate-ext m _ _ stored_new ∙ sym (take-eq-tabulate m src 0 given))

module _ {r : RingBuf} (src : List ℕ) (n : ℕ) (v : IsValid r) (given : n ≤ length src)
    (may : MayAdvance r.size r.rear (put_len r n)) where
  put_len-room : len r + put_len r n ≤ r.size
  put_len-room = omega (arith, v)

  len-put : len (put r src n).0 ≡ len r + put_len r n
  unfolding put
  len-put = omega (arith, v)

  rear-put : (r.front + (len r + put_len r n)) % r.size ≡ ((r.rear + put_len r n) % u32) % r.size
  rear-put =
      index-shift r.size r.front r.rear (len r) (put_len r n) v.coherent
      ∙ ap_at (λ x. x % r.size) (r.rear + put_len r n) (r.rear + put_len r n + 0) (omega arith)
      ∙ sym (advance-index r.size r.rear (put_len r n) 0 may)
      ∙ ap_at (λ x. x % r.size) ((r.rear + put_len r n) % u32 + 0) ((r.rear + put_len r n) % u32)
          (omega arith)

  pub put-IsValid : IsValid (put r src n).0
  unfolding put
  put-IsValid = record {
    pos = v.pos;
    small = v.small;
    storage = omega (
      arith,
      length-two_copies r.buf (r.rear % r.size) (take (put_head r n) src)
          (take (put_len r n - put_head r n) (drop (put_head r n) src)),
      v,
    );
    front_word = v.front_word;
    rear_word = omega arith;
    fits = omega (arith, v);
    coherent = ap (λ l. (r.front + l) % r.size) len-put ∙ rear-put;
  }

  -- `ring_buf_put` keeps a valid ring valid, takes as many bytes as are asked for and fit, returns
  -- that number, and appends exactly those bytes in order, if the source holds `n` bytes and the
  -- rear counter does not pass 2^32 (or the size divides 2^32).
  pub put_lem :
      IsValid (put r src n).0
      × ((put r src n).1 ≡ min n (remain r))
      × (contents (put r src n).0 ≡ contents r ++ take (min n (remain r)) src)
  unfolding put
  put_lem = (
    put-IsValid,
    taken,
    ap (λ l. tabulate l (λ k. get_or (put r src n).0.buf ((r.front + k) % r.size) 0)) len-put
        ∙ stored_bytes r.buf src r.size r.front r.rear (len r) (put_len r n) v.pos v.storage
            put_len-room (omega arith) v.coherent
        ∙ ap (λ k. contents r ++ take k src) taken,
  )
    where
      taken : put_len r n ≡ min n (remain r)
      taken = omega (arith, v)
