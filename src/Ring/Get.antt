-- ===== src/Ring/Get.antt =====
-- `ring_buf_get` of erender/eAVRender.cpp, seen through the bytes that a ring holds.
use vncc.Base.{
  u32, ℕ, ◌+◌, ◌-◌, ◌%◌, ◌≤◌, ◌<◌, ◌≡◌, inl, inr, ◌∙◌, sym, ap, ap₂, ap_at, refl, min, List, ◌++◌,
  arith, length, get_or, take, drop, tabulate, tabulate-add, tabulate-ext, take-drop-eq-tabulate,
  take-eq-tabulate, length-tabulate, take-append, drop-append, mod-lt,
}
use vncc.Ring.{RingBuf, len, get, get_len}
use vncc.Ring.Inv.{IsValid, contents, MayAdvance, advance-index}
use vncc.Ring.Put.{index-split}

-- A read of `n` bytes from a counter on, in the two blocks that the code copies.
module _ (buf : List ℕ) (size f n : ℕ) (pos : 0 < size) (storage : size ≤ length buf)
    (h : n ≤ size) where
  abbrev first : ℕ
  first = min n (size - f % size)

  first_block :
      take first (drop (f % size) buf) ≡ tabulate first (λ k. get_or buf ((f + k) % size) 0)
  first_block =
      take-drop-eq-tabulate (f % size) first buf 0 (omega (arith, mod-lt f pos))
      ∙ tabulate-ext first _ _ (λ k lt. ap (λ p. get_or buf p 0) (place k lt))
    where
      place : (k : ℕ) → k < first → f % size + k ≡ (f + k) % size
      place k lt = elim (index-split size f k pos (omega arith)) [
        | inl (e, b) ↦ sym e
        | inr (e, b) ↦ absurd (omega (arith, mod-lt f pos))
      ]

  second_block :
      take (n - first) buf ≡ tabulate (n - first) (λ k. get_or buf ((f + (first + k)) % size) 0)
  second_block =
      take-eq-tabulate (n - first) buf 0 (omega (arith, mod-lt f pos))
      ∙ tabulate-ext (n - first) _ _ (λ k lt. ap (λ p. get_or buf p 0) (place k lt))
    where
      place : (k : ℕ) → k < n - first → k ≡ (f + (first + k)) % size
      place k lt = elim (index-split size f (first + k) pos (omega (arith, mod-lt f pos))) [
        | inl (e, b) ↦ absurd (omega (arith, mod-lt f pos))
        | inr (e, b) ↦ omega (arith, mod-lt f pos)
      ]

  read_bytes :
      take first (drop (f % size) buf) ++ take (n - first) buf
      ≡ tabulate n (λ k. get_or buf ((f + k) % size) 0)
  read_bytes =
      ap₂ ◌++◌ first_block second_block
      ∙ sym (tabulate-add first (n - first) _)
      ∙ ap_at (λ l. tabulate l (λ k. get_or buf ((f + k) % size) 0)) (first + (n - first)) n
          (omega arith)

module _ {r : RingBuf} (n : ℕ) (v : IsValid r) (may : MayAdvance r.size r.front (get_len r n)) where
  len-get : len (get r n).1 ≡ len r - get_len r n
  unfolding get
  len-get = omega (arith, v)

  -- Where the counter after the read points.
  front-get :
      (k : ℕ)
      → ((r.front + get_len r n) % u32 + k) % r.size ≡ (r.front + (get_len r n + k)) % r.size
  front-get k =
      advance-index r.size r.front (get_len r n) k may
      ∙ ap_at (λ x. x % r.size) (r.front + get_len r n + k) (r.front + (get_len r n + k))
          (omega arith)

  pub get-IsValid : IsValid (get r n).1
  unfolding get
  get-IsValid = record {
    pos = v.pos;
    small = v.small;
    storage = v.storage;
    front_word = omega arith;
    rear_word = v.rear_word;
    fits = omega (arith, v, len-get);
    coherent =
        front-get _
        ∙ ap_at (λ x. x % r.size)
            (r.front + (get_len r n + len (record r { front = (r.front + get_len r n) % u32 })))
            (r.front + len r) (omega (arith, len-get))
        ∙ v.coherent;
  }

  -- What was held is what is read followed by what is left.
  get_split : contents r ≡ (get r n).0 ++ contents (get r n).1
  unfolding get
  get_split =
      ap_at (λ l. tabulate l (λ k. get_or r.buf ((r.front + k) % r.size) 0)) (len r)
        (get_len r n + (len r - get_len r n)) (omega arith)
      ∙ tabulate-add (get_len r n) (len r - get_len r n) _
      ∙ ap₂ ◌++◌
          (sym (read_bytes r.buf r.size r.front (get_len r n) v.pos v.storage (omega (arith, v))))
          (tabulate-ext (len r - get_len r n) _ _
              (λ k lt. ap (λ p. get_or r.buf p 0) (sym (front-get k)))
            ∙ ap
                (λ l.
                  tabulate l (λ k. get_or r.buf (((r.front + get_len r n) % u32 + k) % r.size) 0))
                (sym len-get))

  length-get : length (get r n).0 ≡ get_len r n
  unfolding get
  length-get =
      ap length (read_bytes r.buf r.size r.front (get_len r n) v.pos v.storage (omega (arith, v)))
      ∙ length-tabulate (get_len r n) _

  -- `ring_buf_get` keeps a valid ring valid, returns as many bytes as are asked for and held, the
  -- oldest ones in order, and leaves the others, if the front counter does not pass 2^32 (or the
  -- size divides 2^32).
  pub get_lem :
      IsValid (get r n).1
      × ((get r n).2 ≡ min n (len r))
      × ((get r n).0 ≡ take (min n (len r)) (contents r))
      × (contents (get r n).1 ≡ drop (min n (len r)) (contents r))
  get_lem = (
    get-IsValid,
    count,
    sym (ap₂ take (sym length-get) get_split ∙ take-append (get r n).0 (contents (get r n).1)),
    sym (ap₂ drop (sym length-get) get_split ∙ drop-append (get r n).0 (contents (get r n).1)),
  )
    where
      count : (get r n).2 ≡ min n (len r)
      count = unfold get in refl
