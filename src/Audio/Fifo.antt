-- ===== src/Audio/Fifo.antt =====
-- A write loses nothing, growing the ring if it must, and a read takes the oldest bytes.
use vncc.Base.{
  int_lt, int_lt-eq-ltb, ℕ, ◌+◌, ◌*◌, ◌^◌, ◌≤◌, ◌<◌, ◌≡◌, inl, inr, ◌∙◌, ap, ap_at, refl, min, List,
  ◌++◌, arith, some, ltb, ltb→lt, Bool-cases, true, false, length, take, drop, if◌then◌else◌,
}
use vncc.Ring.{RingBuf, len, remain, put, get, realloc, created}
use vncc.Ring.Inv.{IsValid, contents, remain-add-len}
use vncc.Ring.Put.{put_lem}
use vncc.Ring.Get.{get_lem}
use vncc.Ring.Grow.{Moved, realloc_moves}
use vncc.Audio.{write_audio_ring_buf, read_audio_ring_buf, new_size}

-- A valid ring of a size that an `int` holds, whose counters have not passed 2^32: at most `w` bytes
-- have gone in.
pub record Below (w : ℕ) (r : RingBuf) : Type 0 where
  pub valid : IsValid r
  pub ordered : r.front ≤ r.rear
  pub count : r.rear ≤ w
  pub capped : r.size < 2 ^ 31

-- What a write of `n` bytes must leave.
pub record Wrote (w : ℕ) (r r' : RingBuf) (src : List ℕ) (n : ℕ) : Type 0 where
  pub below : Below (w + n) r'
  pub bytes : contents r' ≡ contents r ++ take n src

module _ (w : ℕ) (r : RingBuf) (src : List ℕ) (n : ℕ) (b : Below w r) (given : n ≤ length src)
    (small : w + n < 2 ^ 32) (fits : n ≤ remain r) where
  rear-put : (r.front ≤ (put r src n).0.rear) × ((put r src n).0.rear ≤ w + n)
  unfolding put
  rear-put = omega (arith, b, b.valid)

  front-put : (put r src n).0.front ≡ r.front
  unfolding put
  front-put = refl

  same_size : (put r src n).0.size ≡ r.size
  unfolding put
  same_size = refl

  put-Wrote : Wrote w r (put r src n).0 src n
  put-Wrote = record {
    below = record {
      valid = result.0;
      ordered = omega (arith, rear-put, front-put);
      count = rear-put.1;
      capped = omega (arith, same_size, b);
    };
    bytes = result.2 ∙ ap_at (λ k. contents r ++ take k src) (min n (remain r)) n (omega arith);
  }
    where
      result :
          IsValid (put r src n).0
          × ((put r src n).1 ≡ min n (remain r))
          × (contents (put r src n).0 ≡ contents r ++ take (min n (remain r)) src)
      result = put_lem src n b.valid given (inl (omega (arith, b)))

-- What the counters of a grown ring give.
grown-Below :
    (w n : ℕ) (old old' new' : RingBuf)
    → len old ≤ w
    → w < 2 ^ 32
    → n < 2 ^ 31
    → Moved old old' new' n
    → Below w new'
grown-Below w n old old' new' h small cap m = record {
  valid = m.valid;
  ordered = omega (arith, m);
  count = omega (arith, m);
  capped = omega (arith, m);
}

module _ (alloc : ℕ → List ℕ) (alloc-length : (k : ℕ) → length (alloc k) ≡ k) where
  -- `writeAudioRingBuf` of `n` bytes always ends with a valid ring that holds what it held and then
  -- exactly the bytes written, whether or not the ring had to grow; `w` bounds the bytes written
  -- before, and `3 * (w + n)` must stay below 2^31 for the new size to fit its type.
  pub write_audio_ring_buf-Wrote :
      (w : ℕ) (r : RingBuf) (src : List ℕ) (n : ℕ)
      → Below w r
      → n ≤ length src
      → 3 * (w + n) < 2 ^ 31
      → (r' : RingBuf) × (write_audio_ring_buf alloc r src n ≡ some r') × Wrote w r r' src n
  write_audio_ring_buf-Wrote w r src n b given small = elim (Bool-cases (ltb (remain r) n)) [
    | inl full ↦
        let (old', new', e, m) =
          realloc_moves (alloc (new_size r n)) (new_size r n) b.valid
            (omega (arith, ltb→lt _ _ full)) (omega (arith, ltb→lt _ _ full))
            (omega (arith, alloc-length (new_size r n))) (inl (omega (arith, b, b.valid))) in
        let wrote =
          put-Wrote w new' src n
            (grown-Below w (new_size r n) r old' new' (omega (arith, b, b.valid)) (omega arith)
              (omega (arith, ltb→lt _ _ full, b, b.valid)) m)
            given (omega arith)
            (omega (arith, remain-add-len m.valid, m, ltb→lt _ _ full, b, b.valid)) in
        (
          (put new' src n).0,
          grows full old' new' e,
          record { below = wrote.below; bytes = wrote.bytes ∙ ap (λ xs. xs ++ take n src) m.bytes },
        )
    | inr stays ↦
        ((put r src n).0, keeps stays, put-Wrote w r src n b given (omega arith) (room stays))
  ]
    where
      signed : int_lt (remain r) n ≡ ltb (remain r) n
      signed = int_lt-eq-ltb (remain r) n (omega (arith, b, b.valid)) (omega arith)

      room : ltb (remain r) n ≡ false → n ≤ remain r
      room e = ground arith

      keeps : ltb (remain r) n ≡ false → write_audio_ring_buf alloc r src n ≡ some (put r src n).0
      keeps e = unfold write_audio_ring_buf in rw (signed, e)

      grows :
          ltb (remain r) n ≡ true
          → (old' new' : RingBuf)
          → realloc r (some (alloc (new_size r n))) (new_size r n) ≡ some (created 0 old' new')
          → write_audio_ring_buf alloc r src n ≡ some (put new' src n).0
      grows t old' new' e = unfold write_audio_ring_buf in rw (signed, t, e)

-- What a read of at most `n` bytes returns and leaves.
pub record Read (w : ℕ) (r : RingBuf) (n : ℕ) (out : List ℕ × RingBuf × ℕ) : Type 0 where
  pub below : Below w out.1
  pub count : out.2 ≡ min n (len r)
  pub taken : out.0 ≡ take (min n (len r)) (contents r)
  pub left : contents out.1 ≡ drop (min n (len r)) (contents r)

-- `readAudioRingBuf` returns the oldest bytes, as many as are asked for and held, and leaves the
-- others in the ring.
pub read_audio_ring_buf-Read :
    (w : ℕ) (r : RingBuf) (n : ℕ) → Below w r → Read w r n (read_audio_ring_buf r n)
unfolding read_audio_ring_buf
read_audio_ring_buf-Read w r n b = rw asked record {
  below = record {
    valid = result.0;
    ordered = ordered_after;
    count = omega (arith, rear_after, b);
    capped = omega (arith, size_after, b);
  };
  count = result.1 ∙ same;
  taken = result.2 ∙ ap (λ k. take k (contents r)) same;
  left = result.3 ∙ ap (λ k. drop k (contents r)) same;
}
  where
    asked : (if ltb n (len r) then n else len r) ≡ min n (len r)
    asked = ground arith

    same : min (min n (len r)) (len r) ≡ min n (len r)
    same = omega arith

    result :
        IsValid (get r (min n (len r))).1
        × ((get r (min n (len r))).2 ≡ min (min n (len r)) (len r))
        × ((get r (min n (len r))).0 ≡ take (min (min n (len r)) (len r)) (contents r))
        × (contents (get r (min n (len r))).1 ≡ drop (min (min n (len r)) (len r)) (contents r))
    result = get_lem (min n (len r)) b.valid (inl (omega (arith, b, b.valid)))

    rear_after : (get r (min n (len r))).1.rear ≡ r.rear
    rear_after = unfold get in refl

    size_after : (get r (min n (len r))).1.size ≡ r.size
    size_after = unfold get in refl

    ordered_after : (get r (min n (len r))).1.front ≤ (get r (min n (len r))).1.rear
    ordered_after = unfold get in omega (arith, b, b.valid)
