-- ===== src/Audio/Session.antt =====
-- Any interleaving of the decoder thread's writes and the sound card's reads, against a queue of
-- bytes with no bound.
use vncc.Base.{
  ℕ, zero, suc, ◌+◌, ◌*◌, ◌^◌, ◌<◌, ◌≡◌, ◌∙◌, sym, ap, ap₂, refl, min, List, [], ◌∷◌, ◌++◌, arith,
  Option, none, some, length, take, drop, take_all,
}
use vncc.Ring.{RingBuf, len}
use vncc.Ring.Inv.{contents, length-contents}
use vncc.Audio.{write_audio_ring_buf, read_audio_ring_buf}
use vncc.Audio.Fifo.{Below, Read, write_audio_ring_buf-Wrote, read_audio_ring_buf-Read}

pub data AudioOp : Type 0 where
  writes : List ℕ → AudioOp
  reads : ℕ → AudioOp

abbrev pub after_write :
    (RingBuf → Option (List (List ℕ))) → Option RingBuf → Option (List (List ℕ))
after_write k none = none
after_write k (some r) = k r

abbrev pub push_read : List ℕ → Option (List (List ℕ)) → Option (List (List ℕ))
push_read xs none = none
push_read xs (some rest) = some (xs ∷ rest)

-- What each read returns.
unfoldable pub run : (ℕ → List ℕ) → RingBuf → List AudioOp → Option (List (List ℕ))
run alloc r [] = some []
run alloc r (writes src ∷ ops) =
    after_write (λ r'. run alloc r' ops) (write_audio_ring_buf alloc r src (length src))
run alloc r (reads n ∷ ops) =
    let (out, r', k) = read_audio_ring_buf r n in push_read out (run alloc r' ops)

-- The specification: a queue of bytes.
unfoldable pub fifo : List ℕ → List AudioOp → List (List ℕ)
fifo q [] = []
fifo q (writes src ∷ ops) = fifo (q ++ src) ops
fifo q (reads n ∷ ops) = take n q ∷ fifo (drop n q) ops

-- The bytes that a history writes.
abbrev pub written : List AudioOp → ℕ
written [] = 0
written (writes src ∷ ops) = length src + written ops
written (reads n ∷ ops) = written ops

take-min : (n : ℕ) (xs : List ℕ) → take (min n (length xs)) xs ≡ take n xs
take-min zero xs = ap (λ k. take k xs) min-zero
  where
    min-zero : min 0 (length xs) ≡ 0
    min-zero = omega arith
take-min (suc n) [] = ap (λ k. take {A = ℕ} k []) min-nil
  where
    min-nil : min (suc n) 0 ≡ 0
    min-nil = omega arith
take-min (suc n) (x ∷ xs) = ap (λ k. take k (x ∷ xs)) min-cons ∙ ap (◌∷◌ x) (take-min n xs)
  where
    min-cons : min (suc n) (suc (length xs)) ≡ suc (min n (length xs))
    min-cons = omega arith

drop-min : (n : ℕ) (xs : List ℕ) → drop (min n (length xs)) xs ≡ drop n xs
drop-min zero xs = ap (λ k. drop k xs) min-zero
  where
    min-zero : min 0 (length xs) ≡ 0
    min-zero = omega arith
drop-min (suc n) [] = ap (λ k. drop {A = ℕ} k []) min-nil
  where
    min-nil : min (suc n) 0 ≡ 0
    min-nil = omega arith
drop-min (suc n) (x ∷ xs) = ap (λ k. drop k (x ∷ xs)) min-cons ∙ drop-min n xs
  where
    min-cons : min (suc n) (suc (length xs)) ≡ suc (min n (length xs))
    min-cons = omega arith

module _ (alloc : ℕ → List ℕ) (alloc-length : (k : ℕ) → length (alloc k) ≡ k) where
  -- From a ring into which at most `w` bytes have gone, any history of writes and reads returns the
  -- bytes that a queue without a bound returns, and no step faults, as long as three times all the
  -- bytes written stay below 2^31.
  pub run-eq-fifo :
      (ops : List AudioOp) (w : ℕ) (r : RingBuf)
      → Below w r
      → 3 * (w + written ops) < 2 ^ 31
      → run alloc r ops ≡ some (fifo (contents r) ops)
  unfolding run fifo
  run-eq-fifo [] w r b h = refl
  run-eq-fifo (writes src ∷ ops) w r b h =
      let (r', e, wrote) =
        write_audio_ring_buf-Wrote alloc alloc-length w r src (length src) b (omega arith)
          (omega arith) in
      ap (after_write (λ s. run alloc s ops)) e
      ∙ run-eq-fifo ops (w + length src) r' wrote.below (omega arith)
      ∙ ap (λ q. some (fifo q ops))
          (wrote.bytes ∙ ap (◌++◌ (contents r)) (take_all (length src) src (omega arith)))
  run-eq-fifo (reads n ∷ ops) w r b h =
      ap₂ push_read (read.taken ∙ count (λ k. take k (contents r)) ∙ take-min n (contents r)) (
        run-eq-fifo ops w (read_audio_ring_buf r n).1 read.below h
        ∙ ap (λ q. some (fifo q ops))
            (read.left ∙ count (λ k. drop k (contents r)) ∙ drop-min n (contents r)))
    where
      read : Read w r n (read_audio_ring_buf r n)
      read = read_audio_ring_buf-Read w r n b

      count : (f : ℕ → List ℕ) → f (min n (len r)) ≡ f (min n (length (contents r)))
      count f = ap (λ l. f (min n l)) (sym (length-contents r))
