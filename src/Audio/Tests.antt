-- ===== src/Audio/Tests.antt =====
-- The audio path over a ring of four bytes that grows, and the start-up cache.
use vncc.Base.{
  ℕ, ◌≡◌, refl, List, [], ◌∷◌, ◌++◌, concat, arith, some, length, tabulate, length-tabulate,
}
use vncc.Ring.{RingBuf}
use vncc.Audio.{write_audio_ring_buf, read_audio_ring_buf}
use vncc.Audio.Fifo.{Below, Wrote, Read, write_audio_ring_buf-Wrote, read_audio_ring_buf-Read}
use vncc.Audio.Session.{AudioOp, writes, reads, run, fifo, run-eq-fifo}
use vncc.Audio.Prime.{empty_cache, feed, feed-drops}

abbrev alloc : ℕ → List ℕ
alloc n = tabulate n (λ k. 0)

alloc-length : (n : ℕ) → length (alloc n) ≡ n
alloc-length n = length-tabulate n (λ k. 0)

abbrev fresh_ring : RingBuf
fresh_ring = record { buf = 0 ∷ 0 ∷ 0 ∷ 0 ∷ []; size = 4; front = 0; rear = 0 }

fresh_ring-Below : Below 0 fresh_ring
fresh_ring-Below = record {
  valid = omega arith;
  ordered = omega arith;
  count = omega arith;
  capped = omega arith;
}

abbrev five_bytes : List ℕ
five_bytes = 1 ∷ 2 ∷ 3 ∷ 4 ∷ 5 ∷ []

write_audio_ring_buf-Wrote_example :
    (r' : RingBuf) × (write_audio_ring_buf alloc fresh_ring five_bytes 5 ≡ some r')
    × Wrote 0 fresh_ring r' five_bytes 5
write_audio_ring_buf-Wrote_example =
    write_audio_ring_buf-Wrote alloc alloc-length 0 fresh_ring five_bytes 5 fresh_ring-Below
      (omega arith) (omega arith)

abbrev two_held : RingBuf
two_held = record { buf = 6 ∷ 7 ∷ 0 ∷ 0 ∷ []; size = 4; front = 0; rear = 2 }

two_held-Below : Below 2 two_held
two_held-Below = record {
  valid = omega arith;
  ordered = omega arith;
  count = omega arith;
  capped = omega arith;
}

read_audio_ring_buf_run : Read 2 two_held 3 (read_audio_ring_buf two_held 3)
read_audio_ring_buf_run = read_audio_ring_buf-Read 2 two_held 3 two_held-Below

abbrev audio_history : List AudioOp
audio_history = writes five_bytes ∷ reads 2 ∷ writes (6 ∷ []) ∷ reads 9 ∷ []

run-eq-fifo_example :
    run alloc fresh_ring audio_history ≡ some ((1 ∷ 2 ∷ []) ∷ (3 ∷ 4 ∷ 5 ∷ 6 ∷ []) ∷ [])
unfolding fifo
run-eq-fifo_example =
    run-eq-fifo alloc alloc-length audio_history 0 fresh_ring fresh_ring-Below (omega arith)

abbrev mix_add : List ℕ → List ℕ → List ℕ
mix_add stream out = out

abbrev forty_packets : List (List ℕ)
forty_packets = tabulate 40 (λ k. k ∷ [])

feed-drops_run :
    (feed empty_cache forty_packets ≡ [])
    × (feed empty_cache (forty_packets ++ ((77 ∷ []) ∷ (88 ∷ []) ∷ []))
        ≡ concat forty_packets ++ (88 ∷ []))
feed-drops_run = feed-drops forty_packets (77 ∷ []) ((88 ∷ []) ∷ []) refl (omega arith)
