-- ===== src/Audio/Callback.antt =====
-- `sdlAudioCallBackFunc` of erender/eAVRender.cpp: the sound card asks for `max_len` bytes; an empty
-- ring is polled three more times, 5 ms apart. `arrivals` are the writes that the decoder thread makes
-- during the pauses, one list for each pause. `SDL_MixAudio` is the parameter `mix`.
use vncc.Base.{
  ℕ, zero, suc, ◌+◌, ◌≤◌, ◌<◌, ◌≡◌, List, [], ◌∷◌, ◌++◌, ltb, if◌then◌else◌, Option, none, some,
  length, take, concat,
}
use vncc.Ring.{RingBuf, len}
use vncc.Ring.Inv.{contents}
use vncc.Audio.{write_audio_ring_buf, read_audio_ring_buf}
use vncc.Audio.Fifo.{Below}

abbrev pub silence : ℕ → List ℕ
silence zero = []
silence (suc n) = 0 ∷ silence n

abbrev on_ring {ℓ} : {A : Type ℓ} → (RingBuf → Option A) → Option RingBuf → Option A
on_ring k none = none
on_ring k (some r) = k r

-- The read, and the polls that are left: the bytes read and the ring.
unfoldable pub poll : (ℕ → List ℕ) → RingBuf → ℕ → List (List ℕ) → Option (List ℕ × RingBuf)
poll alloc r max_len [] =
    let (out, r', actrue_len) = read_audio_ring_buf r max_len in some (out, r')
poll alloc r max_len (src ∷ arrivals) =
    let (out, r', actrue_len) = read_audio_ring_buf r max_len in
    let again =
      on_ring (λ s. poll alloc s max_len arrivals)
        (write_audio_ring_buf alloc r' src (length src)) in
    if ltb 0 actrue_len then some (out, r') else again

-- What goes to the sound card, and the ring.
unfoldable pub sdl_audio_call_back_func :
    (ℕ → List ℕ)
    → (List ℕ → List ℕ → List ℕ)
    → RingBuf
    → ℕ
    → List ℕ
    → List ℕ
    → List ℕ
    → Option (List ℕ × RingBuf)
sdl_audio_call_back_func alloc mix r n first second third =
    elim (poll alloc r n (first ∷ second ∷ third ∷ [])) [
      | none ↦ none
      | some (out, r') ↦ some ((if ltb 0 (length out) then mix (silence n) out else silence n), r')
    ]

record Polled (w : ℕ) (r : RingBuf) (n : ℕ) (arrivals : List (List ℕ)) (out : List ℕ) (r' : RingBuf)
    : Type 0 where
  polls : ℕ
  below : Below (w + length (concat arrivals)) r'
  conserved : contents r ++ concat (take polls arrivals) ≡ out ++ contents r'
  bounded : length out ≤ n
  silent : 0 < n → length out ≡ 0 → length (contents r ++ concat arrivals) ≡ 0
  prompt : 0 < n → 0 < len r → polls ≡ 0

module _ (w : ℕ) (r : RingBuf) (n : ℕ) (b : Below w r) where
  abbrev now : List ℕ × RingBuf × ℕ
  now = read_audio_ring_buf r n
