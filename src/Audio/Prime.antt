-- ===== src/Audio/Prime.antt =====
-- The start-up cache of `audio_decode` in erender/eAVRender.cpp: the first 40 packets are kept back in
-- `cache_buf`; what follows is handed to `writeAudioRingBuf`.
use vncc.Base.{
  ℕ, ◌+◌, ◌≤◌, ◌<◌, ◌≡◌, ◌∙◌, sym, ap, subst, refl, List, [], ◌∷◌, ◌++◌, arith, ltb, if◌then◌else◌,
  length, concat, append-nil, append_assoc,
}

-- `n_cache_times`, and the first `cache_size` bytes of `cache_buf`.
pub record Cache : Type 0 where
  pub n_cache_times : ℕ
  pub held : List ℕ

abbrev pub cache_samples : ℕ
cache_samples = 40

abbrev pub empty_cache : Cache
empty_cache = record { n_cache_times = 0; held = [] }

-- One decoded packet: the new cache, and what is written to the ring.
unfoldable pub audio_decode_step : Cache → List ℕ → Cache × List ℕ
audio_decode_step c packet =
    if ltb c.n_cache_times cache_samples
    then (record c { n_cache_times = c.n_cache_times + 1; held = c.held ++ packet }, [])
    else (if ltb 0 (length c.held) then (record c { held = [] }, c.held) else (c, packet))

-- All that a run of packets writes to the ring.
unfoldable pub feed : Cache → List (List ℕ) → List ℕ
feed c [] = []
feed c (p ∷ ps) = let (c', out) = audio_decode_step c p in out ++ feed c' ps

feed-steady :
    (c : Cache) (ps : List (List ℕ))
    → cache_samples ≤ c.n_cache_times
    → c.held ≡ []
    → feed c ps ≡ concat ps
unfolding feed
feed-steady c [] h e = refl
feed-steady c (p ∷ ps) h e = ap (λ o. o.1 ++ feed o.0 ps) step ∙ ap (◌++◌ p) (feed-steady c ps h e)
  where
    step : audio_decode_step c p ≡ (c, p)
    step = unfold audio_decode_step in ground (arith, ap length e)

-- While fewer than 40 packets have come, nothing is written.
feed-filling :
    (c : Cache) (ps : List (List ℕ)) → c.n_cache_times + length ps ≤ cache_samples → feed c ps ≡ []
unfolding feed audio_decode_step
feed-filling c [] h = refl
feed-filling c (p ∷ ps) h =
    ap (λ o. o.1 ++ feed o.0 ps) step
    ∙ feed-filling (record c { n_cache_times = c.n_cache_times + 1; held = c.held ++ p }) ps
        (omega arith)
  where
    step :
        audio_decode_step c p
        ≡ (record c { n_cache_times = c.n_cache_times + 1; held = c.held ++ p }, [])
    step = ground arith

feed-drops_from :
    (c : Cache) (qs : List (List ℕ)) (p : List ℕ) (rest : List (List ℕ))
    → c.n_cache_times + length qs ≡ cache_samples
    → 0 < length (c.held ++ concat qs)
    → feed c (qs ++ (p ∷ rest)) ≡ (c.held ++ concat qs) ++ concat rest
unfolding feed
feed-drops_from c [] p rest h e =
    ap (λ o. o.1 ++ feed o.0 rest) step
    ∙ ap (◌++◌ c.held) (feed-steady (record c { held = [] }) rest (omega arith) refl)
    ∙ ap (λ xs. xs ++ concat rest) (sym (append-nil c.held))
  where
    nonempty : 0 < length c.held
    nonempty = subst (λ xs. 0 < length xs) (append-nil c.held) e

    step : audio_decode_step c p ≡ (record c { held = [] }, c.held)
    step = unfold audio_decode_step in ground (arith, nonempty)
feed-drops_from c (q ∷ qs) p rest h e =
    ap (λ o. o.1 ++ feed o.0 (qs ++ (p ∷ rest))) step
    ∙ feed-drops_from (record c { n_cache_times = c.n_cache_times + 1; held = c.held ++ q }) qs p
        rest (omega arith) (subst (λ xs. 0 < length xs) (sym (append_assoc c.held q (concat qs))) e)
    ∙ ap (λ xs. xs ++ concat rest) (append_assoc c.held q (concat qs))
  where
    step :
        audio_decode_step c q
        ≡ (record c { n_cache_times = c.n_cache_times + 1; held = c.held ++ q }, [])
    step = unfold audio_decode_step in ground arith

-- The first 40 packets are held back, and nothing is written while no other has come. The next packet
-- makes the decoder write them, in order, if there is a byte in them; that packet's own bytes are not
-- written, and every later packet is, in order.
pub feed-drops :
    (qs : List (List ℕ)) (p : List ℕ) (rest : List (List ℕ))
    → length qs ≡ cache_samples
    → 0 < length (concat qs)
    → (feed empty_cache qs ≡ []) × (feed empty_cache (qs ++ (p ∷ rest)) ≡ concat qs ++ concat rest)
feed-drops qs p rest h e = (
  feed-filling empty_cache qs (omega arith),
  feed-drops_from empty_cache qs p rest (omega arith) e,
)
