-- ===== src/Audio.antt =====
-- The audio path of erender/eAVRender.cpp: `writeAudioRingBuf`, `readAudioRingBuf`, `audio_buf_len`,
-- the start-up cache of `audio_decode`, and the callback that feeds the sound card. The decoder and
-- the resampler are outside: a decoded packet is the list of its bytes. `new unsigned char[n]` is the
-- parameter `alloc`. The lock `_audio_cs` makes each of these calls one step.
pub mod Fifo
pub mod Session
pub mod Prime
pub mod Callback
mod Tests
use vncc.Base.{
  int_lt, u32, ℕ, zero, suc, ◌+◌, ◌%◌, min, List, [], ◌∷◌, ◌++◌, Option, none, some, ltb,
  if◌then◌else◌, length, Bool, true, false,
}
use vncc.Ring.{RingBuf, len, remain, create, put, get, realloc, ReallocResult, too_small, created}

abbrev pub audio_buf_size : ℕ
audio_buf_size = 384000

-- The ring after `_audio_ring_buf` was replaced; the result of `ring_buf_realloc` is not looked at,
-- so a refused call leaves an uninitialised ring (`none`).
abbrev pub replaced : Option ReallocResult → Option RingBuf
replaced none = none
replaced (some too_small) = none
replaced (some (created k old new)) = some new

abbrev pub put_on : List ℕ → ℕ → Option RingBuf → Option RingBuf
put_on src n none = none
put_on src n (some r) = some (put r src n).0

abbrev pub new_size : RingBuf → ℕ → ℕ
new_size r n = (r.size + remain r + n) % u32

module _ (alloc : ℕ → List ℕ) where
  unfoldable pub write_audio_ring_buf : RingBuf → List ℕ → ℕ → Option RingBuf
  write_audio_ring_buf r src n = put_on src n (
      if int_lt (remain r) n
      then replaced (realloc r (some (alloc (new_size r n))) (new_size r n))
      else some r)

-- The bytes read, the ring, and `outlen`.
unfoldable pub read_audio_ring_buf : RingBuf → ℕ → List ℕ × RingBuf × ℕ
read_audio_ring_buf r max_len = get r (if ltb max_len (len r) then max_len else len r)

unfoldable pub audio_buf_len : RingBuf → ℕ
audio_buf_len r = len r

-- `eAVRender::Init` makes the ring over a new buffer.
unfoldable pub init_audio : List ℕ → RingBuf
unfolding create
init_audio b = (create (some b) audio_buf_size).0
