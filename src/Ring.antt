-- ===== src/Ring.antt =====
-- The byte ring of the audio path: `ring_buf_t` of erender/eAVRender.h and the `ring_buf_*`
-- functions of erender/eAVRender.cpp. `front` and `rear` are free-running 32-bit counters; an index
-- into the storage is a counter modulo `size`. A function that updates `*r` returns the new ring.
-- A null pointer is `none`, and the bytes behind a pointer are a list. `malloc` is taken to succeed.
pub mod Inv
pub mod Put
pub mod Get
pub mod Grow
pub mod Wrap
mod Tests
use vncc.Base.{
  u32, ℕ, zero, suc, ◌+◌, ◌-◌, ◌%◌, ◌^◌, min, List, [], ◌++◌, Option, none, some, ltb, leb,
  if◌then◌else◌, take, drop, write_at,
}

pub record RingBuf : Type 0 where
  pub buf : List ℕ
  pub size : ℕ
  pub front : ℕ
  pub rear : ℕ

abbrev pub bytes_of : Option (List ℕ) → List ℕ
bytes_of none = []
bytes_of (some b) = b

-- `return buf == nullptr`: 1 for a null buffer, 0 for success.
abbrev pub null_flag : Option (List ℕ) → ℕ
null_flag none = 1
null_flag (some b) = 0

unfoldable pub create : Option (List ℕ) → ℕ → RingBuf × ℕ
create b n = (record { buf = bytes_of b; size = n; front = 0; rear = 0 }, null_flag b)

unfoldable pub clr : RingBuf → RingBuf
clr r = record r { front = 0; rear = 0 }

-- `rear - front` on `unsigned int` wraps.
abbrev pub len : RingBuf → ℕ
len r = (r.rear + u32 - r.front) % u32

abbrev pub remain : RingBuf → ℕ
remain r = (r.size + u32 - len r) % u32

-- What `ring_buf_put` works out before it copies: the bytes that fit, and those of them that fit
-- before the end of the storage.
abbrev pub put_len : RingBuf → ℕ → ℕ
put_len r n = min n ((r.size + r.front + u32 - r.rear) % u32)

abbrev pub put_head : RingBuf → ℕ → ℕ
put_head r n = min (put_len r n) (r.size - r.rear % r.size)

unfoldable pub put : RingBuf → List ℕ → ℕ → RingBuf × ℕ
put r src n = (
  record r {
    buf =
        write_at (write_at r.buf (r.rear % r.size) (take (put_head r n) src)) 0
          (take (put_len r n - put_head r n) (drop (put_head r n) src));
    rear = (r.rear + put_len r n) % u32;
  },
  put_len r n,
)

abbrev pub get_len : RingBuf → ℕ → ℕ
get_len r n = min n (len r)

abbrev pub get_head : RingBuf → ℕ → ℕ
get_head r n = min (get_len r n) (r.size - r.front % r.size)

-- The bytes copied out, the ring, and the number of bytes.
unfoldable pub get : RingBuf → ℕ → List ℕ × RingBuf × ℕ
get r n = (
  take (get_head r n) (drop (r.front % r.size) r.buf) ++ take (get_len r n - get_head r n) r.buf,
  record r { front = (r.front + get_len r n) % u32 },
  get_len r n,
)

-- The `while (true)` of `ring_buf_realloc`: it moves what one `get` returns into the new ring until
-- a `get` returns nothing. `none` means that the fuel ran out.
unfoldable pub drain : ℕ → RingBuf → RingBuf → ℕ → Option (RingBuf × RingBuf)
drain zero old new n = none
drain (suc fuel) old new n =
    let (bytes, old', k) = get old n in
    let more = drain fuel old' (put new bytes k).0 n in if ltb 0 k then more else some (old', new)

-- The C function returns -1 and touches nothing, or what `ring_buf_create` returns.
pub data ReallocResult : Type 0 where
  too_small : ReallocResult
  created : ℕ → RingBuf → RingBuf → ReallocResult

-- A successful `create` is followed by the transfer; a null buffer skips it.
abbrev pub transfer : Option (List ℕ) → RingBuf → RingBuf → ℕ → Option ReallocResult
transfer none old new n = some (created 1 old new)
transfer (some b) old new n = elim (drain 2 old new n) [
  | none ↦ none
  | some (old', new') ↦ some (created 0 old' new')
]

-- The old ring, the new buffer and its size. Two rounds of the loop are the most that run.
unfoldable pub realloc : RingBuf → Option (List ℕ) → ℕ → Option ReallocResult
unfolding create
realloc old b n = if leb n old.size then some too_small else transfer b old (create b n).0 n
