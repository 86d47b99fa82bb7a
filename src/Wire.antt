-- ===== src/Wire.antt =====
-- The framing of the control connections: `eAVClient::SendData` and `do_send_cb` of
-- common/eAVClient.cpp write a packet, a length of four bytes in network order and then the payload;
-- `eControlTrans::RecvData` of erender/econtroltrans.cpp takes packets out of the bytes that TCP
-- delivers in pieces. Bytes are numbers below 256, an `int` that holds a length is its 32-bit pattern.
pub mod Header
pub mod Body
pub mod Round
pub mod Receive
pub mod Send
pub mod Sent
pub mod Stream
mod Tests
use vncc.Base.{
  u32, IsByte, ℕ, zero, suc, ◌+◌, ◌-◌, ◌*◌, ◌/◌, ◌%◌, ◌^◌, ◌<◌, List, [], ◌∷◌, ◌++◌, ltb, leb, ◌==◌,
  if◌then◌else◌, length, take, drop, Bool, true, false,
}

-- The four bytes that `htonl` and `memcpy` put down.
abbrev pub htonl_bytes : ℕ → List ℕ
htonl_bytes n = n / 2 ^ 24 % 256 ∷ n / 2 ^ 16 % 256 ∷ n / 2 ^ 8 % 256 ∷ n % 256 ∷ []

-- `memcpy(&_len, head, 4); _len = ntohl(_len)`.
abbrev pub ntohl_bytes : List ℕ → ℕ
ntohl_bytes (a ∷ b ∷ c ∷ d ∷ rest) = ((a * 256 + b) * 256 + c) * 256 + d
ntohl_bytes _ = 0

abbrev pub head_size : ℕ
head_size = 4

-- `_len`, `_remain`, `_package` and `_head_size`.
pub record Receiver : Type 0 where
  pub len : ℕ
  pub remain : ℕ
  pub package_bytes : List ℕ
  pub head : List ℕ

abbrev pub idle : Receiver
idle = record { len = 0; remain = 0; package_bytes = []; head = [] }

-- One turn of the `while` of `RecvData`: it stops with the data left, reads out of range, or goes on
-- with the data that is left and the packages passed to `RouteCmd`.
pub data Turn : Type 0 where
  stop : Receiver → Turn
  out_of_range : Turn
  again : Receiver → List ℕ → List (List ℕ) → Turn

-- An `int` converted to `size_t` for the comparison with `data.size()`.
abbrev pub as_size : ℕ → ℕ
as_size w = if ltb w (2 ^ 31) then w else w + (2 ^ 64 - 2 ^ 32)

-- A package goes to `RouteCmd` with a terminating zero.
abbrev pub terminated : List ℕ → List ℕ
terminated p = p ++ (0 ∷ [])

-- The block that both branches of the loop share: take what completes the package, or all there is.
unfoldable pub take_block : Receiver → List ℕ → Turn
take_block s bytes =
    if leb (as_size s.remain) (length bytes)
    then again (record s { len = 0; remain = 0; package_bytes = [] }) (drop s.remain bytes)
        (terminated (s.package_bytes ++ take s.remain bytes) ∷ [])
    else again
        (record s {
          package_bytes = s.package_bytes ++ bytes;
          remain = (s.remain + u32 - length bytes % u32) % u32;
        })
        [] []

unfoldable pub start_block : Receiver → ℕ → List ℕ → Turn
start_block s n bytes = take_block (record s { len = n; remain = n; package_bytes = [] }) bytes

unfoldable pub turn : Receiver → List ℕ → Turn
turn s bytes =
    if s.len == 0
    then (if ltb 0 (length s.head)
        then (if ltb (length bytes) (head_size - length s.head)
            then out_of_range
            else start_block (record s { head = [] })
                (ntohl_bytes (s.head ++ take (head_size - length s.head) bytes))
                (drop (head_size - length s.head) bytes))
        else (if ltb (length bytes) head_size
            then stop (record s { head = bytes })
            else start_block s (ntohl_bytes (take head_size bytes)) (drop head_size bytes)))
    else take_block s bytes

-- The whole call: the receiver and the packages routed, a read out of range, or no fuel left.
pub data Outcome : Type 0 where
  done : Receiver → List (List ℕ) → Outcome
  fault : Outcome
  no_fuel : Outcome

abbrev pub routed_first : List (List ℕ) → Outcome → Outcome
routed_first ms (done s ns) = done s (ms ++ ns)
routed_first ms fault = fault
routed_first ms no_fuel = no_fuel

unfoldable pub recv_loop : ℕ → Receiver → List ℕ → Outcome
recv_loop zero s [] = done s []
recv_loop zero s (b ∷ bytes) = no_fuel
recv_loop (suc fuel) s [] = done s []
recv_loop (suc fuel) s (b ∷ bytes) = elim (turn s (b ∷ bytes)) [
  | stop t ↦ done t []
  | out_of_range ↦ fault
  | again t left ms ↦ routed_first ms (recv_loop fuel t left)
]

-- `RecvData`: a round for each byte is enough.
unfoldable pub recv_data : Receiver → List ℕ → Outcome
recv_data s bytes = recv_loop (length bytes) s bytes
