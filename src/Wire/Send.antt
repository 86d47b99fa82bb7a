-- ===== src/Wire/Send.antt =====
-- Sending: `eAVClient::SendData` and `eAVClient::do_send_cb` of common/eAVClient.cpp. The packet is put
-- in an `EVENT_CTX`, whose `len` is a `short int`, and written in pieces on the event loop's thread,
-- which is also the only one that changes the status, so that a call sees one status throughout.
use vncc.Base.{
  int_le, u32, ℕ, zero, suc, ◌+◌, ◌-◌, ◌%◌, ◌^◌, ◌≤◌, ◌≡◌, ◌⊎◌, List, [], ◌∷◌, ◌++◌, ltb,
  if◌then◌else◌, Bool, false, Option, none, some, length, take, drop, All, concat,
}
use vncc.Wire.{htonl_bytes}

-- `RetmoteStatus`.
pub data RemoteStatus : Type 0 where
  unknow : RemoteStatus
  disconnect : RemoteStatus
  connected : RemoteStatus

-- `data` and `len` of `EVENT_CTX`; `len` is the pattern of a `short int`.
pub record SendCtx : Type 0 where
  pub data_bytes : List ℕ
  pub len : ℕ

-- `none` is the answer false. The buffer is one byte longer than the packet and zeroed first.
unfoldable pub send_data : RemoteStatus → List ℕ → Option SendCtx
send_data connected p = some (record {
  data_bytes = htonl_bytes (length p) ++ (p ++ (0 ∷ []));
  len = (length p + 4) % 2 ^ 16;
})
send_data _ p = none

-- `int remind = ctx->len` extends the sign.
abbrev pub int_of_short : ℕ → ℕ
int_of_short w = if ltb w (2 ^ 15) then w else w + (u32 - 2 ^ 16)

abbrev pub max_send_times : ℕ
max_send_times = 4096

-- `userage`.
unfoldable pub piece_size : ℕ → ℕ
piece_size remind = if int_le remind max_send_times then remind else max_send_times

-- `bufferevent_write` may refuse a piece; what it says may depend on the pieces written before.
module _ (accepts : List (List ℕ) → List ℕ → Bool) where
  -- The loop, to the pieces written; `none` if the rounds given are used up.
  unfoldable pub send_loop : ℕ → List (List ℕ) → List ℕ → ℕ → ℕ → Option (List (List ℕ))
  send_loop zero sent bytes remind begin = none
  send_loop (suc fuel) sent bytes remind begin =
      let userage = piece_size remind in
      let piece = take userage (drop begin bytes) in
      let rest =
        send_loop fuel (sent ++ (piece ∷ [])) bytes ((remind + u32 - userage) % u32)
          (begin + userage) in
      if int_le userage 0 then some sent else if accepts sent piece then rest else some sent

  unfoldable pub do_send_cb : RemoteStatus → SendCtx → Option (List (List ℕ))
  do_send_cb connected ctx = send_loop (suc ctx.len) [] ctx.data_bytes (int_of_short ctx.len) 0
  do_send_cb _ ctx = some []

  -- The pieces written are small and are a prefix of the bytes due: all of them, unless a piece was
  -- refused.
  pub record Sent (due : List ℕ) (sent : List (List ℕ)) (o : Option (List (List ℕ))) : Type 0 where
    pub pieces : List (List ℕ)
    pub result : o ≡ some (sent ++ pieces)
    pub rest : List ℕ
    pub prefix : concat pieces ++ rest ≡ due
    pub small : All (λ p. length p ≤ 4096) pieces
    pub ended : (rest ≡ []) ⊎ ((piece : List ℕ) × (accepts (sent ++ pieces) piece ≡ false))
