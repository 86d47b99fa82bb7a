-- ===== src/Wire/Tests.antt =====
-- The framing on small streams: a stream cut in the middle of a header and of a payload, a header cut
-- twice, and packets that are sent and refused.
use vncc.Base.{
  ℕ, ◌+◌, ◌^◌, ◌≤◌, ◌<◌, ◌≡◌, subst, sym, refl, inl, List, [], ◌∷◌, ◌++◌, map, concat, Bool, true,
  false, some, arith, length, tabulate, length-tabulate,
}
use vncc.Wire.{
  Receiver, idle, terminated, done, fault, recv_data, recv_loop, turn, start_block, take_block,
}
use vncc.Wire.Header.{frame}
use vncc.Wire.Body.{IsValid, pending}
use vncc.Wire.Receive.{Framed, OutcomeOk, recv_data-ok, recv_data-fault}
use vncc.Wire.Send.{SendCtx, connected, send_data, do_send_cb, Sent}
use vncc.Wire.Sent.{do_send_cb-Sent, do_send_cb-too_long}
use vncc.Wire.Stream.{recv_all, recv_all-Framed, recv_all-frames}

abbrev payloads : List (List ℕ)
payloads = (7 ∷ 8 ∷ []) ∷ [] ∷ (9 ∷ []) ∷ []

abbrev stream_pieces : List (List ℕ)
stream_pieces = (0 ∷ 0 ∷ 0 ∷ []) ∷ (2 ∷ 7 ∷ 8 ∷ 0 ∷ 0 ∷ []) ∷ (0 ∷ 0 ∷ 0 ∷ 0 ∷ 0 ∷ 1 ∷ 9 ∷ []) ∷ []

recv_all-pieces : recv_all idle stream_pieces ≡ done idle (map terminated payloads)
unfolding recv_all recv_data recv_loop turn start_block take_block
recv_all-pieces = refl

recv_all-frames_example :
    (t : Receiver) × (recv_all idle stream_pieces ≡ done t (map terminated payloads))
    × IsValid t
    × (pending t ≡ [])
recv_all-frames_example = recv_all-frames payloads stream_pieces (omega arith) (omega arith) refl

-- Three bytes of a header are kept.
abbrev three_kept : Receiver
three_kept = record { len = 0; remain = 0; package_bytes = []; head = 0 ∷ 0 ∷ 0 ∷ [] }

three_kept-IsValid : IsValid three_kept
three_kept-IsValid =
    inl (record { none_due = refl; empty = refl; short = omega arith; bytes = omega arith })

recv_data-ok_example : OutcomeOk three_kept (2 ∷ 7 ∷ []) (recv_data three_kept (2 ∷ 7 ∷ []))
recv_data-ok_example =
    recv_data-ok three_kept (2 ∷ 7 ∷ []) three_kept-IsValid (omega arith) (omega arith)

recv_all-Framed_example :
    (t : Receiver) × (ms : List (List ℕ)) × (recv_all three_kept stream_pieces ≡ done t ms)
    × Framed (pending three_kept ++ concat stream_pieces) t ms
recv_all-Framed_example = recv_all-Framed three_kept stream_pieces three_kept-IsValid (omega arith)

-- One byte of a header is kept, and one comes.
abbrev one_kept : Receiver
one_kept = record { len = 0; remain = 0; package_bytes = []; head = 0 ∷ [] }

recv_data-fault_run : recv_data one_kept (0 ∷ []) ≡ fault
recv_data-fault_run = recv_data-fault one_kept 0 [] refl (omega arith) (omega arith)

-- A connection that takes one piece.
abbrev first_only : List (List ℕ) → List ℕ → Bool
first_only [] piece = true
first_only (p ∷ ps) piece = false

do_send_cb-Sent_example :
    (ctx : SendCtx) × (send_data connected (1 ∷ 2 ∷ []) ≡ some ctx)
    × Sent first_only (frame (1 ∷ 2 ∷ [])) [] (do_send_cb first_only connected ctx)
do_send_cb-Sent_example = do_send_cb-Sent first_only (1 ∷ 2 ∷ []) (omega arith)

abbrev long_payload : List ℕ
long_payload = tabulate 40000 (λ k. 1)

length-long_payload : length long_payload ≡ 40000
length-long_payload = length-tabulate {A = ℕ} 40000 (λ k. 1)

do_send_cb-too_long_run :
    (ctx : SendCtx) × (send_data connected long_payload ≡ some ctx)
    × (do_send_cb first_only connected ctx ≡ some [])
do_send_cb-too_long_run =
    do_send_cb-too_long first_only long_payload
      (subst (λ n. 2 ^ 15 ≤ n + 4) (sym length-long_payload) (omega arith))
      (subst (λ n. n + 4 < 2 ^ 16) (sym length-long_payload) (omega arith))
