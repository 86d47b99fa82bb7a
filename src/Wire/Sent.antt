-- ===== src/Wire/Sent.antt =====
-- What `do_send_cb` writes of the packet that `SendData` made.
use vncc.Base.{
  int_le, u32, ℕ, zero, suc, ◌+◌, ◌-◌, ◌%◌, ◌^◌, ◌≤◌, ◌<◌, ◌≡◌, ◌⊎◌, inl, inr, ◌∙◌, sym, ap, ap_at,
  subst, refl, min, List, [], ◌∷◌, ◌++◌, arith, Bool, Bool-cases, true, false, some, length, take,
  drop, concat, append-nil, append_assoc, take-append, take-add, drop-drop, length-take,
}
use vncc.Wire.{htonl_bytes}
use vncc.Wire.Header.{frame}
use vncc.Wire.Send.{
  connected, SendCtx, send_data, int_of_short, piece_size, send_loop, do_send_cb, Sent,
}

piece_size-eq : (remind : ℕ) → remind < 2 ^ 15 → piece_size remind ≡ min remind 4096
unfolding piece_size
piece_size-eq remind h = ground arith

int_le-zero : (n : ℕ) → n ≡ 0 → int_le n 0 ≡ true
int_le-zero n h = ground arith

int_le-positive : (n : ℕ) → 0 < n → n < 2 ^ 15 → int_le n 0 ≡ false
int_le-positive n h lt = ground arith

-- A negative `len` is what remains of a packet of 32768 bytes or more.
piece_size-negative :
    (n : ℕ) → 2 ^ 15 ≤ n → n < 2 ^ 16 → int_le (piece_size (int_of_short n)) 0 ≡ true
unfolding piece_size
piece_size-negative n h lt = ground arith

module _ (accepts : List (List ℕ) → List ℕ → Bool) where
  -- A round by its branches.
  module _ (fuel : ℕ) (sent : List (List ℕ)) (bytes : List ℕ) (remind begin : ℕ) where
    loop-ends :
        int_le (piece_size remind) 0 ≡ true
        → send_loop accepts (suc fuel) sent bytes remind begin ≡ some sent
    unfolding send_loop
    loop-ends e = rw e

    module _ (some_left : 0 < remind) (small : remind < 2 ^ 15) where
      positive : int_le (piece_size remind) 0 ≡ false
      positive =
          int_le-positive (piece_size remind) (omega (arith, piece_size-eq remind small))
            (omega (arith, piece_size-eq remind small))

      loop-refused :
          accepts sent (take (piece_size remind) (drop begin bytes)) ≡ false
          → send_loop accepts (suc fuel) sent bytes remind begin ≡ some sent
      unfolding send_loop
      loop-refused e = rw (positive, e)

      loop-accepted :
          accepts sent (take (piece_size remind) (drop begin bytes)) ≡ true
          → send_loop accepts (suc fuel) sent bytes remind begin
            ≡ send_loop accepts fuel
                (sent ++ (take (piece_size remind) (drop begin bytes) ∷ []))
                bytes
                (remind - piece_size remind)
                (begin + piece_size remind)
      unfolding send_loop
      loop-accepted e =
          rw (positive, e)
            (ap_at
              (λ r.
                send_loop accepts fuel (sent ++ (take (piece_size remind) (drop begin bytes) ∷ []))
                  bytes r (begin + piece_size remind))
              ((remind + u32 - piece_size remind) % u32) (remind - piece_size remind)
              (omega (arith, piece_size-eq remind small)))

  send_loop-Sent :
      (fuel : ℕ) (sent : List (List ℕ)) (bytes : List ℕ) (remind begin : ℕ)
      → remind < fuel
      → remind < 2 ^ 15
      → Sent accepts
          (take remind (drop begin bytes))
          sent
          (send_loop accepts fuel sent bytes remind begin)
  send_loop-Sent zero sent bytes remind begin h lt = absurd (omega arith)
  send_loop-Sent (suc fuel) sent bytes zero begin h lt = record {
    pieces = [];
    result =
        loop-ends fuel sent bytes 0 begin
          (int_le-zero (piece_size 0) (omega (arith, piece_size-eq 0 lt)))
        ∙ ap some (sym (append-nil sent));
    rest = [];
    prefix = refl;
    small = tt;
    ended = inl refl;
  }
  send_loop-Sent (suc fuel) sent bytes (suc n) begin h lt = elim (Bool-cases (accepts sent piece)) [
    | inr e ↦ record {
      pieces = [];
      result =
          loop-refused fuel sent bytes (suc n) begin (omega arith) lt e
          ∙ ap some (sym (append-nil sent));
      rest = take (suc n) (drop begin bytes);
      prefix = refl;
      small = tt;
      ended = inr (piece, subst (λ q. accepts q piece ≡ false) (sym (append-nil sent)) e);
    }
    | inl e ↦ accepted e (
        send_loop-Sent fuel (sent ++ (piece ∷ [])) bytes (suc n - u) (begin + u)
          (omega (arith, size)) (omega (arith, size)))
  ]
    where
      u : ℕ
      u = piece_size (suc n)

      size : u ≡ min (suc n) 4096
      size = piece_size-eq (suc n) lt

      piece : List ℕ
      piece = take u (drop begin bytes)

      accepted :
          accepts sent piece ≡ true
          → Sent accepts
              (take (suc n - u) (drop (begin + u) bytes))
              (sent ++ (piece ∷ []))
              (send_loop accepts fuel (sent ++ (piece ∷ [])) bytes (suc n - u) (begin + u))
          → Sent accepts
              (take (suc n) (drop begin bytes))
              sent
              (send_loop accepts (suc fuel) sent bytes (suc n) begin)
      accepted e r = record {
        pieces = piece ∷ r.pieces;
        result =
            loop-accepted fuel sent bytes (suc n) begin (omega arith) lt e
            ∙ r.result
            ∙ ap some (append_assoc sent (piece ∷ []) r.pieces);
        rest = r.rest;
        prefix =
            append_assoc piece (concat r.pieces) r.rest
            ∙ ap (◌++◌ piece) (r.prefix ∙ ap (take (suc n - u)) (sym (drop-drop begin u bytes)))
            ∙ sym (take-add u (suc n - u) (drop begin bytes))
            ∙ ap_at (λ k. take k (drop begin bytes)) (u + (suc n - u)) (suc n)
                (omega (arith, size));
        small = (omega (arith, size, length-take u (drop begin bytes)), r.small);
        ended =
            subst (λ q. (r.rest ≡ []) ⊎ ((x : List ℕ) × (accepts q x ≡ false)))
              (append_assoc sent (piece ∷ []) r.pieces) r.ended;
      }

  -- A payload of at most 32763 bytes, sent while the connection stands: `SendData` accepts it, and the
  -- pieces that `do_send_cb` writes have at most 4096 bytes each and are, one after another, the header
  -- and the payload, or a prefix of that if `bufferevent_write` refused a piece.
  pub do_send_cb-Sent :
      (p : List ℕ)
      → length p + 4 < 2 ^ 15
      → (ctx : SendCtx) × (send_data connected p ≡ some ctx)
        × Sent accepts (frame p) [] (do_send_cb accepts connected ctx)
  unfolding send_data do_send_cb
  do_send_cb-Sent p h = (
    packet,
    refl,
    subst (λ d. Sent accepts d [] (do_send_cb accepts connected packet)) due
        (subst
          (λ n.
            Sent accepts (take n packet.data_bytes) []
              (send_loop accepts (suc packet.len) [] packet.data_bytes n 0))
          (sym plain)
          (send_loop-Sent (suc packet.len) [] packet.data_bytes packet.len 0 (omega arith)
            (omega arith))),
  )
    where
      packet : SendCtx
      packet = record {
        data_bytes = htonl_bytes (length p) ++ (p ++ (0 ∷ []));
        len = (length p + 4) % 2 ^ 16;
      }

      plain : int_of_short packet.len ≡ packet.len
      plain = ground arith

      due : take (int_of_short packet.len) packet.data_bytes ≡ frame p
      due =
          ap_at (λ n. take n packet.data_bytes) (int_of_short packet.len) (length (frame p))
            (omega (arith, plain))
          ∙ ap (take (length (frame p))) (sym (append_assoc (htonl_bytes (length p)) p (0 ∷ [])))
          ∙ take-append (frame p) (0 ∷ [])

  -- A longer packet, up to 65531 bytes of payload, is accepted by `SendData` and none of it is sent.
  pub do_send_cb-too_long :
      (p : List ℕ)
      → 2 ^ 15 ≤ length p + 4
      → length p + 4 < 2 ^ 16
      → (ctx : SendCtx) × (send_data connected p ≡ some ctx)
        × (do_send_cb accepts connected ctx ≡ some [])
  unfolding send_data do_send_cb
  do_send_cb-too_long p h lt = (
    _,
    refl,
    loop-ends ((length p + 4) % 2 ^ 16) [] _ (int_of_short ((length p + 4) % 2 ^ 16)) 0
        (piece_size-negative ((length p + 4) % 2 ^ 16) (omega arith) (omega arith)),
  )
