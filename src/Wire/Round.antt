-- ===== src/Wire/Round.antt =====
-- One turn of `RecvData`: what it takes from the stream and what it keeps.
use vncc.Base.{
  IsByte, ℕ, ◌-◌, ◌^◌, ◌≤◌, ◌<◌, ◌≡◌, inl, inr, ◌∙◌, sym, ap, ap₂, refl, List, [], ◌∷◌, ◌++◌, arith,
  ltb, ltb→lt, Bool-cases, false, length, take, drop, All, All-append, All-take, All-drop,
  append_assoc, take-append-drop, length-append, length-take, length-drop, subst,
}
use vncc.Wire.{
  htonl_bytes, ntohl_bytes, Receiver, Turn, stop, out_of_range, again, take_block, start_block,
  turn,
}
use vncc.Wire.Body.{
  IsIdle, IsBusy, IsValid, pending, pending-idle, pending-busy, GoesOn, Takes, take_block-Takes,
  start_block-Takes,
}

-- What a turn does to a valid receiver.
abbrev pub TurnOk : Receiver → List ℕ → Turn → Type 0
TurnOk s bytes (stop t) = IsValid t × (pending s ++ bytes ≡ pending t)
TurnOk s bytes out_of_range = (s.len ≡ 0) × (0 < length s.head) × (length bytes < 4 - length s.head)
TurnOk s bytes (again t left ms) =
    GoesOn (pending s ++ bytes) t left ms × (length left < length bytes)

-- The branches of the loop body.
module _ (s : Receiver) (bytes : List ℕ) where
  turn-eq-take_block : 0 < s.len → turn s bytes ≡ take_block s bytes
  unfolding turn
  turn-eq-take_block h = ground arith

  pub turn-out_of_range :
      s.len ≡ 0 → 0 < length s.head → length bytes < 4 - length s.head → turn s bytes ≡ out_of_range
  unfolding turn
  turn-out_of_range e h lt = ground arith

  turn-joins :
      s.len ≡ 0
      → 0 < length s.head
      → 4 - length s.head ≤ length bytes
      → turn s bytes
        ≡ start_block
            (record s { head = [] })
            (ntohl_bytes (s.head ++ take (4 - length s.head) bytes))
            (drop (4 - length s.head) bytes)
  unfolding turn
  turn-joins e h le = ground arith

  turn-stops :
      s.len ≡ 0
      → length s.head ≡ 0
      → length bytes < 4
      → turn s bytes ≡ stop (record s { head = bytes })
  unfolding turn
  turn-stops e h lt = ground arith

  turn-starts :
      s.len ≡ 0
      → length s.head ≡ 0
      → 4 ≤ length bytes
      → turn s bytes ≡ start_block s (ntohl_bytes (take 4 bytes)) (drop 4 bytes)
  unfolding turn
  turn-starts e h le = ground arith

nil_of_length : (xs : List ℕ) → length xs ≡ 0 → xs ≡ []
nil_of_length [] e = refl
nil_of_length (x ∷ xs) e = absurd (omega arith)

GoesOn-TurnOk :
    (s : Receiver) (bytes : List ℕ) {r : Turn} (t : Receiver) (left : List ℕ) (ms : List (List ℕ))
    → r ≡ again t left ms
    → GoesOn (pending s ++ bytes) t left ms
    → length left < length bytes
    → TurnOk s bytes r
GoesOn-TurnOk s bytes t left ms e g l = subst (TurnOk s bytes) (sym e) (g, l)

module _ (s : Receiver) (bytes : List ℕ) (some_bytes : 0 < length bytes)
    (small : length bytes < 2 ^ 31) (all : All IsByte bytes) where
  turn-busy : IsBusy s → TurnOk s bytes (turn s bytes)
  turn-busy v =
      GoesOn-TurnOk s bytes taken.after taken.left taken.ms
        (turn-eq-take_block s bytes due ∙ taken.result)
        (subst (λ b. GoesOn b taken.after taken.left taken.ms)
          (sym (append_assoc (htonl_bytes s.len) s.package_bytes bytes)
            ∙ ap (λ p. p ++ bytes) (sym (pending-busy s due)))
          taken.goes_on)
        (taken.progress v.due some_bytes)
    where
      due : 0 < s.len
      due = omega (arith, v)

      taken : Takes s bytes (take_block s bytes)
      taken = take_block-Takes s bytes v.word v.clear v.sum small all

  turn-split_header : IsIdle s → 0 < length s.head → TurnOk s bytes (turn s bytes)
  turn-split_header v h = elim (Bool-cases (ltb (length bytes) (4 - length s.head))) [
    | inl lt ↦
        subst (TurnOk s bytes) (sym (turn-out_of_range s bytes v.none_due h (ltb→lt _ _ lt)))
          ((v.none_due, h, ltb→lt _ _ lt))
    | inr ge ↦ joined (enough ge)
  ]
    where
      enough : ltb (length bytes) (4 - length s.head) ≡ false → 4 - length s.head ≤ length bytes
      enough e = ground arith

      joined : 4 - length s.head ≤ length bytes → TurnOk s bytes (turn s bytes)
      joined le =
          let (t, left, ms, e, g, l) =
            start_block-Takes (record s { head = [] }) (s.head ++ take (4 - length s.head) bytes)
              (drop (4 - length s.head) bytes) refl
              (omega (
                arith,
                length-append s.head (take (4 - length s.head) bytes),
                length-take (4 - length s.head) bytes,
                v,
              ))
              (All-append IsByte s.head (take (4 - length s.head) bytes) v.bytes
                (All-take IsByte (4 - length s.head) bytes all))
              (omega (arith, length-drop (4 - length s.head) bytes))
              (All-drop IsByte (4 - length s.head) bytes all) in
          GoesOn-TurnOk s bytes t left ms (turn-joins s bytes v.none_due h le ∙ e)
            (subst (λ b. GoesOn b t left ms)
              (append_assoc s.head (take (4 - length s.head) bytes) (drop (4 - length s.head) bytes)
                ∙ ap₂ ◌++◌ (sym (pending-idle s v.none_due))
                    (take-append-drop (4 - length s.head) bytes))
              g)
            (omega (arith, length-drop (4 - length s.head) bytes, v))

  turn-fresh : IsIdle s → length s.head ≡ 0 → TurnOk s bytes (turn s bytes)
  turn-fresh v h = elim (Bool-cases (ltb (length bytes) 4)) [
    | inl lt ↦ subst (TurnOk s bytes) (sym (turn-stops s bytes v.none_due h (ltb→lt _ _ lt))) (
        (
          inl (record {
            none_due = v.none_due;
            empty = v.empty;
            short = ltb→lt _ _ lt;
            bytes = all;
          }),
          ap (λ p. p ++ bytes) (none_held)
              ∙ sym (pending-idle (record s { head = bytes }) v.none_due),
        ))
    | inr ge ↦ started (enough ge)
  ]
    where
      none_held : pending s ≡ []
      none_held = pending-idle s v.none_due ∙ nil_of_length s.head h

      enough : ltb (length bytes) 4 ≡ false → 4 ≤ length bytes
      enough e = ground arith

      started : 4 ≤ length bytes → TurnOk s bytes (turn s bytes)
      started le =
          let (t, left, ms, e, g, l) =
            start_block-Takes s (take 4 bytes) (drop 4 bytes) (nil_of_length s.head h)
              (omega (arith, length-take 4 bytes)) (All-take IsByte 4 bytes all)
              (omega (arith, length-drop 4 bytes)) (All-drop IsByte 4 bytes all) in
          GoesOn-TurnOk s bytes t left ms (turn-starts s bytes v.none_due h le ∙ e)
            (subst (λ b. GoesOn b t left ms)
              (take-append-drop 4 bytes ∙ ap (λ p. p ++ bytes) (sym none_held)) g)
            (omega (arith, length-drop 4 bytes))

  -- Every turn on a byte goes on with less to do, stops at the end of the data, or meets the fault.
  pub turn-TurnOk : IsValid s → TurnOk s bytes (turn s bytes)
  turn-TurnOk (inr v) = turn-busy v
  turn-TurnOk (inl v) = elim (Bool-cases (ltb 0 (length s.head))) [
    | inl h ↦ turn-split_header v (ltb→lt _ _ h)
    | inr h ↦ turn-fresh v (none h)
  ]
    where
      none : ltb 0 (length s.head) ≡ false → length s.head ≡ 0
      none e = ground arith
