-- ===== src/Wire/Receive.antt =====
-- A whole call of `RecvData`, and the calls for the pieces that arrive one after another.
use vncc.Base.{
  IsByte, ℕ, zero, suc, ◌-◌, ◌^◌, ◌≤◌, ◌<◌, ◌≡◌, ◌∙◌, sym, ap, ap₂, subst, refl, List, [], ◌∷◌,
  ◌++◌, arith, length, All, All-append, map, append-nil, append_assoc, map-append,
}
use vncc.Wire.{
  Receiver, Turn, stop, out_of_range, again, terminated, turn, Outcome, done, fault, no_fuel,
  routed_first, recv_loop, recv_data,
}
use vncc.Wire.Header.{frame, frames}
use vncc.Wire.Body.{IsValid, Fits, pending, GoesOn}
use vncc.Wire.Round.{TurnOk, turn-TurnOk, turn-out_of_range}

-- What was routed and kept, as a record of the call's result.
pub record Framed (before : List ℕ) (t : Receiver) (ms : List (List ℕ)) : Type 0 where
  pub payloads : List (List ℕ)
  pub routed : ms ≡ map terminated payloads
  pub fit : All Fits payloads
  pub valid : IsValid t
  pub kept : before ≡ frames payloads ++ pending t

-- The call ends, and a fault means that a header was split and its rest did not come at once.
abbrev pub OutcomeOk : Receiver → List ℕ → Outcome → Type 0
OutcomeOk s bytes (done t ms) = Framed (pending s ++ bytes) t ms
OutcomeOk s bytes fault =
    (s.len ≡ 0) × (0 < length s.head) × (0 < length bytes) × (length bytes < 4 - length s.head)
OutcomeOk s bytes no_fuel = ⊥

pub frames-append : (ps qs : List (List ℕ)) → frames (ps ++ qs) ≡ frames ps ++ frames qs
frames-append [] qs = refl
frames-append (p ∷ ps) qs =
    ap (◌++◌ (frame p)) (frames-append ps qs) ∙ sym (append_assoc (frame p) (frames ps) (frames qs))

-- The frames of one turn, then those of the rest of the call.
join-Framed :
    (before left : List ℕ) (s t : Receiver) (ms ns : List (List ℕ))
    → GoesOn before s left ms
    → Framed (pending s ++ left) t ns
    → Framed before t (ms ++ ns)
join-Framed before left s t ms ns g f = record {
  payloads = g.payloads ++ f.payloads;
  routed = ap₂ ◌++◌ g.routed f.routed ∙ sym (map-append terminated g.payloads f.payloads);
  fit = All-append Fits g.payloads f.payloads g.fit f.fit;
  valid = f.valid;
  kept =
      g.kept
      ∙ ap (◌++◌ (frames g.payloads)) f.kept
      ∙ sym (append_assoc (frames g.payloads) (frames f.payloads) (pending t))
      ∙ ap (λ xs. xs ++ pending t) (sym (frames-append g.payloads f.payloads));
}

rest-ok :
    (s u : Receiver) (bytes left : List ℕ) (ms : List (List ℕ)) (o : Outcome)
    → GoesOn (pending s ++ bytes) u left ms
    → OutcomeOk u left o
    → OutcomeOk s bytes (routed_first ms o)
rest-ok s u bytes left ms (done t ns) g f = join-Framed (pending s ++ bytes) left u t ms ns g f
rest-ok s u bytes left ms fault g f = absurd (omega (arith, f, ap length g.clear))
rest-ok s u bytes left ms no_fuel g f = f

pub no_bytes-Framed : (s : Receiver) → IsValid s → Framed (pending s ++ []) s []
no_bytes-Framed s v = record {
  payloads = [];
  routed = refl;
  fit = tt;
  valid = v;
  kept = append-nil (pending s);
}

-- What a round makes of each kind of turn.
abbrev after_turn : ℕ → Turn → Outcome
after_turn fuel (stop t) = done t []
after_turn fuel out_of_range = fault
after_turn fuel (again t left ms) = routed_first ms (recv_loop fuel t left)

recv_loop-eq :
    (fuel : ℕ) (s : Receiver) (b : ℕ) (bytes : List ℕ) (r : Turn)
    → turn s (b ∷ bytes) ≡ r
    → recv_loop (suc fuel) s (b ∷ bytes) ≡ after_turn fuel r
unfolding recv_loop
recv_loop-eq fuel s b bytes (stop t) e = rw (e, recv_loop)
recv_loop-eq fuel s b bytes out_of_range e = rw (e, recv_loop)
recv_loop-eq fuel s b bytes (again t left ms) e = rw (e, recv_loop)

-- A round of the loop, given what the rest of the loop does.
round-ok :
    (fuel : ℕ) (s : Receiver) (b : ℕ) (bytes : List ℕ) (r : Turn)
    → turn s (b ∷ bytes) ≡ r
    → TurnOk s (b ∷ bytes) r
    → length bytes ≤ fuel
    → length bytes < 2 ^ 31
    → ((u : Receiver) (left : List ℕ)
        → length left ≤ fuel
        → IsValid u
        → length left < 2 ^ 31
        → All IsByte left
        → OutcomeOk u left (recv_loop fuel u left))
    → OutcomeOk s (b ∷ bytes) (recv_loop (suc fuel) s (b ∷ bytes))
round-ok fuel s b bytes (stop t) e ok h small ih =
    subst (OutcomeOk s (b ∷ bytes)) (sym (recv_loop-eq fuel s b bytes (stop t) e))
      (record { payloads = []; routed = refl; fit = tt; valid = ok.0; kept = ok.1 })
round-ok fuel s b bytes out_of_range e ok h small ih =
    subst (OutcomeOk s (b ∷ bytes)) (sym (recv_loop-eq fuel s b bytes out_of_range e))
      (ok.0, ok.1, omega arith, ok.2)
round-ok fuel s b bytes (again u left ms) e ok h small ih =
    subst (OutcomeOk s (b ∷ bytes)) (sym (recv_loop-eq fuel s b bytes (again u left ms) e)) (
      rest-ok s u (b ∷ bytes) left ms (recv_loop fuel u left) ok.0
        (ih u left (omega (arith, ok.1)) ok.0.valid (omega (arith, ok.1)) ok.0.bytes))

recv_loop-ok :
    (fuel : ℕ) (s : Receiver) (bytes : List ℕ)
    → length bytes ≤ fuel
    → IsValid s
    → length bytes < 2 ^ 31
    → All IsByte bytes
    → OutcomeOk s bytes (recv_loop fuel s bytes)
recv_loop-ok zero s [] h v small all = unfold recv_loop in no_bytes-Framed s v
recv_loop-ok zero s (b ∷ bytes) h v small all = absurd (omega arith)
recv_loop-ok (suc fuel) s [] h v small all = unfold recv_loop in no_bytes-Framed s v
recv_loop-ok (suc fuel) s (b ∷ bytes) h v small all =
    round-ok fuel s b bytes (turn s (b ∷ bytes)) refl
      (turn-TurnOk s (b ∷ bytes) (omega arith) small all v) (omega arith) (omega arith)
      (λ u left. recv_loop-ok fuel u left)

-- `RecvData` on a valid receiver and fewer than 2^31 bytes never runs out of rounds. If it returns,
-- the bytes kept before and those that came are, in order, the frames of the packages that it routed
-- and the bytes that it keeps, in a receiver that is valid again. It reads out of range only if part
-- of a header was kept and fewer bytes came than that header lacks.
pub recv_data-ok :
    (s : Receiver) (bytes : List ℕ)
    → IsValid s
    → length bytes < 2 ^ 31
    → All IsByte bytes
    → OutcomeOk s bytes (recv_data s bytes)
unfolding recv_data
recv_data-ok s bytes = recv_loop-ok (length bytes) s bytes (omega arith)

-- And it does so then: a header that comes in three pieces makes the code read past its data.
pub recv_data-fault :
    (s : Receiver) (b : ℕ) (bytes : List ℕ)
    → s.len ≡ 0
    → 0 < length s.head
    → length (b ∷ bytes) < 4 - length s.head
    → recv_data s (b ∷ bytes) ≡ fault
unfolding recv_data
recv_data-fault s b bytes e h lt =
    recv_loop-eq (length bytes) s b bytes out_of_range (turn-out_of_range s (b ∷ bytes) e h lt)
