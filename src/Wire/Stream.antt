-- ===== src/Wire/Stream.antt =====
-- The pieces that TCP delivers, one call of `RecvData` after another, and the whole stream.
use vncc.Base.{
  u32, IsByte, ℕ, ◌^◌, ◌≤◌, ◌<◌, ◌≡◌, ◌≢◌, ◌⊎◌, inl, inr, ◌∙◌, sym, ap, ap₂, subst, refl, List, [],
  ◌∷◌, ◌++◌, arith, length, take, drop, map, All, All-append, concat, append_assoc, map-append,
  take-append, drop-append, length-append,
}
use vncc.Wire.{
  htonl_bytes, ntohl_bytes, Receiver, idle, terminated, Outcome, done, fault, no_fuel, routed_first,
  recv_data,
}
use vncc.Wire.Header.{frame, frames, ntohl_bytes-htonl_bytes}
use vncc.Wire.Body.{IsValid, Fits, pending, pending-idle, pending-busy}
use vncc.Wire.Receive.{Framed, OutcomeOk, recv_data-ok, frames-append, no_bytes-Framed}

-- `recvRemoteDataCB`, for the pieces in their order.
unfoldable pub recv_all : Receiver → List (List ℕ) → Outcome
recv_all s [] = done s []
recv_all s (bytes ∷ pieces) = elim (recv_data s bytes) [
  | done t ms ↦ routed_first ms (recv_all t pieces)
  | fault ↦ fault
  | no_fuel ↦ no_fuel
]

-- A piece that completes any header begun before it.
abbrev pub IsPiece : List ℕ → Type 0
IsPiece bytes = (3 ≤ length bytes) × (length bytes < 2 ^ 31) × All IsByte bytes

-- The bytes of an unfinished frame.
abbrev IsPart : List ℕ → Type 0
IsPart xs =
    (length xs < 4)
    ⊎ ((n : ℕ) × (ys : List ℕ) × (n < u32) × (length ys < n) × (xs ≡ htonl_bytes n ++ ys))

pending-IsPart : (s : Receiver) → IsValid s → IsPart (pending s)
pending-IsPart s (inl v) = inl (subst (λ h. length h < 4) (sym (pending-idle s v.none_due)) v.short)
pending-IsPart s (inr v) =
    inr (s.len, s.package_bytes, v.word, omega (arith, v), pending-busy s (omega (arith, v)))

header-injective :
    (m n : ℕ) (xs ys : List ℕ)
    → m < u32
    → n < u32
    → htonl_bytes m ++ xs ≡ htonl_bytes n ++ ys
    → (m ≡ n) × (xs ≡ ys)
header-injective m n xs ys h k e = (
  sym (ntohl_bytes-htonl_bytes m xs h) ∙ ap ntohl_bytes e ∙ ntohl_bytes-htonl_bytes n ys k,
  ap (drop 4) e,
)

frame-injective :
    (p q xs ys : List ℕ) → Fits p → Fits q → frame p ++ xs ≡ frame q ++ ys → (p ≡ q) × (xs ≡ ys)
frame-injective p q xs ys f g e = (
  sym (take-append p xs) ∙ ap₂ take same.0 same.1 ∙ take-append q ys,
  sym (drop-append p xs) ∙ ap₂ drop same.0 same.1 ∙ drop-append q ys,
)
  where
    same : (length p ≡ length q) × (p ++ xs ≡ q ++ ys)
    same = header-injective (length p) (length q) (p ++ xs) (q ++ ys) f g e

whole_is_no_part : (p xs ys : List ℕ) → Fits p → IsPart ys → frame p ++ xs ≢ ys
whole_is_no_part p xs ys f (inl short) e = omega (arith, ap length e, length-append (frame p) xs)
whole_is_no_part p xs ys f (inr (n, zs, fits, short, e2)) e =
    let (same, rest) = header-injective (length p) n (p ++ xs) zs f fits (e ∙ e2) in
    omega (arith, same, ap length rest, length-append p xs)

nothing : (xs ys : List ℕ) → xs ++ ys ≡ [] → ys ≡ []
nothing [] ys e = e
nothing (x ∷ xs) ys e = absurd (omega (arith, ap length e))

-- A stream of whole frames splits into frames and an unfinished one in one way.
frames_unique :
    (ps qs : List (List ℕ)) (x : List ℕ)
    → All Fits ps
    → All Fits qs
    → IsPart x
    → frames ps ≡ frames qs ++ x
    → (ps ≡ qs) × (x ≡ [])
frames_unique [] [] x f g part e = (refl, sym e)
frames_unique [] (q ∷ qs) x f g part e = absurd (omega (arith, ap length e))
frames_unique (p ∷ ps) [] x f g part e = absurd (whole_is_no_part p (frames ps) x f.0 part e)
frames_unique (p ∷ ps) (q ∷ qs) x f g part e =
    let (same, rest) =
      frame-injective p q (frames ps) (frames qs ++ x) f.0 g.0
        (e ∙ append_assoc (frame q) (frames qs) x) in
    let (sames, ended) = frames_unique ps qs x f.1 g.1 part rest in (ap₂ ◌∷◌ same sames, ended)

join-Framed :
    (s u t : Receiver) (bytes later : List ℕ) (ms ns : List (List ℕ))
    → Framed (pending s ++ bytes) u ms
    → Framed (pending u ++ later) t ns
    → Framed (pending s ++ (bytes ++ later)) t (ms ++ ns)
join-Framed s u t bytes later ms ns f g = record {
  payloads = f.payloads ++ g.payloads;
  routed = ap₂ ◌++◌ f.routed g.routed ∙ sym (map-append terminated f.payloads g.payloads);
  fit = All-append Fits f.payloads g.payloads f.fit g.fit;
  valid = g.valid;
  kept =
      sym (append_assoc (pending s) bytes later)
      ∙ ap (λ b. b ++ later) f.kept
      ∙ append_assoc (frames f.payloads) (pending u) later
      ∙ ap (◌++◌ (frames f.payloads)) g.kept
      ∙ sym (append_assoc (frames f.payloads) (frames g.payloads) (pending t))
      ∙ ap (λ xs. xs ++ pending t) (sym (frames-append f.payloads g.payloads));
}

abbrev AllOk : Receiver → List (List ℕ) → Type 0
AllOk s pieces =
    (t : Receiver) × (ms : List (List ℕ)) × (recv_all s pieces ≡ done t ms)
    × Framed (pending s ++ concat pieces) t ms

recv_all-step :
    (s : Receiver) (bytes : List ℕ) (pieces : List (List ℕ)) (o : Outcome)
    → recv_data s bytes ≡ o
    → OutcomeOk s bytes o
    → 3 ≤ length bytes
    → ((u : Receiver) → IsValid u → AllOk u pieces)
    → AllOk s (bytes ∷ pieces)
unfolding recv_all
recv_all-step s bytes pieces (done u ms) e f h ih =
    let (t, ns, e2, g) = ih u f.valid in
    (t, ms ++ ns, rw (e, e2, recv_all) refl, join-Framed s u t bytes (concat pieces) ms ns f g)
recv_all-step s bytes pieces fault e f h ih = absurd (omega (arith, f))
recv_all-step s bytes pieces no_fuel e f h ih = absurd f

-- The calls of `RecvData` for any pieces of at least three bytes each return; the bytes kept before
-- and all those that came are, in order, the frames of the packages routed and the bytes kept.
pub recv_all-Framed :
    (s : Receiver) (pieces : List (List ℕ))
    → IsValid s
    → All IsPiece pieces
    → (t : Receiver) × (ms : List (List ℕ)) × (recv_all s pieces ≡ done t ms)
      × Framed (pending s ++ concat pieces) t ms
recv_all-Framed s [] v all = (s, [], unfold recv_all in refl, no_bytes-Framed s v)
recv_all-Framed s (bytes ∷ pieces) v all =
    recv_all-step s bytes pieces (recv_data s bytes) refl (recv_data-ok s bytes v all.0.1 all.0.2)
      all.0.0 (λ u w. recv_all-Framed u pieces w all.1)

idle-IsValid : IsValid idle
idle-IsValid = inl (record { none_due = refl; empty = refl; short = omega arith; bytes = tt })

-- However TCP cuts the frames of some payloads into pieces of at least three bytes, a receiver that
-- starts idle routes exactly these payloads, each with a terminating zero, in their order, and nothing
-- of the stream is left in it.
pub recv_all-frames :
    (ps : List (List ℕ)) (pieces : List (List ℕ))
    → All Fits ps
    → All IsPiece pieces
    → concat pieces ≡ frames ps
    → (t : Receiver) × (recv_all idle pieces ≡ done t (map terminated ps))
      × IsValid t
      × (pending t ≡ [])
recv_all-frames ps pieces fits all e =
    let (t, ms, e2, f) = recv_all-Framed idle pieces idle-IsValid all in
    let (same, ended) =
      frames_unique ps f.payloads (pending t) fits f.fit (pending-IsPart t f.valid)
        (sym e ∙ f.kept) in
    (t, e2 ∙ ap (done t) (f.routed ∙ ap (map terminated) (sym same)), f.valid, ended)
