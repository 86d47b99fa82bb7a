-- ===== src/Rpc/Newest.antt =====
-- The player that is told which devices there are.
use vncc.Base.{
  ℕ, ◌%◌, ◌^◌, ◌≤◌, ◌<◌, ◌≡◌, ◌==◌, ap, sym, subst, ◌∙◌, ltb, if◌then◌else◌, if_true, if_false,
  Bool-cases, inl, inr, List, [], ◌∷◌, All, some, arith,
}
use vncc.Rpc.{as_short, as_port, Clients, insert_new, rpc_connect, last_of, show_btns, connect_all}

-- A port survives its way through a `short`.
pub as_port-as_short : (port : ℕ) → port < 2 ^ 16 → as_port (as_short port) ≡ port
as_port-as_short port h = elim (Bool-cases (ltb (port % 2 ^ 16) (2 ^ 15))) [
  | inl e ↦ rw e (omega arith)
  | inr e ↦ rw e (ground (arith, e))
]

-- Of two players the one with the greater identifier, and the first one if there is none.
abbrev pub newer : ℕ × ℕ → ℕ × ℕ → ℕ × ℕ
newer (m, p) (id, q) = if ltb m id then (id, q) else (m, p)

abbrev pub newest : ℕ × ℕ → List (ℕ × ℕ) → ℕ × ℕ
newest best [] = best
newest best (call ∷ calls) = newest (newer best call) calls

-- The identifiers go up from `k` on.
abbrev IsAfter : ℕ → Clients → Type 0
IsAfter k [] = Unit
IsAfter k ((j, c) ∷ rest) = (k < j) × IsAfter j rest

last_of-ge : (j c : ℕ) (rest : Clients) → IsAfter j rest → j ≤ (last_of (j, c) rest).0
last_of-ge j c [] a = omega arith
last_of-ge j c ((k, d) ∷ rest) (lt, a) = omega (arith, last_of-ge k d rest a)

newer-old : (best : ℕ × ℕ) (id c : ℕ) → id ≤ best.0 → best ≡ newer best (id, c)
newer-old (m, p) id c h = sym (if_false (ltb m id) (id, c) (m, p) (ground (arith, h)))

newer-new : (m p id c : ℕ) → m < id → (id, c) ≡ newer (m, p) (id, c)
newer-new m p id c h = sym (if_true (ltb m id) (id, c) (m, p) (ground (arith, h)))

-- What an insertion behind `j` does: the order stays, and the last entry is the newer one.
record Inserted (j c0 id c : ℕ) (rest : Clients) : Type 0 where
  order : IsAfter j (insert_new id c rest)
  greatest : last_of (j, c0) (insert_new id c rest) ≡ newer (last_of (j, c0) rest) (id, c)

insert_new-Inserted :
    (j c0 id c : ℕ) (rest : Clients) → j < id → IsAfter j rest → Inserted j c0 id c rest
unfolding insert_new
insert_new-Inserted j c0 id c [] lt a = record {
  order = (lt, tt);
  greatest = newer-new j c0 id c lt;
}
insert_new-Inserted j c0 id c ((k, d) ∷ rest) lt (after, a) = elim (Bool-cases (k == id)) [
  | inl e ↦ record {
    order = rw e (after, a);
    greatest =
        rw e (newer-old (last_of (k, d) rest) id c (ground (arith, last_of-ge k d rest a, e)));
  }
  | inr e ↦ elim (Bool-cases (ltb id k)) [
    | inl f ↦ record {
      order = rw (e, f) (lt, (ground (arith, f), a));
      greatest =
          rw (e, f)
            (newer-old (last_of (k, d) rest) id c (ground (arith, last_of-ge k d rest a, f)));
    }
    | inr f ↦
        let more = insert_new-Inserted k d id c rest (ground (arith, e, f)) a in
        record { order = rw (e, f) (after, more.order); greatest = rw (e, f) more.greatest }
  ]
]

-- A map with an entry, in order, whose last entry is `best`.
abbrev Holds : ℕ × ℕ → Clients → Type 0
Holds best [] = ⊥
Holds best ((j, c) ∷ rest) = IsAfter j rest × (last_of (j, c) rest ≡ best)

insert_new-Holds :
    (best : ℕ × ℕ) (id c : ℕ) (clients : Clients)
    → Holds best clients
    → Holds (newer best (id, c)) (insert_new id c clients)
unfolding insert_new
insert_new-Holds best id c [] h = elim h [ ]
insert_new-Holds best id c ((k, d) ∷ rest) (a, l) = elim (Bool-cases (k == id)) [
  | inl e ↦ rw e (a, l ∙ newer-old best id c (ground (arith, ge, e)))
  | inr e ↦ elim (Bool-cases (ltb id k)) [
    | inl f ↦ rw (e, f) ((ground (arith, f), a), l ∙ newer-old best id c (ground (arith, ge, f)))
    | inr f ↦
        let more = insert_new-Inserted k d id c rest (ground (arith, e, f)) a in
        rw (e, f) (more.order, more.greatest ∙ ap (λ b. newer b (id, c)) l)
  ]
]
  where
    ge : k ≤ best.0
    ge = subst (λ b. k ≤ b.0) l (last_of-ge k d rest a)

show_btns-Holds :
    (best : ℕ × ℕ) (clients : Clients) → Holds best clients → show_btns clients ≡ some best
unfolding show_btns
show_btns-Holds best [] h = elim h [ ]
show_btns-Holds best ((j, c) ∷ rest) (a, l) = ap some l

rpc_connect-Holds :
    (best : ℕ × ℕ) (id port : ℕ) (clients : Clients)
    → port < 2 ^ 16
    → Holds best clients
    → Holds (newer best (id, port)) (rpc_connect id port clients)
unfolding rpc_connect
rpc_connect-Holds best id port clients small h =
    subst (λ p. Holds (newer best (id, port)) (insert_new id p clients))
      (sym (as_port-as_short port small)) (insert_new-Holds best id port clients h)

connect_all-Holds :
    (calls : List (ℕ × ℕ)) (best : ℕ × ℕ) (clients : Clients)
    → All (λ call. call.1 < 2 ^ 16) calls
    → Holds best clients
    → Holds (newest best calls) (connect_all calls clients)
unfolding connect_all
connect_all-Holds [] best clients small h = h
connect_all-Holds ((id, port) ∷ calls) best clients (lt, small) h =
    connect_all-Holds calls (newer best (id, port)) (rpc_connect id port clients) small
      (rpc_connect-Holds best id port clients lt h)

-- After players have connected, each with the port of its server, the buttons are shown by the one
-- with the greatest identifier, at the port that it connected with first: if the ports are below
-- 65536. A port comes through the `short`s on its way unchanged.
pub show_btns-connect_all :
    (id port : ℕ) (calls : List (ℕ × ℕ))
    → All (λ call. call.1 < 2 ^ 16) ((id, port) ∷ calls)
    → show_btns (connect_all ((id, port) ∷ calls) []) ≡ some (newest (id, port) calls)
unfolding connect_all rpc_connect insert_new
show_btns-connect_all id port calls (lt, small) = show_btns-Holds _ _ (
    connect_all-Holds calls (id, port) ((id, as_port (as_short port)) ∷ []) small
      (tt, ap (λ p. (id, p)) (as_port-as_short port lt)))
