-- ===== src/Rpc/Search.antt =====
-- The port that a search ends with.
use vncc.Base.{
  ℕ, zero, suc, ◌+◌, ◌%◌, ◌^◌, ◌≤◌, ◌<◌, ◌≡◌, ◌⊎◌, ◌==◌, refl, inl, inr, Bool, true, false, not,
  ◌&&◌, Bool-cases, Option, some, arith, subst, sym, ==_iff,
}
use vncc.Rpc.{search_port, generate_rpc_layout, connect_srv}

module _ (used serves : ℕ → Bool) where
  -- A port on which a server can be made.
  abbrev pub free : ℕ → Bool
  free port = not (used port) && serves port

  -- No port from the first one on and below the other is free.
  abbrev pub NoneFree : ℕ → ℕ → Type 0
  NoneFree first last = (p : ℕ) → first ≤ p → p < last → free p ≡ false

  -- The search ends, with the first free port or, if there is none, with 0.
  abbrev pub Ends : ℕ → Option (ℕ × Bool) → Type 0
  Ends first found =
      ((port : ℕ) × (found ≡ some (port, true))
        × (first ≤ port)
        × (port < 2 ^ 16)
        × (free port ≡ true)
        × NoneFree first port)
      ⊎ ((found ≡ some (0, false)) × NoneFree first (2 ^ 16))

  NoneFree-before :
      (first last : ℕ) → free first ≡ false → NoneFree (first + 1) last → NoneFree first last
  NoneFree-before first last e none p low high = elim (Bool-cases (p == first)) [
    | inl same ↦ subst (λ q. free q ≡ false) (sym ((==_iff p first).0 same)) e
    | inr other ↦ none p (ground (arith, other)) high
  ]

  Ends-before :
      (first : ℕ) (found : Option (ℕ × Bool))
      → free first ≡ false
      → Ends (first + 1) found
      → Ends first found
  Ends-before first found e (inl (port, eq, low, high, is_free, none)) =
      inl (port, eq, omega arith, high, is_free, NoneFree-before first port e none)
  Ends-before first found e (inr (eq, none)) = inr (eq, NoneFree-before first (2 ^ 16) e none)

  pub search_port-Ends :
      (fuel port : ℕ)
      → port < 2 ^ 16
      → 2 ^ 16 ≤ fuel + port
      → Ends port (search_port used serves fuel port)
  unfolding search_port
  search_port-Ends zero port lt enough = absurd (omega arith)
  search_port-Ends (suc fuel) port lt enough = elim (Bool-cases (free port)) [
    | inl e ↦ inl (port, rw e refl, omega arith, lt, e, λ p a b. absurd (omega arith))
    | inr e ↦ elim (Bool-cases ((port + 1) % 2 ^ 16 == 0)) [
      | inl end ↦ inr (
        rw (e, end) refl,
        NoneFree-before port (2 ^ 16) e (λ p a b. absurd (ground (arith, end))),
      )
      | inr more ↦
          rw (e, more)
            (Ends-before port _ e (
              subst (λ q. Ends q (search_port used serves fuel ((port + 1) % 2 ^ 16)))
                (ground (arith, more))
                (search_port-Ends fuel ((port + 1) % 2 ^ 16) (omega arith) (ground (arith, more)))))
    ]
  ]

  -- Both searches end: with a server on the first port, from the window's or the player's on, on which
  -- one can be made, or, if there is none up to the last port, with port 0 and no server.
  pub searches-Ends :
      Ends 26186 (generate_rpc_layout used serves) × Ends 30156 (connect_srv used serves)
  unfolding generate_rpc_layout connect_srv
  searches-Ends = (
    search_port-Ends (2 ^ 16) 26186 (omega arith) (omega arith),
    search_port-Ends (2 ^ 16) 30156 (omega arith) (omega arith),
  )
