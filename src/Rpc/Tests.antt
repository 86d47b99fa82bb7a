-- ===== src/Rpc/Tests.antt =====
-- The calls between the windows, at concrete ports.
use vncc.Base.{ℕ, ◌==◌, ◌≡◌, refl, Bool, true, not, [], ◌∷◌, some, arith}
use vncc.Rpc.{generate_rpc_layout, connect_srv, show_btns, connect_all}
use vncc.Rpc.Search.{Ends, searches-Ends}
use vncc.Rpc.Newest.{show_btns-connect_all}

abbrev only : ℕ → Bool
only port = not (port == 30157)

abbrev serves : ℕ → Bool
serves port = true

searches-Ends_example :
    Ends only serves 26186 (generate_rpc_layout only serves)
    × Ends only serves 30156 (connect_srv only serves)
searches-Ends_example = searches-Ends only serves

next_port : connect_srv only serves ≡ some (30157, true)
unfolding connect_srv vncc.Rpc.search_port
next_port = refl

show_btns-connect_all_example :
    show_btns (connect_all ((2, 40000) ∷ (1, 30156) ∷ (3, 30157) ∷ (2, 30158) ∷ []) [])
    ≡ some (3, 30157)
show_btns-connect_all_example =
    show_btns-connect_all 2 40000 ((1, 30156) ∷ (3, 30157) ∷ (2, 30158) ∷ [])
      (omega arith, (omega arith, (omega arith, (omega arith, tt))))
