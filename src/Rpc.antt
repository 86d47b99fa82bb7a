-- ===== src/Rpc.antt =====
-- The calls between the login window and the players: `eRpcManager` of erpcmanager.cpp and `ConnectSrv`
-- of erender/mainwindow.cpp. Whether a port is used and whether a server can be made on it
-- (`testTcpPortUsed` and the constructor of `rpc::server`) are parameters; a client is the port that it
-- was made for. A port is an `unsigned short`.
pub mod Search
pub mod Newest
mod Tests
use vncc.Base.{
  ℕ, zero, suc, ◌+◌, ◌-◌, ◌%◌, ◌^◌, ◌==◌, ltb, Bool, true, false, not, ◌&&◌, if◌then◌else◌, List,
  [], ◌∷◌, Option, none, some,
}
use vncc.Instructions.{ℤ, pos, negsuc}

module _ (used serves : ℕ → Bool) where
  -- The loop of `GenerateRpcLayout` and of `ConnectSrv`: the port at its end, and whether a server was
  -- made. `none` is a loop that has not ended.
  unfoldable pub search_port : ℕ → ℕ → Option (ℕ × Bool)
  search_port zero port = none
  search_port (suc fuel) port =
      let next = (port + 1) % 2 ^ 16 in
      let rest = search_port fuel next in
      if not (used port) && serves port
      then some (port, true)
      else if next == 0
      then some (0, false)
      else rest

  unfoldable pub generate_rpc_layout : Option (ℕ × Bool)
  generate_rpc_layout = search_port (2 ^ 16) 26186

  -- The port that is told to the login window with "connect_rpc", for the window whose `_port` is that
  -- of the class.
  unfoldable pub connect_srv : Option (ℕ × Bool)
  connect_srv = search_port (2 ^ 16) 30156

-- A conversion to `short`, and one of a `short` to `unsigned short`.
abbrev pub as_short : ℕ → ℤ
as_short n =
    if ltb (n % 2 ^ 16) (2 ^ 15) then pos (n % 2 ^ 16) else negsuc (2 ^ 16 - n % 2 ^ 16 - 1)

abbrev pub as_port : ℤ → ℕ
as_port (pos n) = n % 2 ^ 16
as_port (negsuc n) = (2 ^ 16 - 1 - n % 2 ^ 16) % 2 ^ 16

-- `_rpc_clis`, a `std::map` from identifiers to clients in the order of the identifiers.
abbrev pub Clients : Type 0
Clients = List (ℕ × ℕ)

-- `find` and `insert`: a client that is there stays.
unfoldable pub insert_new : ℕ → ℕ → Clients → Clients
insert_new id client [] = (id, client) ∷ []
insert_new id client ((j, c) ∷ rest) =
    let later = insert_new id client rest in
    if j == id
    then (j, c) ∷ rest
    else if ltb id j
    then (id, client) ∷ (j, c) ∷ rest
    else (j, c) ∷ later

-- `rpc_connect_handle` with the slot that its signal calls.
unfoldable pub rpc_connect : ℕ → ℕ → Clients → Clients
rpc_connect id port clients = insert_new id (as_port (as_short port)) clients

-- `rbegin`, for a map with this first entry.
abbrev pub last_of : ℕ × ℕ → Clients → ℕ × ℕ
last_of c [] = c
last_of c (d ∷ rest) = last_of d rest

-- `ShowBtns`: the client that "active_device" is called at.
unfoldable pub show_btns : Clients → Option (ℕ × ℕ)
show_btns [] = none
show_btns (c ∷ rest) = some (last_of c rest)

-- The players that connected, in turn.
unfoldable pub connect_all : List (ℕ × ℕ) → Clients → Clients
connect_all [] clients = clients
connect_all ((id, port) ∷ calls) clients = connect_all calls (rpc_connect id port clients)
