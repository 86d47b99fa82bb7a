-- ===== src/Socket.antt =====
-- eWebScoketCli.cpp: the web socket client, whose handlers run on the loop thread of the current
-- `_cli`, with `Run`, `Stop` and the detached threads of `ReConnect` beside it. Each handler is one
-- step. websocketpp and asio are what the steps allow: a loop that has been stopped runs no handler
-- and no timer, and sends nothing; its thread ends some time later. Whether the `close` of `ReConnect`
-- throws is left open by the steps; it does on a connection that has closed or is gone, since it is the
-- overload without an error code. `strstr` and the JSON library are parameters, and a message is the object that is dumped into it.
pub mod Stopping
pub mod Retry
mod Tests
use Prim.Native.String.{String}
use package.text.Mathlib.Text.{◌==◌}
use vncc.Base.{
  ℕ, suc, Bool, true, false, if◌then◌else◌, ◌||◌, not, List, [], ◌∷◌, ◌++◌, Option, none, some, ◌≡◌,
}

pub data Device : Type 0 where
  phone pad tv box ios : Device

abbrev pub device_name : Device → String
device_name phone = "phone"
device_name pad = "pad"
device_name tv = "tv"
device_name box = "box"
device_name ios = "ios"

-- The messages that the client writes: the operation and its members.
pub data Message : Type 0 where
  login : (device user : String) → Message
  heart : (user : String) → Message
  goto : (device user : String) → Message
  videolock videounlock : (user device : String) → Message

pub record Socket : Type 0 where
  pub has_cli : Bool  -- `_cli` is not null
  pub b_run : Bool
  pub b_done : Bool
  pub b_stop_done : Bool
  pub user : String
  pub live : Bool  -- the loop of `_cli` runs
  pub ending : ℕ  -- threads whose loop was stopped and that have not left `loop`
  pub hearts : ℕ  -- timers of `on_heart`
  pub retries : ℕ  -- timers of `ReConnect`
  pub spawned : ℕ  -- detached threads about to call `Run`
  pub posted : List Message  -- timers of `SafeSend`
  pub sent : List Message
  pub shown : List String  -- `ShowBtns`

abbrev pub initial : Socket
initial = record {
  has_cli = false;
  b_run = false;
  b_done = false;
  b_stop_done = false;
  user = "";
  live = false;
  ending = 0;
  hearts = 0;
  retries = 0;
  spawned = 0;
  posted = [];
  sent = [];
  shown = [];
}

unfoldable pub send : Message → Socket → Socket
send m s = if s.live then record s { sent = s.sent ++ m ∷ [] } else s

-- `ok`: the URL is valid. The timers of the client before are gone with it.
unfoldable pub run : Bool → String → Socket → Socket
run ok user s = record s {
  has_cli = true;
  b_run = true;
  b_done = false;
  b_stop_done = false;
  user = user;
  live = ok;
  hearts = 0;
  retries = 0;
  posted = [];
}

-- `_cli->stop()`.
unfoldable pub stop_loop : Socket → Socket
stop_loop s = if s.live then record s { live = false; ending = suc s.ending } else s

unfoldable pub stop : Socket → Socket
stop s =
    if not s.b_run || (not s.has_cli || s.b_stop_done)
    then s
    else stop_loop (record s { b_done = true; b_stop_done = true })

unfoldable pub reconnect : Socket → Socket
reconnect s = if s.b_done then s else record s { retries = suc s.retries }

unfoldable pub login_window : Socket → Socket
login_window s = send (login "qilin" s.user) s

unfoldable pub on_open : Socket → Socket
on_open s = let t = login_window s in record t { hearts = suc t.hearts }

unfoldable pub on_close : Socket → Socket
on_close s = if s.b_done then s else reconnect s

unfoldable pub on_fail : Socket → Socket
on_fail s = reconnect s

-- One timer of `on_heart`, which stands again unless the client is done.
unfoldable pub on_heart : ℕ → Socket → Socket
on_heart others s =
    if s.b_done
    then record s { hearts = others }
    else record (send (heart s.user) s) { hearts = suc others }

-- The timer of `ReConnect`. `closes`: the call of `close` does not throw. What it throws ends the loop,
-- which catches it, and no thread is started.
unfoldable pub retry : Bool → ℕ → Socket → Socket
retry closes others s =
    let t = stop_loop (record s { retries = others }) in
    if closes then record t { spawned = suc s.spawned } else t

-- The end of `loop`.
unfoldable pub loop_end : ℕ → Socket → Socket
loop_end others s = record s { ending = others; b_run = false }

unfoldable pub switch_device : String → Socket → Socket
switch_device device s =
    if s.b_done then s else record s { posted = s.posted ++ goto device s.user ∷ [] }

unfoldable pub query_video_locd_state : Socket → Socket
query_video_locd_state s = send (videolock s.user "window") s

unfoldable pub free_video : Socket → Socket
free_video s = send (videounlock s.user "window") s

-- Of the messages that come only the list of clients has an effect: the tasks for "show", "close" and
-- "isexist" are made and not posted.
module _ (contains : String → String → Bool) (clients_of : String → Option String) where
  abbrev show_clients : Option String → Socket → Socket
  show_clients none s = s
  show_clients (some clients) s = record s { shown = s.shown ++ clients ∷ [] }

  unfoldable pub on_message : String → Socket → Socket
  on_message payload s =
      if payload == "show"
      then s
      else if contains payload "close"
      then s
      else if contains payload "isexist"
      then s
      else if contains payload "clients"
      then show_clients (clients_of payload) s
      else s

  -- What happens to the client after its first `Run`.
  pub data Step (s : Socket) : Socket → Type 0 where
    opened : s.live ≡ true → Step s (on_open s)
    closed : s.live ≡ true → Step s (on_close s)
    failed : s.live ≡ true → Step s (on_fail s)
    message : s.live ≡ true → (payload : String) → Step s (on_message payload s)
    beat : s.live ≡ true → (others : ℕ) → s.hearts ≡ suc others → Step s (on_heart others s)
    timer :
        s.live ≡ true
        → (closes : Bool) (others : ℕ) → s.retries ≡ suc others
        → Step s (retry closes others s)
    flush :
        s.live ≡ true
        → (m : Message) (rest : List Message) → s.posted ≡ m ∷ rest
        → Step s (send m (record s { posted = rest }))
    -- The loop returns by itself when nothing is left to wait for.
    idle :
        s.live ≡ true
        → s.hearts ≡ 0
        → s.retries ≡ 0
        → Step s (loop_end s.ending (record s { live = false }))
    ended : (others : ℕ) → s.ending ≡ suc others → Step s (loop_end others s)
    again :
        (ok : Bool) (others : ℕ)
        → s.spawned ≡ suc others
        → Step s (run ok s.user (record s { spawned = others }))
    stopped : Step s (stop s)
    switched : (device : Device) → Step s (switch_device (device_name device) s)
    queried : Step s (query_video_locd_state s)
    freed : Step s (free_video s)

  pub data Steps (s : Socket) : Socket → Type 0 where
    here : Steps s s
    then : {t u : Socket} → Steps s t → Step t u → Steps s u
