-- ===== src/Launch.antt =====
-- How a player is started and what it connects to: `action_Login`, `on_btn_back_clicked` and `RunPlayer`
-- of mainwindow.cpp, `main` and `MainWindow::resizeEvent` of the player in erender/, the constructor's
-- addresses and `RemoteControlRun` of erender/econtroltrans.cpp, and `Connect` of common/eAVClient.cpp.
-- Texts are lists of bytes. `%d` and `atoi` are parameters, and so are the texts of JSON objects.
pub mod Texts
pub mod Reach
mod Tests
use Prim.Native.String.{String}
use vncc.Base.{
  ℕ, ◌+◌, ◌-◌, ◌%◌, ◌^◌, ◌==◌, ltb, Bool, true, false, if◌then◌else◌, List, [], ◌∷◌, ◌++◌, Option,
  none, some, length, ascii, same_bytes,
}
use vncc.Instructions.{ℤ, pos, negsuc}
use vncc.Rpc.{as_short, as_port}

-- The members of `_MOBILEDEVICE` that the login reads, and those of `_WEBSOCKETINFO`.
pub record DeviceData : Type 0 where
  pub local_ip : List ℕ
  pub ip : List ℕ
  pub av_port : ℤ
  pub adb_port : ℤ
  pub web_rtc_port : ℤ

pub record WebSocketData : Type 0 where
  pub ws_ip : List ℕ
  pub ws_port : ℤ

pub data WsCall : Type 0 where
  ws_stop : WsCall
  ws_run : List ℕ → List ℕ → WsCall

-- What the login window keeps and shows: `_avport` and so on, `_id`, the page, the values of the two
-- settings, the calls of the web socket client and the texts of the toasts.
pub record LoginWindow : Type 0 where
  pub avport : ℤ
  pub adbport : ℤ
  pub webrtcport : ℤ
  pub ip : List ℕ
  pub local_ip : List ℕ
  pub id : ℕ
  pub page : ℕ
  pub settings : Option (List ℕ × List ℕ)
  pub ws_calls : List WsCall
  pub toasts : List (List ℕ)

-- The answer to `RHLogin`: the two structs, or the message of a failure.
pub data LoginAnswer : Type 0 where
  logged_in : DeviceData → WebSocketData → LoginAnswer
  refused : List ℕ → LoginAnswer

-- The values of the object that the player gets.
pub data Value : Type 0 where
  int : ℤ → Value
  str : List ℕ → Value

abbrev pub Root : Type 0
Root = List (List ℕ × Value)

-- `root[name]`, as a number and as a text; `none` is the exception of a wrong type.
abbrev pub get_int : List ℕ → Root → Option ℤ
get_int name [] = none
get_int name ((n, int z) ∷ rest) =
    let later = get_int name rest in if same_bytes n name then some z else later
get_int name ((n, str s) ∷ rest) =
    let later = get_int name rest in if same_bytes n name then none else later

abbrev pub get_str : List ℕ → Root → Option (List ℕ)
get_str name [] = none
get_str name ((n, str s) ∷ rest) =
    let later = get_str name rest in if same_bytes n name then some s else later
get_str name ((n, int z) ∷ rest) =
    let later = get_str name rest in if same_bytes n name then none else later

infixl 5 ◌>>=◌
abbrev pub ◌>>=◌ {ℓ κ} : {A : Type ℓ} {B : Type κ} → Option A → (A → Option B) → Option B
none >>= f = none
some a >>= f = f a

-- The globals of the player's `main` and the arguments of its window; the second one is a `short`.
pub record PlayerArgs : Type 0 where
  pub keyid : ℤ
  pub port : ℤ
  pub adbport : ℤ
  pub avport : ℤ
  pub webrtcport : ℤ
  pub ip : List ℕ
  pub local_ip : List ℕ

-- `va`, `remote`, `cmd`, `ws` and `stun` of `resizeEvent`, as the controller keeps them.
pub record Addresses : Type 0 where
  pub av_url : List ℕ
  pub remote_url : List ℕ
  pub cmd_url : List ℕ
  pub ws_url : List ℕ
  pub stun_url : List ℕ

-- `sprintf` into an array of 128 characters; `none` is a write past its end.
abbrev pub in_128 : List ℕ → Option (List ℕ)
in_128 text = if ltb (length text) 128 then some text else none

-- The sum of an `int` and a small number.
abbrev pub add_int : ℤ → ℕ → ℤ
add_int (pos n) k = pos (n + k)
add_int (negsuc n) k = if ltb n k then pos (k - n - 1) else negsuc (n - k)

-- The conversion of an `int` to `short`.
abbrev pub int_as_short : ℤ → ℤ
int_as_short (pos n) = as_short n
int_as_short (negsuc n) = as_short (2 ^ 16 - 1 - n % 2 ^ 16)

-- `find(":")` and the two `substr`: with no colon both are the whole text.
abbrev pub has_colon : List ℕ → Bool
has_colon [] = false
has_colon (c ∷ cs) = if c == 58 then true else has_colon cs

abbrev pub before_colon : List ℕ → List ℕ
before_colon [] = []
before_colon (c ∷ cs) = if c == 58 then [] else c ∷ before_colon cs

abbrev pub after_colon : List ℕ → List ℕ
after_colon [] = []
after_colon (c ∷ cs) = if c == 58 then cs else after_colon cs

abbrev pub split_url : List ℕ → List ℕ × List ℕ
split_url url = (before_colon url, if has_colon url then after_colon url else url)

-- The address that `Loop_run` makes, from the texts of IPv4 addresses by `inet_addr`, which is a parameter.
abbrev pub loop_run : (List ℕ → ℕ) → List ℕ → ℤ → ℕ × ℕ
loop_run inet_addr host port = (inet_addr host, as_port port)

-- `Connect` takes the port as a `short`.
abbrev pub connect_to : (List ℕ → ℕ) → List ℕ → ℤ → ℕ × ℕ
connect_to inet_addr host port = loop_run inet_addr host (int_as_short port)

unfoldable pub on_btn_back_clicked : LoginWindow → LoginWindow
on_btn_back_clicked w = record w { ws_calls = w.ws_calls ++ ws_stop ∷ []; page = 0 }

-- `RunPlayer`: the port is that of the window's server.
unfoldable pub run_player : ℕ → LoginWindow → LoginWindow × Root
run_player port w = (
  record w { id = w.id + 1 },
  (ascii "port", int (pos port))
      ∷ (ascii "keyid", int (pos (w.id + 1)))
      ∷ (ascii "adb", int w.adbport)
      ∷ (ascii "avport", int w.avport)
      ∷ (ascii "webrtc", int w.webrtcport)
      ∷ (ascii "ip", str w.ip)
      ∷ (ascii "lcoal_ip", str w.local_ip)
      ∷ [],
)

-- The player's `main` with an argument; `none` is an exception that nothing catches.
unfoldable pub player_main : {Text : Type 0} → (Text → Option Root) → Text → Option PlayerArgs
player_main parse param = do
  root ← parse param
  keyid ← get_int (ascii "keyid") root
  port ← get_int (ascii "port") root
  adb ← get_int (ascii "adb") root
  av ← get_int (ascii "avport") root
  webrtc ← get_int (ascii "webrtc") root
  ip ← get_str (ascii "ip") root
  local_ip ← get_str (ascii "lcoal_ip") root
  some (record {
    keyid = keyid;
    port = int_as_short port;
    adbport = adb;
    avport = av;
    webrtcport = webrtc;
    ip = ip;
    local_ip = local_ip;
  })

-- Where `_remote_client` and `_cmd_client` connect.
unfoldable pub remote_control_run : (List ℕ → ℕ) → (List ℕ → ℤ) → Addresses → (ℕ × ℕ) × (ℕ × ℕ)
remote_control_run inet_addr atoi a =
    let (remote, remote_port) = split_url a.remote_url in
    let (cmd, cmd_port) = split_url a.cmd_url in
    (connect_to inet_addr remote (atoi remote_port), connect_to inet_addr cmd (atoi cmd_port))

module _ (show : ℤ → List ℕ) where
  abbrev pub host_port : List ℕ → ℤ → List ℕ
  host_port host port = host ++ 58 ∷ show port

  -- `action_Login`, from the answer on. It formats the addresses for the log as well.
  unfoldable pub action_login : List ℕ → List ℕ → LoginAnswer → LoginWindow → Option LoginWindow
  action_login acc pwd (logged_in d s) w = do
    _ ← in_128 (host_port d.local_ip d.av_port)
    _ ← in_128 (host_port d.ip (add_int d.adb_port 512))
    _ ← in_128 (host_port d.ip (add_int d.adb_port 256))
    _ ← in_128 (host_port d.ip d.web_rtc_port)
    _ ← in_128 (host_port d.ip (pos 3478))
    ws ← in_128 (ascii "ws://" ++ host_port s.ws_ip s.ws_port)
    some (record w {
      avport = d.av_port;
      adbport = d.adb_port;
      webrtcport = d.web_rtc_port;
      ip = d.ip;
      local_ip = d.local_ip;
      page = 1;
      settings = some (acc, pwd);
      ws_calls = w.ws_calls ++ ws_stop ∷ ws_run ws acc ∷ [];
    })
  action_login acc pwd (refused msg) w = some (record w { toasts = w.toasts ++ msg ∷ [] })

  -- The first `resizeEvent`.
  unfoldable pub resize_event : PlayerArgs → Option Addresses
  resize_event p = do
    va ← in_128 (host_port p.local_ip p.avport)
    remote ← in_128 (host_port p.ip (add_int p.adbport 512))
    cmd ← in_128 (host_port p.ip (add_int p.adbport 256))
    ws ← in_128 (ascii "ws://" ++ host_port p.ip p.webrtcport)
    stun ← in_128 (ascii "stun:" ++ host_port p.ip (pos 3478))
    some (record { av_url = va; remote_url = remote; cmd_url = cmd; ws_url = ws; stun_url = stun })
