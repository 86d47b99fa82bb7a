-- ===== src/Launch/Tests.antt =====
-- A login and the player that it starts. The numbers stand for their texts.
use vncc.Base.{ℕ, ◌+◌, ◌≡◌, refl, List, [], ◌∷◌, Option, none, some, arith, ascii}
use vncc.Instructions.{ℤ, pos, negsuc}
use vncc.Rpc.{as_port}
use vncc.Launch.{
  DeviceData, WebSocketData, LoginWindow, logged_in, Root, PlayerArgs, Addresses, host_port,
  action_login, run_player, player_main, resize_event, remote_control_run,
}
use vncc.Launch.Texts.{IsInt, all_ascii-IsAscii}
use vncc.Launch.Reach.{action_login-remote_control_run}

abbrev show : ℤ → List ℕ
show (pos n) = n ∷ []
show (negsuc n) = 45 ∷ n ∷ []

abbrev atoi : List ℕ → ℤ
atoi [] = pos 0
atoi (n ∷ []) = pos n
atoi (sign ∷ n ∷ rest) = negsuc n

read_back : (z : ℤ) → IsInt z → atoi (show z) ≡ z
read_back (pos n) small = refl
read_back (negsuc n) small = refl

-- Any number for an address: the sum of its characters.
abbrev inet_addr : List ℕ → ℕ
inet_addr [] = 0
inet_addr (c ∷ cs) = c + inet_addr cs

abbrev dump : Root → Root
dump r = r

abbrev parse : Root → Option Root
parse r = some r

abbrev device : DeviceData
device = record {
  local_ip = ascii "10.0.0.1";
  ip = ascii "1.2.3.4";
  av_port = pos 17001;
  adb_port = pos 15001;
  web_rtc_port = pos 25002;
}

abbrev socket : WebSocketData
socket = record { ws_ip = ascii "1.2.3.4"; ws_port = pos 80 }

abbrev window : LoginWindow
window = record {
  avport = pos 0;
  adbport = pos 0;
  webrtcport = pos 0;
  ip = [];
  local_ip = [];
  id = 4;
  page = 0;
  settings = none;
  ws_calls = [];
  toasts = [];
}

action_login-remote_control_run_example :
    (w' : LoginWindow) × (p : PlayerArgs) × (a : Addresses) × (action_login show
        (ascii "me")
        (ascii "pw")
        (logged_in device socket)
        window
      ≡ some w')
    × (player_main parse (dump (run_player 26186 w').1) ≡ some p)
    × (resize_event show p ≡ some a)
    × (remote_control_run inet_addr atoi a ≡ ((340, 15513), (340, 15257)))
    × (a.av_url ≡ host_port show (ascii "10.0.0.1") (pos 17001))
    × (as_port p.port ≡ 26186)
    × (p.keyid ≡ pos 5)
action_login-remote_control_run_example =
    action_login-remote_control_run show inet_addr atoi read_back dump parse
      (λ r members names. record {
        back = r;
        parses = refl;
        ints = λ name. refl;
        strs = λ name. refl;
      })
      (ascii "me") (ascii "pw") device socket window 26186 15001
      (record {
        av = omega arith;
        remote = omega arith;
        cmd = omega arith;
        plain_ws = omega arith;
        plain_stun = omega arith;
        ws = omega arith;
        stun = omega arith;
        client = omega arith;
      })
      (record {
        av_int = omega arith;
        adb_int = omega arith;
        rtc_int = omega arith;
        ip_ascii = all_ascii-IsAscii (ascii "1.2.3.4") refl;
        local_ascii = all_ascii-IsAscii (ascii "10.0.0.1") refl;
      })
      (refl, (refl, (refl, (refl, (refl, (refl, (refl, tt))))))) (omega arith) refl (omega arith)
      (omega arith)
