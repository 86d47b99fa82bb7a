-- ===== src/Launch/Reach.antt =====
-- From a login to the connections of the player that it starts.
use vncc.Base.{
  ℕ, ◌+◌, ◌^◌, ◌<◌, ◌≡◌, refl, ap, ◌∙◌, true, List, [], ◌∷◌, ◌++◌, All, Option, some, length, arith,
  ascii,
}
use vncc.Instructions.{ℤ, pos}
use vncc.Rpc.{as_short, as_port}
use vncc.Rpc.Newest.{as_port-as_short}
use vncc.Launch.Texts.{
  IsHost, split_url-host, in_128-fits, IsInt, IsAscii, all_ascii-IsAscii, IsMember, all_new,
  ReadBack,
}
use vncc.Launch.{
  DeviceData, WebSocketData, ws_stop, ws_run, LoginWindow, logged_in, Root, PlayerArgs, Addresses,
  add_int, split_url, connect_to, host_port, action_login, run_player, player_main, resize_event,
  remote_control_run,
}

module _ (show : ℤ → List ℕ) where
  -- The texts that the two programs write for a login fit their arrays.
  pub record AllFit (d : DeviceData) (s : WebSocketData) : Type 0 where
    pub av : length (host_port show d.local_ip d.av_port) < 128
    pub remote : length (host_port show d.ip (add_int d.adb_port 512)) < 128
    pub cmd : length (host_port show d.ip (add_int d.adb_port 256)) < 128
    pub plain_ws : length (host_port show d.ip d.web_rtc_port) < 128
    pub plain_stun : length (host_port show d.ip (pos 3478)) < 128
    pub ws : length (ascii "ws://" ++ host_port show d.ip d.web_rtc_port) < 128
    pub stun : length (ascii "stun:" ++ host_port show d.ip (pos 3478)) < 128
    pub client : length (ascii "ws://" ++ host_port show s.ws_ip s.ws_port) < 128

  -- The numbers and the texts of the device.
  pub record IsDevice (d : DeviceData) : Type 0 where
    pub av_int : IsInt d.av_port
    pub adb_int : IsInt d.adb_port
    pub rtc_int : IsInt d.web_rtc_port
    pub ip_ascii : IsAscii d.ip
    pub local_ascii : IsAscii d.local_ip

  after_login : List ℕ → List ℕ → DeviceData → WebSocketData → LoginWindow → LoginWindow
  after_login acc pwd d s w = record w {
    avport = d.av_port;
    adbport = d.adb_port;
    webrtcport = d.web_rtc_port;
    ip = d.ip;
    local_ip = d.local_ip;
    page = 1;
    settings = some (acc, pwd);
    ws_calls =
        w.ws_calls ++ ws_stop ∷ ws_run (ascii "ws://" ++ host_port show s.ws_ip s.ws_port) acc ∷ [];
  }

  action_login_succeeds :
      (acc pwd : List ℕ) (d : DeviceData) (s : WebSocketData) (w : LoginWindow)
      → AllFit d s
      → action_login show acc pwd (logged_in d s) w ≡ some (after_login acc pwd d s w)
  unfolding action_login after_login
  action_login_succeeds acc pwd d s w f =
      rw
        (
          in_128-fits _ f.av,
          in_128-fits _ f.remote,
          in_128-fits _ f.cmd,
          in_128-fits _ f.plain_ws,
          in_128-fits _ f.plain_stun,
          in_128-fits _ f.client,
        )
        refl

  abbrev urls : PlayerArgs → Addresses
  urls p = record {
    av_url = host_port show p.local_ip p.avport;
    remote_url = host_port show p.ip (add_int p.adbport 512);
    cmd_url = host_port show p.ip (add_int p.adbport 256);
    ws_url = ascii "ws://" ++ host_port show p.ip p.webrtcport;
    stun_url = ascii "stun:" ++ host_port show p.ip (pos 3478);
  }

  abbrev args_of : ℕ → ℕ → DeviceData → PlayerArgs
  args_of port id d = record {
    keyid = pos id;
    port = as_short port;
    adbport = d.adb_port;
    avport = d.av_port;
    webrtcport = d.web_rtc_port;
    ip = d.ip;
    local_ip = d.local_ip;
  }

  resize_event_makes :
      (port id : ℕ) (d : DeviceData) (s : WebSocketData)
      → AllFit d s
      → resize_event show (args_of port id d) ≡ some (urls (args_of port id d))
  unfolding resize_event
  resize_event_makes port id d s f =
      rw
        (
          in_128-fits _ f.av,
          in_128-fits _ f.remote,
          in_128-fits _ f.cmd,
          in_128-fits _ f.ws,
          in_128-fits _ f.stun,
        )
        refl

  module _ (inet_addr : List ℕ → ℕ) (atoi : List ℕ → ℤ)
      (read_back : (z : ℤ) → IsInt z → atoi (show z) ≡ z) where
    connects :
        (host : List ℕ) (n : ℕ)
        → IsHost host
        → n < 2 ^ 16
        → connect_to inet_addr
            (split_url (host_port show host (pos n))).0
            (atoi (split_url (host_port show host (pos n))).1)
          ≡ (inet_addr host, n)
    connects host n h small =
        ap (λ (r : List ℕ × List ℕ). connect_to inet_addr r.0 (atoi r.1))
          (split_url-host host (show (pos n)) h)
        ∙ ap (connect_to inet_addr host) (read_back (pos n) (omega arith))
        ∙ ap (λ p. (inet_addr host, p)) (as_port-as_short n small)

    module _ {Text : Type 0} (dump : Root → Text) (parse : Text → Option Root)
        (parsed : (r : Root) → All IsMember r → all_new r ≡ true → ReadBack dump parse r) where
      made : List ℕ → List ℕ → DeviceData → WebSocketData → LoginWindow → ℕ → Root
      made acc pwd d s w port = (run_player port (after_login acc pwd d s w)).1

      made-IsMember :
          (acc pwd : List ℕ) (d : DeviceData) (s : WebSocketData) (w : LoginWindow) (port : ℕ)
          → IsDevice d
          → port < 2 ^ 16
          → w.id + 1 < 2 ^ 31
          → All IsMember (made acc pwd d s w port)
      unfolding made run_player after_login
      made-IsMember acc pwd d s w port v small few = (
        (all_ascii-IsAscii (ascii "port") refl, omega arith),
        (
          (all_ascii-IsAscii (ascii "keyid") refl, few),
          (
            (all_ascii-IsAscii (ascii "adb") refl, v.adb_int),
            (
              (all_ascii-IsAscii (ascii "avport") refl, v.av_int),
              (
                (all_ascii-IsAscii (ascii "webrtc") refl, v.rtc_int),
                (
                  (all_ascii-IsAscii (ascii "ip") refl, v.ip_ascii),
                  ((all_ascii-IsAscii (ascii "lcoal_ip") refl, v.local_ascii), tt),
                ),
              ),
            ),
          ),
        ),
      )

      main_reads :
          (acc pwd : List ℕ) (d : DeviceData) (s : WebSocketData) (w : LoginWindow) (port : ℕ)
          → ReadBack dump parse (made acc pwd d s w port)
          → player_main parse (dump (made acc pwd d s w port)) ≡ some (args_of port (w.id + 1) d)
      unfolding player_main made run_player after_login
      main_reads acc pwd d s w port b =
          rw
            (
              b.parses,
              b.ints (ascii "keyid"),
              b.ints (ascii "port"),
              b.ints (ascii "adb"),
              b.ints (ascii "avport"),
              b.ints (ascii "webrtc"),
              b.strs (ascii "ip"),
              b.strs (ascii "lcoal_ip"),
            )
            refl

      -- After a login that succeeds, the player that the window starts gets the window's port and an
      -- identifier of its own, makes its addresses, and its two clients connect to what `inet_addr` makes of
      -- the device's address, at the adb port and 512 and at the adb port and 256, with the video at the
      -- local address: if the numbers are `int`s, the texts are ASCII and fit their arrays, the device's
      -- address has no colon, the adb port and 512 is below 65536, `atoi` reads back the `int`s that are
      -- printed, and the members of an object of `int`s and ASCII texts with different names are found
      -- again in its text.
      pub action_login-remote_control_run :
          (acc pwd : List ℕ) (d : DeviceData) (s : WebSocketData) (w : LoginWindow) (port adb : ℕ)
          → AllFit d s
          → IsDevice d
          → IsHost d.ip
          → w.id + 1 < 2 ^ 31
          → d.adb_port ≡ pos adb
          → adb + 512 < 2 ^ 16
          → port < 2 ^ 16
          → (w' : LoginWindow) × (p : PlayerArgs) × (a : Addresses) × (action_login show acc pwd
                (logged_in d s)
                w
              ≡ some w')
            × (player_main parse (dump (run_player port w').1) ≡ some p)
            × (resize_event show p ≡ some a)
            × (remote_control_run inet_addr atoi a
                ≡ ((inet_addr d.ip, adb + 512), (inet_addr d.ip, adb + 256)))
            × (a.av_url ≡ host_port show d.local_ip d.av_port)
            × (as_port p.port ≡ port)
            × (p.keyid ≡ pos (w.id + 1))
      unfolding remote_control_run made run_player after_login
      action_login-remote_control_run acc pwd d s w port adb f v host few e small small_port = (
        after_login acc pwd d s w,
        args_of port (w.id + 1) d,
        urls (args_of port (w.id + 1) d),
        action_login_succeeds acc pwd d s w f,
        main_reads acc pwd d s w port (
            parsed (made acc pwd d s w port) (made-IsMember acc pwd d s w port v small_port few)
              refl),
        resize_event_makes port (w.id + 1) d s f,
        rw e (λ i. (
          connects d.ip (adb + 512) host small i,
          connects d.ip (adb + 256) host (omega arith) i,
        )),
        refl,
        as_port-as_short port small_port,
        refl,
      )
