-- ===== src/Socket/Tests.antt =====
-- A client that has connected, and one whose reconnect timer stands.
use Prim.Native.String.{String}
use package.text.Mathlib.Text.{◌==◌}
use vncc.Base.{◌≡◌, refl, Bool, true, false, [], ◌∷◌, Option, some}
use vncc.Socket.{
  Socket, initial, login, login_window, heart, goto, send, run, stop, on_open, on_heart, on_message,
  switch_device, Steps, here,
}
use vncc.Socket.Stopping.{stop-silent, stop-without_effect}

abbrev contains : String → String → Bool
contains payload word = payload == word

abbrev clients_of : String → Option String
clients_of payload = some "two"

abbrev connected : Socket
connected = record initial {
  has_cli = true;
  b_run = true;
  user = "ann";
  live = true;
  hearts = 1;
  sent = login "qilin" "ann" ∷ [];
}

abbrev waiting : Socket
waiting = record connected { retries = 1 }

connects : on_open (run true "ann" initial) ≡ connected
unfolding on_open login_window send run
connects = refl

beats : (on_heart 0 connected).sent ≡ login "qilin" "ann" ∷ heart "ann" ∷ []
unfolding on_heart send
beats = refl

shows : (on_message contains clients_of "clients" connected).shown ≡ "two" ∷ []
unfolding on_message
shows = refl

switches : (switch_device "pad" connected).posted ≡ goto "pad" "ann" ∷ []
unfolding switch_device
switches = refl

stop-silent_example :
    ((stop connected).b_done ≡ true)
    × ((stop connected).live ≡ false)
    × ((stop connected).sent ≡ connected.sent)
stop-silent_example =
    stop-silent contains clients_of connected (stop connected) refl refl refl refl here

stop_too_late : (t : Socket) × Steps contains clients_of waiting t × (t.live ≡ true) × (stop t ≡ t)
stop_too_late = stop-without_effect contains clients_of waiting 0 refl refl
