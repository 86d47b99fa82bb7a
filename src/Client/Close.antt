-- ===== src/Client/Close.antt =====
-- `Disconnect` as the event loop carries it out: at once on a connection, and not at all while the
-- client waits to reconnect.
use vncc.Base.{◌+◌, ◌-◌, ◌≡◌, true, false}
use vncc.Wire.Send.{disconnect, connected}
use vncc.Client.{
  Client, Events, Answers, do_real_connect, drop_bev, event_cb, do_reconn_cb, do_close_cb,
}

-- On a connection, `do_close_cb` frees it, calls the error callback once and deletes the client; the
-- send events that were queued for it are still queued.
pub do_close_cb-deletes :
    (a : Answers) (c : Client)
    → c.alive ≡ true
    → c.bev ≡ true
    → do_close_cb a c ≡ record c {
      closes = c.closes - 1;
      done = true;
      bev = false;
      status = disconnect;
      error_calls = c.error_calls + 1;
      alive = false;
    }
unfolding do_close_cb event_cb drop_bev
do_close_cb-deletes a c e f = rw (e, f)

abbrev pub up_only : Events
up_only = record { eof = false; error = false; timeout = false; up = true }

-- While the client waits for its reconnect timer, `do_close_cb` neither deletes it nor stops the timer:
-- when the timer runs and the connection comes up, the client that was told to close is connected, and
-- its connect callback is called once more.
pub do_close_cb-reconnects :
    (a : Answers) (c : Client)
    → c.alive ≡ true
    → c.bev ≡ false
    → a.started ≡ true
    → event_cb a up_only (do_reconn_cb a (do_close_cb a c)) ≡ record c {
      closes = c.closes - 1;
      done = true;
      reconns = c.reconns - 1;
      bev = true;
      status = connected;
      connect_calls = c.connect_calls + 1;
    }
unfolding do_close_cb event_cb do_reconn_cb do_real_connect
do_close_cb-reconnects a c e f g = rw (e, f, g)
