-- ===== src/Client/Tests.antt =====
-- A client that is connected and closed, and one that is closed while it waits.
use vncc.Base.{◌≡◌, refl, true, false, arith}
use vncc.Wire.Send.{disconnect, connected}
use vncc.Client.{
  Client, Answers, opened, event_cb, do_conn_cb, do_real_connect, do_reconn_cb, do_close_cb, Steps,
  here, then_step, conn_due, bev_event, disconnect_called,
}
use vncc.Client.Inv.{IsSound}
use vncc.Client.Life.{Steps-IsSound}
use vncc.Client.Close.{do_close_cb-deletes, do_close_cb-reconnects, up_only}

abbrev starts : Answers
starts = record { started = true; added = true }

-- `Connect` ran, the connection came up, and `Disconnect` was called.
abbrev open_client : Client
open_client = record opened {
  bev = true;
  status = connected;
  conns = 0;
  connect_calls = 1;
  closes = 1;
}

open_client-Steps : Steps opened open_client
unfolding do_conn_cb do_real_connect event_cb
open_client-Steps =
    then_step (record opened { bev = true; status = connected; conns = 0; connect_calls = 1 }) _
      (then_step (record opened { bev = true; conns = 0 }) _
        (then_step opened _ here (conn_due opened starts (omega arith)))
        (bev_event (record opened { bev = true; conns = 0 }) starts up_only refl))
      (disconnect_called _ refl)

Steps-IsSound_example : IsSound open_client
Steps-IsSound_example = Steps-IsSound open_client open_client-Steps

deletes_run : do_close_cb starts open_client ≡ record open_client {
  closes = 0;
  done = true;
  bev = false;
  status = disconnect;
  error_calls = 1;
  alive = false;
}
deletes_run = do_close_cb-deletes starts open_client refl refl

-- The connection was lost, the reconnect timer runs, and `Disconnect` was called.
abbrev waiting_client : Client
waiting_client = record open_client { bev = false; status = disconnect; reconns = 1 }

do_close_cb-reconnects_run :
    event_cb starts up_only (do_reconn_cb starts (do_close_cb starts waiting_client))
    ≡ record waiting_client {
      closes = 0;
      done = true;
      reconns = 0;
      bev = true;
      status = connected;
      connect_calls = 2;
    }
do_close_cb-reconnects_run = do_close_cb-reconnects starts waiting_client refl refl refl
