-- ===== src/Client.antt =====
-- A connection that reconnects: `eAVClient` of common/eAVClient.cpp, the part that runs on the event
-- loop's thread. libevent itself is outside: whether `bufferevent_socket_connect` starts and whether a
-- timer is added are answers that the functions take, a `bufferevent` is there or not, and the
-- timers and active events that name this client are counted.
pub mod Inv
pub mod Life
pub mod Close
mod Tests
use vncc.Base.{ℕ, zero, suc, ◌+◌, ◌-◌, ◌<◌, ◌≡◌, Bool, true, false, if◌then◌else◌}
use vncc.Wire.Send.{RemoteStatus, unknow, disconnect, connected}

-- `_bev`, `_status`, `_bDone`, whether the client is in `_avclients` (and not deleted), the timers set
-- by `Connect`, `delay_reconn` and `Disconnect` and the events made active by `SendData` that have not
-- run, how often `_connectCb` and `_errorCb` were called, and how many reconnect timers `delay_reconn`
-- could not make or add.
pub record Client : Type 0 where
  pub bev : Bool
  pub status : RemoteStatus
  pub done : Bool
  pub alive : Bool
  pub conns : ℕ
  pub reconns : ℕ
  pub closes : ℕ
  pub sends : ℕ
  pub connect_calls : ℕ
  pub error_calls : ℕ
  pub refused : ℕ

-- The `events` of `event_cb`, flag by flag.
pub record Events : Type 0 where
  pub eof : Bool
  pub error : Bool
  pub timeout : Bool
  pub up : Bool

-- libevent's answers: `bufferevent_socket_connect` returned 0, the timer was made and added.
pub record Answers : Type 0 where
  pub started : Bool
  pub added : Bool

abbrev pub is_connected : RemoteStatus → Bool
is_connected connected = true
is_connected _ = false

-- `new eAVClient` and then a `Connect` that returns true.
abbrev pub opened : Client
opened = record {
  bev = false;
  status = unknow;
  done = false;
  alive = true;
  conns = 1;
  reconns = 0;
  closes = 0;
  sends = 0;
  connect_calls = 0;
  error_calls = 0;
  refused = 0;
}

unfoldable pub delay_reconn : Answers → Client → Client
delay_reconn a c =
    if a.added then record c { reconns = c.reconns + 1 } else record c { refused = c.refused + 1 }

unfoldable pub do_real_connect : Answers → Client → Client
do_real_connect a c =
    if a.started
    then record c { bev = true; status = unknow }
    else delay_reconn a (record c { bev = false; status = unknow })

-- The end of `event_cb`: the connection is freed; a client that is done is deleted after its error
-- callback, another one tries again.
unfoldable pub drop_bev : Answers → Client → Client
drop_bev a c =
    if c.done
    then record c {
      bev = false;
      status = disconnect;
      error_calls = c.error_calls + 1;
      alive = false;
    }
    else delay_reconn a (record c { bev = false; status = disconnect })

unfoldable pub event_cb : Answers → Events → Client → Client
event_cb a e c =
    if c.alive
    then (if e.eof
        then drop_bev a c
        else if e.error
        then drop_bev a c
        else if e.timeout
        then drop_bev a c
        else if e.up
        then record c { status = connected; connect_calls = c.connect_calls + 1 }
        else c)
    else c

unfoldable pub do_conn_cb : Answers → Client → Client
do_conn_cb a c =
    if is_connected c.status
    then record c { conns = c.conns - 1 }
    else do_real_connect a (record c { conns = c.conns - 1 })

-- With `help_reconn`.
unfoldable pub do_reconn_cb : Answers → Client → Client
do_reconn_cb a c = do_real_connect a (record c { reconns = c.reconns - 1 })

abbrev pub error_only : Events
error_only = record { eof = false; error = true; timeout = false; up = false }

-- `bufferevent_trigger_event` runs the event callback.
unfoldable pub do_close_cb : Answers → Client → Client
do_close_cb a c =
    if c.alive
    then (if c.bev
        then event_cb a error_only (record c { closes = c.closes - 1; done = true })
        else record c { closes = c.closes - 1; done = true })
    else record c { closes = c.closes - 1 }

-- `SendData` queues an event if the status is connected; `do_send_cb` is in Wire.Send.
unfoldable pub queue_send : Client → Client
queue_send c = if is_connected c.status then record c { sends = c.sends + 1 } else c

-- What happens on the event loop and in the calls of other threads, after one call of `Connect`.
pub data Step : Client → Client → Type 0 where
  conn_due : (c : Client) (a : Answers) → 0 < c.conns → Step c (do_conn_cb a c)
  reconn_due : (c : Client) (a : Answers) → 0 < c.reconns → Step c (do_reconn_cb a c)
  close_due : (c : Client) (a : Answers) → 0 < c.closes → Step c (do_close_cb a c)
  bev_event : (c : Client) (a : Answers) (e : Events) → c.bev ≡ true → Step c (event_cb a e c)
  disconnect_called : (c : Client) → c.alive ≡ true → Step c (record c { closes = c.closes + 1 })
  send_called : (c : Client) → c.alive ≡ true → Step c (queue_send c)
  send_due : (c : Client) → 0 < c.sends → Step c (record c { sends = c.sends - 1 })

pub data Steps (c : Client) : Client → Type 0 where
  here : Steps c c
  then_step : (d e : Client) → Steps c d → Step d e → Steps c e
