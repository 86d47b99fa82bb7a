-- ===== src/Control.antt =====
-- The control connection's bookkeeping in erender/econtroltrans.cpp: which connections are up
-- (`SetConnState`, `RemoveConnState`) and the requests that wait for an answer (`SendTcpData`,
-- `RemoveCB`). All of it runs as tasks of one thread, so that a run is a sequence of operations.
pub mod Requests
pub mod Tasks
pub mod Timed
pub mod Conn
mod Tests
use vncc.Base.{
  ℕ, zero, suc, ◌+◌, ◌-◌, ◌/◌, ◌%◌, ◌==◌, if◌then◌else◌, Bool, true, false, not, ◌&&◌, Option, none,
  some, List, [], ◌∷◌, ◌++◌, ◌≡◌,
}

-- `CMD_CONN`, `RT_CONN` and `AV_CONN`.
pub data ConnType : Type 0 where
  cmd_conn : ConnType
  rt_conn : ConnType
  av_conn : ConnType

abbrev pub bit : ConnType → ℕ
bit cmd_conn = 1
bit rt_conn = 2
bit av_conn = 4

abbrev pub full_conn : ℕ
full_conn = 7

-- `_conn_type`, and how often "connect_comp" was reported.
pub record ConnState : Type 0 where
  pub conn_type : ℕ
  pub reports : ℕ

abbrev pub has_bit : ℕ → ConnType → Bool
has_bit n t = (n / bit t % 2) == 1

-- `n |= type` and `n &= ~type` for one bit.
abbrev pub or_bit : ℕ → ConnType → ℕ
or_bit n t = if has_bit n t then n else n + bit t

abbrev pub clear_bit : ℕ → ConnType → ℕ
clear_bit n t = if has_bit n t then n - bit t else n

-- The first argument is `gDone`.
unfoldable pub set_conn_state : Bool → ConnType → ConnState → ConnState
set_conn_state done t s =
    if not done
    then (if or_bit s.conn_type t == full_conn
        then record s { conn_type = or_bit s.conn_type t; reports = s.reports + 1 }
        else record s { conn_type = or_bit s.conn_type t })
    else s

unfoldable pub remove_conn_state : Bool → ConnType → ConnState → ConnState
remove_conn_state done t s =
    if not done then record s { conn_type = clear_bit s.conn_type t } else s

-- A `std::map` from hashes to callbacks.
abbrev pub CallbackMap : Type 0
CallbackMap = ℕ → Option ℕ

abbrev pub emplace : CallbackMap → ℕ → ℕ → CallbackMap
emplace m key cb =
    λ k. if k == key then (elim (m k) [ none ↦ some cb | some old ↦ some old ]) else m k

abbrev pub erase : CallbackMap → ℕ → CallbackMap
erase m key = λ k. if k == key then none else m k

abbrev pub is_none : Option ℕ → Bool
is_none none = true
is_none (some cb) = false

-- `_recvCBMap` and `_failCBMap`, the keys of the `RemoveCB` tasks that were posted and have not run,
-- and the failure callbacks that were called, the last one first. A callback is a number.
pub record Callbacks : Type 0 where
  pub recv_cb_map : CallbackMap
  pub fail_cb_map : CallbackMap
  pub tasks : List ℕ
  pub called : List ℕ

abbrev pub no_callbacks : Callbacks
no_callbacks = record { recv_cb_map = λ k. none; fail_cb_map = λ k. none; tasks = []; called = [] }

-- The end of `SendTcpData`, by the value of `ret`.
unfoldable pub after_send : ℕ → Bool → Callbacks → Callbacks × Bool
after_send key true s = (record s { tasks = s.tasks ++ (key ∷ []) }, true)
after_send key false s = (
  record s { recv_cb_map = erase s.recv_cb_map key; fail_cb_map = erase s.fail_cb_map key },
  false,
)

-- `key` is the hash of the request's name, `sent` what `SendData` answers.
unfoldable pub send_tcp_data : ℕ → Bool → ℕ → ℕ → Callbacks → Callbacks × Bool
send_tcp_data key sent succ fail s =
    if is_none (s.recv_cb_map key) && is_none (s.fail_cb_map key)
    then after_send key sent (record s {
      recv_cb_map = emplace s.recv_cb_map key succ;
      fail_cb_map = emplace s.fail_cb_map key fail;
    })
    else after_send key false s

-- `RemoveCB`; the task itself is taken off by who runs it.
unfoldable pub remove_cb : ℕ → Callbacks → Callbacks
remove_cb key s = elim (s.fail_cb_map key) [
  | none ↦ record s { recv_cb_map = erase s.recv_cb_map key }
  | some cb ↦ record s {
    recv_cb_map = erase s.recv_cb_map key;
    fail_cb_map = erase s.fail_cb_map key;
    called = cb ∷ s.called;
  }
]
