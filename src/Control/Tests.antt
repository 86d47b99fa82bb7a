-- ===== src/Control/Tests.antt =====
-- Requests and connection states on small histories.
use vncc.Base.{if◌then◌else◌, ◌==◌, ◌≡◌, ◌⊎◌, refl, true, false, none, some, List, [], ◌∷◌, length}
use vncc.Control.{Callbacks, no_callbacks, send_tcp_data, remove_cb, cmd_conn, rt_conn, av_conn}
use vncc.Control.Requests.{Registered, send_tcp_data-Registered, send_tcp_data-forgets}
use vncc.Control.Tasks.{Operation, request, next_task, operate_all, Waits}
use vncc.Control.Timed.{run_tasks, operate_all-timed, run_tasks-operate_all}
use vncc.Control.Conn.{ConnEvent, up, down, replay, replay-eq-state_of}

-- A request, one of the same name before it is answered, and another name.
abbrev history : List Operation
history = request 5 true 50 51 ∷ request 5 true 52 53 ∷ request 6 true 60 61 ∷ next_task ∷ []

operate_all-timed_example :
    ((((operate_all history no_callbacks).fail_cb_map 6) ≡ none)
      × (((operate_all history no_callbacks).recv_cb_map 6) ≡ none))
    ⊎ Waits 6 (operate_all history no_callbacks).tasks
operate_all-timed_example = operate_all-timed history 6

run_tasks-operate_all_example :
    (((run_tasks
          (length (operate_all history no_callbacks).tasks)
          (operate_all history no_callbacks)).fail_cb_map
        6)
      ≡ none)
    × (((run_tasks
            (length (operate_all history no_callbacks).tasks)
            (operate_all history no_callbacks)).recv_cb_map
          6)
        ≡ none)
run_tasks-operate_all_example = run_tasks-operate_all history 6

Registered-run :
    (t : Callbacks) × (send_tcp_data 5 true 50 51 no_callbacks ≡ (t, true))
    × Registered 5 50 51 no_callbacks t
Registered-run = send_tcp_data-Registered 5 50 51 no_callbacks refl refl

-- After the first request.
abbrev one_waits : Callbacks
one_waits = record {
  recv_cb_map = λ k. if k == 5 then some 50 else none;
  fail_cb_map = λ k. if k == 5 then some 51 else none;
  tasks = 5 ∷ [];
  called = [];
}

send_tcp_data-forgets_run :
    (t : Callbacks) × (send_tcp_data 5 true 52 53 one_waits ≡ (t, false))
    × (t.recv_cb_map 5 ≡ none)
    × (t.fail_cb_map 5 ≡ none)
    × ((remove_cb 5 t).called ≡ [])
send_tcp_data-forgets_run = send_tcp_data-forgets 5 52 53 one_waits true 51 refl

abbrev conn_log : List ConnEvent
conn_log = up av_conn ∷ up rt_conn ∷ down rt_conn ∷ up rt_conn ∷ up cmd_conn ∷ []

replay-eq-state_of_example : replay conn_log ≡ record { conn_type = 7; reports = 1 }
replay-eq-state_of_example = replay-eq-state_of conn_log
