-- ===== src/Docker.antt =====
-- The tool bar over the player: `eDockerWidget` of erender/edockerwidget.cpp with the filter
-- `emouseHover` and the button `ecolbtn` of common/qt, and the slots of erender/mainwindow.cpp that take
-- its signals. Qt is outside: `start_timer n` is the identifier that the n-th `startTimer` gives.
pub mod Hiding
pub mod Chosen
pub mod Devices
mod Tests
use Prim.Native.String.{String}
use vncc.Base.{ℕ, ◌+◌, ◌==◌, Bool, true, false, if◌then◌else◌, List, [], ◌∷◌, ◌++◌, concat, map}
use vncc.Media.{ControlMsg, rate_messages}
use vncc.Proto.{UserInput, home, process, go_back}

-- The `STATE`s of the buttons in a row, from the left, as `SetState` leaves their styles.
pub data ColState : Type 0 where
  def_state : ColState
  sel_state : ColState

-- What the bar emits.
pub data BarSignal : Type 0 where
  close_main_signal : BarSignal
  fps_signal : ℕ → BarSignal
  bitrate_signal : ℕ → BarSignal
  home_signal : BarSignal
  process_signal : BarSignal
  return_signal : BarSignal
  switch_dev_signal : String → BarSignal

-- `_bsize`, `_init_w`, `_init_h`, `_timer_id` and the height of the widget; the timers of the widget
-- that run, and how many were started; the buttons of the two rows; the signals, the last one last.
pub record Bar : Type 0 where
  pub bsize : Bool
  pub init_w : ℕ
  pub init_h : ℕ
  pub timer_id : ℕ
  pub height : ℕ
  pub running : List ℕ
  pub starts : ℕ
  pub btn_30fps : ColState
  pub btn_48fps : ColState
  pub btn_60fps : ColState
  pub btn_q1 : ColState
  pub btn_q2 : ColState
  pub btn_q3 : ColState
  pub btn_q4 : ColState
  pub signals : List BarSignal

-- `killTimer`: nothing happens if no such timer runs.
abbrev pub without : ℕ → List ℕ → List ℕ
without id [] = []
without id (t ∷ ts) = if t == id then without id ts else t ∷ without id ts

abbrev pub kill_timer : ℕ → Bar → Bar
kill_timer id b = record b { running = without id b.running }

unfoldable pub hide_window : Bar → Bar
hide_window b = record b { height = 5 }

abbrev pub emit : BarSignal → Bar → Bar
emit s b = record b { signals = b.signals ++ s ∷ [] }

-- The three `fps_*_click` and the four `q*_click`, by the button.
pub data FpsButton : Type 0 where
  fps_30 : FpsButton
  fps_48 : FpsButton
  fps_60 : FpsButton

pub data QualityButton : Type 0 where
  q1 : QualityButton
  q2 : QualityButton
  q3 : QualityButton
  q4 : QualityButton

unfoldable pub fps_click : FpsButton → Bar → Bar
fps_click fps_30 b = record (emit (fps_signal 30) b) {
  btn_30fps = sel_state;
  btn_48fps = def_state;
  btn_60fps = def_state;
}
fps_click fps_48 b = record (emit (fps_signal 48) b) {
  btn_30fps = def_state;
  btn_48fps = sel_state;
  btn_60fps = def_state;
}
fps_click fps_60 b = record (emit (fps_signal 60) b) {
  btn_30fps = def_state;
  btn_48fps = def_state;
  btn_60fps = sel_state;
}

unfoldable pub q_click : QualityButton → Bar → Bar
q_click q1 b = record (emit (bitrate_signal 600) b) {
  btn_q1 = sel_state;
  btn_q2 = def_state;
  btn_q3 = def_state;
  btn_q4 = def_state;
}
q_click q2 b = record (emit (bitrate_signal 2000) b) {
  btn_q1 = def_state;
  btn_q2 = sel_state;
  btn_q3 = def_state;
  btn_q4 = def_state;
}
q_click q3 b = record (emit (bitrate_signal 4000) b) {
  btn_q1 = def_state;
  btn_q2 = def_state;
  btn_q3 = sel_state;
  btn_q4 = def_state;
}
q_click q4 b = record (emit (bitrate_signal 6000) b) {
  btn_q1 = def_state;
  btn_q2 = def_state;
  btn_q3 = def_state;
  btn_q4 = sel_state;
}

-- The buttons that only emit a signal: `Mobile_click` and so on, and those of the last row.
pub data PlainButton : Type 0 where
  quit_clicked : PlainButton
  home_click : PlainButton
  process_click : PlainButton
  return_click : PlainButton
  mobile_click : PlainButton
  pad_click : PlainButton
  tv_click : PlainButton
  stb_click : PlainButton

unfoldable pub plain_signal : PlainButton → BarSignal
plain_signal quit_clicked = close_main_signal
plain_signal home_click = home_signal
plain_signal process_click = process_signal
plain_signal return_click = return_signal
plain_signal mobile_click = switch_dev_signal "phone"
plain_signal pad_click = switch_dev_signal "pad"
plain_signal tv_click = switch_dev_signal "tv"
plain_signal stb_click = switch_dev_signal "box"

-- What Qt tells the bar: the events `Enter` and `Leave` that `emouseHover` passes on to
-- `slot_MouseTrack`, a resize, a timer, and the clicks.
pub data BarEvent : Type 0 where
  mouse_in : BarEvent
  mouse_out : BarEvent
  resize : ℕ → ℕ → BarEvent
  timer : ℕ → BarEvent
  click_fps : FpsButton → BarEvent
  click_q : QualityButton → BarEvent
  click_plain : PlainButton → BarEvent

module _ (start_timer : ℕ → ℕ) where
  abbrev pub start : Bar → Bar
  start b = record b {
    timer_id = start_timer b.starts;
    running = start_timer b.starts ∷ b.running;
    starts = b.starts + 1;
  }

  unfoldable pub reset_timer : Bar → Bar
  reset_timer b =
      start (if b.timer_id == 0 then b else record (kill_timer b.timer_id b) { timer_id = 0 })

  unfoldable pub show_window : Bar → Bar
  show_window b =
      let b' : Bar = record b { height = b.init_h } in if b.timer_id == 0 then start b' else b'

  -- The identifier of a timer that is killed here stays in `_timer_id`.
  unfoldable pub mouse_track : Bool → Bar → Bar
  unfolding reset_timer hide_window show_window
  mouse_track true b = hide_window (reset_timer b)
  mouse_track false b = show_window (if b.timer_id == 0 then b else kill_timer b.timer_id b)

  unfoldable pub resize_event : ℕ → ℕ → Bar → Bar
  unfolding show_window
  resize_event w h b =
      if b.bsize then b else show_window (record b { bsize = true; init_w = w; init_h = h })

  unfoldable pub timer_event : ℕ → Bar → Bar
  unfolding hide_window
  timer_event id b =
      if id == b.timer_id then record (kill_timer id (hide_window b)) { timer_id = 0 } else b

  -- The end of the constructor, and the height that the main window gives the bar.
  unfoldable pub docker_widget : Bar
  docker_widget = start (record {
    bsize = false;
    init_w = 0;
    init_h = 0;
    timer_id = 0;
    height = 300;
    running = [];
    starts = 0;
    btn_30fps = sel_state;
    btn_48fps = def_state;
    btn_60fps = def_state;
    btn_q1 = sel_state;
    btn_q2 = def_state;
    btn_q3 = def_state;
    btn_q4 = def_state;
    signals = [];
  })

  abbrev pub bar_event : BarEvent → Bar → Bar
  bar_event mouse_in b = mouse_track false b
  bar_event mouse_out b = mouse_track true b
  bar_event (resize w h) b = resize_event w h b
  bar_event (timer id) b = timer_event id b
  bar_event (click_fps f) b = fps_click f b
  bar_event (click_q q) b = q_click q b
  bar_event (click_plain p) b = emit (plain_signal p) b

  -- The events in their order, from the constructor on.
  unfoldable pub bar_after : List BarEvent → Bar → Bar
  bar_after [] b = b
  bar_after (e ∷ es) b = bar_after es (bar_event e b)

-- `setfps` of erender/eAVRender.cpp.
abbrev pub fps_messages : ℕ → List ControlMsg
fps_messages fps = record { cmd = 5002; param = fps } ∷ []

-- `fps_slot` and `bitrate_slot`: what goes to the media transport.
unfoldable pub rate_slot : BarSignal → List ControlMsg
rate_slot (fps_signal fps) = fps_messages fps
rate_slot (bitrate_signal rate) = rate_messages false rate
rate_slot _ = []

-- `home_slot`, `process_slot` and `return_slot`: what goes to the controller.
unfoldable pub key_slot : {Real : Type 0} → BarSignal → List (UserInput Real)
key_slot home_signal = home ∷ []
key_slot process_signal = process ∷ []
key_slot return_signal = go_back ∷ []
key_slot _ = []
