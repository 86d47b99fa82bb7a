-- ===== src/Docker/Chosen.antt =====
-- The buttons that are marked, and what the media transport was told.
use mathlib.Core.List.{append_assoc}
use vncc.Base.{
  ℕ, ◌≡◌, ◌==◌, refl, sym, ap, ◌∙◌, Bool, true, false, if◌then◌else◌, Bool-cases, inl, inr, List,
  [], ◌∷◌, ◌++◌,
}
use vncc.Media.{ControlMsg}
use vncc.Docker.{
  Bar, ColState, def_state, sel_state, BarSignal, fps_signal, bitrate_signal, BarEvent, mouse_in,
  mouse_out, resize, timer, click_fps, click_q, click_plain, FpsButton, fps_30, fps_48, fps_60,
  QualityButton, q1, q2, q3, q4, PlainButton, quit_clicked, home_click, process_click, return_click,
  mobile_click, pad_click, tv_click, stb_click, emit, fps_click, q_click, plain_signal, mouse_track,
  resize_event, timer_event, docker_widget, bar_event, bar_after, rate_slot,
}

-- What all the signals made the main window tell the media transport.
abbrev pub told : List BarSignal → List ControlMsg
told [] = []
told (s ∷ ss) = rate_slot s ++ told ss

-- The last parameter that was sent with the command, or `first` if there is none.
abbrev pub last_param : ℕ → ℕ → List ControlMsg → ℕ
last_param command first [] = first
last_param command first (m ∷ ms) =
    last_param command (if m.cmd == command then m.param else first) ms

-- A button is marked exactly if its number is the chosen one.
abbrev pub marked : ℕ → ℕ → ColState
marked chosen number = if chosen == number then sel_state else def_state

-- The marks of a row.
abbrev pub FpsRow : Type 0
FpsRow = ColState × ColState × ColState

abbrev pub RateRow : Type 0
RateRow = ColState × ColState × ColState × ColState

abbrev pub fps_row : Bar → FpsRow
fps_row b = (b.btn_30fps, b.btn_48fps, b.btn_60fps)

abbrev pub rate_row : Bar → RateRow
rate_row b = (b.btn_q1, b.btn_q2, b.btn_q3, b.btn_q4)

abbrev pub fps_marks : ℕ → FpsRow
fps_marks n = (marked n 30, marked n 48, marked n 60)

abbrev pub rate_marks : ℕ → RateRow
rate_marks n = (marked n 600, marked n 2000, marked n 4000, marked n 6000)

-- The marks fit what was told, with 30 frames and 600 at first.
abbrev Fits : FpsRow → RateRow → List BarSignal → Type 0
Fits f r ss =
    (f ≡ fps_marks (last_param 5002 30 (told ss)))
    × (r ≡ rate_marks (last_param 5001 600 (told ss)))

abbrev pub IsChosen : Bar → Type 0
IsChosen b = Fits (fps_row b) (rate_row b) b.signals

told-append : (ss ts : List BarSignal) → told (ss ++ ts) ≡ told ss ++ told ts
told-append [] ts = refl
told-append (s ∷ ss) ts =
    ap (λ ms. rate_slot s ++ ms) (told-append ss ts) ∙ sym (append_assoc (rate_slot s) _ _)

last_param-append :
    (command first : ℕ) (ms ns : List ControlMsg)
    → last_param command first (ms ++ ns) ≡ last_param command (last_param command first ms) ns
last_param-append command first [] ns = refl
last_param-append command first (m ∷ ms) ns =
    last_param-append command (if m.cmd == command then m.param else first) ms ns

-- What a further signal changes.
last_told :
    (command first : ℕ) (ss : List BarSignal) (s : BarSignal)
    → last_param command first (told (ss ++ s ∷ []))
      ≡ last_param command (last_param command first (told ss)) (rate_slot s ++ [])
last_told command first ss s =
    ap (last_param command first) (told-append ss (s ∷ []))
    ∙ last_param-append command first (told ss) (rate_slot s ++ [])

-- The marks after a signal.
emit-Fits :
    (f : FpsRow) (r : RateRow) (ss : List BarSignal) (s : BarSignal)
    → f ≡ fps_marks (last_param 5002 (last_param 5002 30 (told ss)) (rate_slot s ++ []))
    → r ≡ rate_marks (last_param 5001 (last_param 5001 600 (told ss)) (rate_slot s ++ []))
    → Fits f r (ss ++ s ∷ [])
emit-Fits f r ss s e k = (
  e ∙ ap fps_marks (sym (last_told 5002 30 ss s)),
  k ∙ ap rate_marks (sym (last_told 5001 600 ss s)),
)

fps_click-IsChosen : (f : FpsButton) (b : Bar) → IsChosen b → IsChosen (fps_click f b)
unfolding fps_click rate_slot
fps_click-IsChosen fps_30 b c = emit-Fits _ (rate_row b) b.signals (fps_signal 30) refl c.1
fps_click-IsChosen fps_48 b c = emit-Fits _ (rate_row b) b.signals (fps_signal 48) refl c.1
fps_click-IsChosen fps_60 b c = emit-Fits _ (rate_row b) b.signals (fps_signal 60) refl c.1

q_click-IsChosen : (q : QualityButton) (b : Bar) → IsChosen b → IsChosen (q_click q b)
unfolding q_click rate_slot
q_click-IsChosen q1 b c = emit-Fits (fps_row b) _ b.signals (bitrate_signal 600) c.0 refl
q_click-IsChosen q2 b c = emit-Fits (fps_row b) _ b.signals (bitrate_signal 2000) c.0 refl
q_click-IsChosen q3 b c = emit-Fits (fps_row b) _ b.signals (bitrate_signal 4000) c.0 refl
q_click-IsChosen q4 b c = emit-Fits (fps_row b) _ b.signals (bitrate_signal 6000) c.0 refl

emit-IsChosen : (p : PlainButton) (b : Bar) → IsChosen b → IsChosen (emit (plain_signal p) b)
unfolding rate_slot plain_signal
emit-IsChosen quit_clicked b c = emit-Fits (fps_row b) (rate_row b) b.signals _ c.0 c.1
emit-IsChosen home_click b c = emit-Fits (fps_row b) (rate_row b) b.signals _ c.0 c.1
emit-IsChosen process_click b c = emit-Fits (fps_row b) (rate_row b) b.signals _ c.0 c.1
emit-IsChosen return_click b c = emit-Fits (fps_row b) (rate_row b) b.signals _ c.0 c.1
emit-IsChosen mobile_click b c = emit-Fits (fps_row b) (rate_row b) b.signals _ c.0 c.1
emit-IsChosen pad_click b c = emit-Fits (fps_row b) (rate_row b) b.signals _ c.0 c.1
emit-IsChosen tv_click b c = emit-Fits (fps_row b) (rate_row b) b.signals _ c.0 c.1
emit-IsChosen stb_click b c = emit-Fits (fps_row b) (rate_row b) b.signals _ c.0 c.1

module _ (start_timer : ℕ → ℕ) where
  track-IsChosen : (out : Bool) (b : Bar) → IsChosen b → IsChosen (mouse_track start_timer out b)
  unfolding mouse_track
  track-IsChosen true b c = elim (Bool-cases (b.timer_id == 0)) [
    | inl e ↦ rw (e) c
    | inr e ↦ rw (e) c
  ]
  track-IsChosen false b c = elim (Bool-cases (b.timer_id == 0)) [
    | inl e ↦ rw (e, e) c
    | inr e ↦ rw (e, e) c
  ]

  resize_event-IsChosen :
      (w h : ℕ) (b : Bar) → IsChosen b → IsChosen (resize_event start_timer w h b)
  unfolding resize_event
  resize_event-IsChosen w h b c = elim (Bool-cases b.bsize) [
    | inl e ↦ rw (e) c
    | inr e ↦ elim (Bool-cases (b.timer_id == 0)) [ inl k ↦ rw (e, k) c | inr k ↦ rw (e, k) c ]
  ]

  timer_event-IsChosen : (id : ℕ) (b : Bar) → IsChosen b → IsChosen (timer_event start_timer id b)
  unfolding timer_event
  timer_event-IsChosen id b c = elim (Bool-cases (id == b.timer_id)) [
    | inl e ↦ rw (e) c
    | inr e ↦ rw (e) c
  ]

  bar_event-IsChosen : (e : BarEvent) (b : Bar) → IsChosen b → IsChosen (bar_event start_timer e b)
  bar_event-IsChosen mouse_in b c = track-IsChosen false b c
  bar_event-IsChosen mouse_out b c = track-IsChosen true b c
  bar_event-IsChosen (resize w h) b c = resize_event-IsChosen w h b c
  bar_event-IsChosen (timer id) b c = timer_event-IsChosen id b c
  bar_event-IsChosen (click_fps f) b c = fps_click-IsChosen f b c
  bar_event-IsChosen (click_q q) b c = q_click-IsChosen q b c
  bar_event-IsChosen (click_plain p) b c = emit-IsChosen p b c

  all-IsChosen : (es : List BarEvent) (b : Bar) → IsChosen b → IsChosen (bar_after start_timer es b)
  unfolding bar_after
  all-IsChosen [] b c = c
  all-IsChosen (e ∷ es) b c = all-IsChosen es _ (bar_event-IsChosen e b c)

  -- Whatever happens to the tool bar, the marked button of the first row is the one of the frame rate
  -- that the bar's own signals made the main window tell the media transport last, and 30 if they told
  -- none; that of the second row is the one of the bit rate that they told last, and 600 if none. No
  -- other button of the rows is marked. What others tell the transport is not counted: at the first
  -- frame `videoCB` asks for a bit rate of 2000, and the bar still marks 600.
  pub bar_after-IsChosen :
      (es : List BarEvent) → IsChosen (bar_after start_timer es (docker_widget start_timer))
  unfolding docker_widget
  bar_after-IsChosen es = all-IsChosen es (docker_widget start_timer) (refl, refl)
