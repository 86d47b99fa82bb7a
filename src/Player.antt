-- ===== src/Player.antt =====
-- The player's window: `MainWindow` of erender/mainwindow.cpp, the events that Qt delivers and what the
-- controller is told for them. `ratio` is the division of two `int`s as `float`s, `to_utf8` turns the
-- text of an event into bytes; both are parameters. Qt's default for a double click, which the window
-- calls, is to call `mousePressEvent`.
pub mod Gesture
pub mod Keys
mod Tests
use Prim.Native.String.{String, ◌++◌}
use text.Mathlib.Text as Text
use vncc.Base.{
  ℕ, ◌+◌, ◌==◌, Bool, true, false, not, ◌&&◌, ◌||◌, if◌then◌else◌, List, [], ◌∷◌, Option, none,
  some,
}
use vncc.Instructions.{ℤ, pos, negsuc}
use vncc.Proto.{UserInput, mouse_msg, text_msg, log_event, right_button, key_event}

pub data MouseButton : Type 0 where
  left_button : MouseButton
  second_button : MouseButton
  other_button : MouseButton

pub record Modifiers : Type 0 where
  pub shift : Bool
  pub alt : Bool
  pub ctrl : Bool

-- `Qt::Key`: those that the window names, and any other by its number.
pub data Key : Type 0 where
  key_return key_escape key_left key_up key_right key_down : Key
  key_home key_end key_page_up key_page_down key_backspace key_delete : Key
  key_insert key_tab key_caps_lock key_space key_control key_menu : Key
  key : ℕ → Key

-- What Qt delivers. A move says whether the left button is held, a wheel event whether Ctrl is.
pub data WindowEvent : Type 0 where
  mouse_press : MouseButton → ℤ → ℤ → WindowEvent
  mouse_release : MouseButton → ℤ → ℤ → WindowEvent
  mouse_double_click : MouseButton → ℤ → ℤ → WindowEvent
  mouse_move : Bool → ℤ → ℤ → WindowEvent
  wheel : Bool → ℤ → ℤ → ℤ → WindowEvent
  input_method : String → WindowEvent
  key_press : Modifiers → Key → String → WindowEvent

-- `strText` of `keyPressEvent`, if `trans` is true.
unfoldable pub key_code : Key → Option String
key_code key_return = some "66"
key_code key_escape = some "111"
key_code key_left = some "21"
key_code key_up = some "19"
key_code key_right = some "22"
key_code key_down = some "20"
key_code key_home = some "122"
key_code key_end = some "123"
key_code key_page_up = some "92"
key_code key_page_down = some "93"
key_code key_backspace = some "67"
key_code key_delete = some "112"
key_code key_insert = some "124"
key_code key_tab = some "61"
key_code key_caps_lock = some "115"
key_code key_space = some "62"
key_code key_control = some "113"
key_code key_menu = some "57"
key_code (key n) = none

abbrev pub send_event : String → String
send_event what = "sendevent $(ls /dev/input/event*) " ++ what

-- The shell command that presses Ctrl and a key of the device.
abbrev pub with_ctrl : String → String
with_ctrl code =
    send_event "1 29 1"
    ++ (" && "
        ++ (send_event "0 0 0"
            ++ (" && "
                ++ (send_event ("1 " ++ (code ++ " 1"))
                    ++ (" && "
                        ++ (send_event "0 0 0"
                            ++ (" && "
                                ++ (send_event ("1 " ++ (code ++ " 0"))
                                    ++ (" && "
                                        ++ (send_event "0 0 0"
                                            ++ (" && "
                                                ++ (send_event "1 29 0"
                                                    ++ (" && " ++ send_event "0 0 0")))))))))))))

-- `CtrlAccelrate`, by the number of the key.
unfoldable pub accelerator : ℕ → Option String
accelerator n =
    if n == 86
    then some (with_ctrl "47")
    else if n == 65
    then some (with_ctrl "30")
    else if n == 67
    then some (with_ctrl "46")
    else if n == 88
    then some (with_ctrl "45")
    else if n == 83
    then some (with_ctrl "31")
    else if n == 90
    then some (with_ctrl "44")
    else if n == 66
    then some (with_ctrl "48")
    else none

module _ {Real : Type 0} where
  abbrev pub shell : Option String → List (UserInput Real)
  shell none = []
  shell (some command) = log_event command ∷ []

  -- The named keys have numbers from 0x01000000 on, but for the space bar, which has 32.
  unfoldable pub ctrl_accelrate : Key → List (UserInput Real)
  unfolding accelerator
  ctrl_accelrate (key n) = shell (accelerator n)
  ctrl_accelrate _ = []

  -- `OutTextMsg` sends no empty text.
  unfoldable pub out_text_msg : (String → String) → String → List (UserInput Real)
  out_text_msg to_utf8 text =
      if Text.◌==◌ (to_utf8 text) "" then [] else text_msg (to_utf8 text) ∷ []

  abbrev pub code_or_text : (String → String) → Option String → String → List (UserInput Real)
  code_or_text to_utf8 none text = out_text_msg to_utf8 text
  code_or_text to_utf8 (some code) text = key_event code ∷ []

  unfoldable pub key_press_event :
      (String → String) → Modifiers → Key → String → List (UserInput Real)
  unfolding key_code
  key_press_event to_utf8 m k text =
      if m.ctrl
      then ctrl_accelrate k
      else if m.shift || m.alt
      then []
      else code_or_text to_utf8 (key_code k) text

  -- The window is `width` by `height`; a position is sent as its share of these.
  module _ (ratio : ℤ → ℕ → Real) (width height : ℕ) where
    abbrev pub at_point : ℤ → ℤ → (Real → Real → UserInput Real) → List (UserInput Real)
    at_point x y message = message (ratio x width) (ratio y height) ∷ []

    unfoldable pub mouse_press_event : MouseButton → ℤ → ℤ → List (UserInput Real)
    mouse_press_event left_button x y = at_point x y (λ a b. mouse_msg a b 0)
    mouse_press_event second_button x y = at_point x y (λ a b. right_button a b 1)
    mouse_press_event other_button x y = []

    unfoldable pub mouse_release_event : MouseButton → ℤ → ℤ → List (UserInput Real)
    mouse_release_event left_button x y = at_point x y (λ a b. mouse_msg a b 1)
    mouse_release_event second_button x y = at_point x y (λ a b. right_button a b 2)
    mouse_release_event other_button x y = []

    unfoldable pub mouse_double_click_event : MouseButton → ℤ → ℤ → List (UserInput Real)
    mouse_double_click_event b x y = mouse_press_event b x y

    unfoldable pub mouse_move_event : Bool → ℤ → ℤ → List (UserInput Real)
    mouse_move_event held x y = if held then at_point x y (λ a b. mouse_msg a b 2) else []

    abbrev pub wheel_kind : ℤ → ℕ
    wheel_kind (pos n) = 44
    wheel_kind (negsuc n) = 43

    unfoldable pub wheel_event : Bool → ℤ → ℤ → ℤ → List (UserInput Real)
    wheel_event ctrl x y delta =
        if ctrl
        then []
        else mouse_msg (ratio x width) (ratio y height) 42
          ∷ mouse_msg (ratio x width) (ratio y height) (wheel_kind delta)
          ∷ []

    abbrev pub inputs_of : (String → String) → WindowEvent → List (UserInput Real)
    inputs_of to_utf8 (mouse_press b x y) = mouse_press_event b x y
    inputs_of to_utf8 (mouse_release b x y) = mouse_release_event b x y
    inputs_of to_utf8 (mouse_double_click b x y) = mouse_double_click_event b x y
    inputs_of to_utf8 (mouse_move held x y) = mouse_move_event held x y
    inputs_of to_utf8 (wheel ctrl x y delta) = wheel_event ctrl x y delta
    inputs_of to_utf8 (input_method text) = out_text_msg to_utf8 text
    inputs_of to_utf8 (key_press m k text) = key_press_event to_utf8 m k text
