-- ===== src/Player/Tests.antt =====
-- The player's window at concrete events.
use Prim.Native.String.{String}
use vncc.Base.{ℕ, ◌≡◌, ◌⊎◌, ◌||◌, refl, true, false, List, [], ◌∷◌, some}
use vncc.Instructions.{ℤ, pos, negsuc}
use vncc.Player.{
  Modifiers, key_home, WindowEvent, left_button, second_button, mouse_press, mouse_release,
  mouse_double_click, mouse_move, wheel, key_press_event, with_ctrl,
}
use vncc.Player.Gesture.{
  IsGesture, finger_after, held_after, touches, all_inputs, all_inputs-IsGesture,
}
use vncc.Player.Keys.{key_told, key_press_event-told}

abbrev utf8 : String → String
utf8 text = text

abbrev ratio : ℤ → ℕ → ℕ
ratio (pos n) width = n
ratio (negsuc n) width = 0

abbrev with_shift : Modifiers
with_shift = record { shift = true; alt = false; ctrl = false }

-- A drag with a turn of the wheel in it, a click with the other button, and a double click.
abbrev drag : List WindowEvent
drag =
    mouse_press left_button (pos 3) (pos 4)
    ∷ mouse_move true (pos 5) (pos 4)
    ∷ wheel false (pos 5) (pos 4) (negsuc 119)
    ∷ mouse_release left_button (pos 5) (pos 4)
    ∷ mouse_press second_button (pos 1) (pos 1)
    ∷ mouse_move false (pos 1) (pos 2)
    ∷ mouse_double_click left_button (pos 1) (pos 1)
    ∷ []

all_inputs-IsGesture_example :
    IsGesture false (touches (all_inputs ℕ utf8 ratio 10 10 drag))
    × (finger_after false (touches (all_inputs ℕ utf8 ratio 10 10 drag)) ≡ held_after false drag)
all_inputs-IsGesture_example =
    all_inputs-IsGesture ℕ utf8 ratio 10 10 drag false (refl, (refl, (refl, (refl, (refl, tt)))))

key_press_event-told_example :
    (((with_shift.shift || with_shift.alt) ≡ false)
      × (key_told (key_press_event {Real = ℕ} utf8 with_shift key_home "") ≡ some key_home))
    ⊎ (((with_shift.shift || with_shift.alt) ≡ true)
        × (key_press_event {Real = ℕ} utf8 with_shift key_home "" ≡ []))
key_press_event-told_example = key_press_event-told ℕ utf8 with_shift key_home "" refl

paste_command :
    with_ctrl "47"
    ≡ "sendevent $(ls /dev/input/event*) 1 29 1 && sendevent $(ls /dev/input/event*) 0 0 0 && sendevent $(ls /dev/input/event*) 1 47 1 && sendevent $(ls /dev/input/event*) 0 0 0 && sendevent $(ls /dev/input/event*) 1 47 0 && sendevent $(ls /dev/input/event*) 0 0 0 && sendevent $(ls /dev/input/event*) 1 29 0 && sendevent $(ls /dev/input/event*) 0 0 0"
paste_command = refl
