-- ===== src/Player/Keys.antt =====
-- Keys without Ctrl: what is sent for one, and the key that it tells.
use Prim.Native.String.{String}
use text.Mathlib.Text as Text
use vncc.Base.{
  ◌≡◌, refl, true, false, ◌||◌, ◌⊎◌, if◌then◌else◌, Bool-cases, inl, inr, List, [], ◌∷◌, Option,
  none, some,
}
use vncc.Proto.{UserInput, key_event}
use vncc.Player.{
  Modifiers, Key, key_return, key_escape, key_left, key_up, key_right, key_down, key_home, key_end,
  key_page_up, key_page_down, key_backspace, key_delete, key_insert, key_tab, key_caps_lock,
  key_space, key_control, key_menu, key, key_code, code_or_text, out_text_msg, key_press_event,
}

-- The key that a code of the device stands for.
abbrev pub key_of_code : String → Option Key
key_of_code code =
    if Text.◌==◌ code "66"
    then some key_return
    else if Text.◌==◌ code "111"
    then some key_escape
    else if Text.◌==◌ code "21"
    then some key_left
    else if Text.◌==◌ code "19"
    then some key_up
    else if Text.◌==◌ code "22"
    then some key_right
    else if Text.◌==◌ code "20"
    then some key_down
    else if Text.◌==◌ code "122"
    then some key_home
    else if Text.◌==◌ code "123"
    then some key_end
    else if Text.◌==◌ code "92"
    then some key_page_up
    else if Text.◌==◌ code "93"
    then some key_page_down
    else if Text.◌==◌ code "67"
    then some key_backspace
    else if Text.◌==◌ code "112"
    then some key_delete
    else if Text.◌==◌ code "124"
    then some key_insert
    else if Text.◌==◌ code "61"
    then some key_tab
    else if Text.◌==◌ code "115"
    then some key_caps_lock
    else if Text.◌==◌ code "62"
    then some key_space
    else if Text.◌==◌ code "113"
    then some key_control
    else if Text.◌==◌ code "57"
    then some key_menu
    else none

-- The named key that a message tells.
abbrev pub key_told : {Real : Type 0} → List (UserInput Real) → Option Key
key_told (key_event code ∷ []) = key_of_code code
key_told _ = none

abbrev pub named : Key → Option Key
named (key n) = none
named k = some k

text_tells_none :
    (Real : Type 0) (to_utf8 : String → String) (text : String)
    → key_told (out_text_msg {Real = Real} to_utf8 text) ≡ none
unfolding out_text_msg
text_tells_none Real to_utf8 text = elim (Bool-cases (Text.◌==◌ (to_utf8 text) "")) [
  | inl e ↦ rw e refl
  | inr e ↦ rw e refl
]

code_told :
    (Real : Type 0) (to_utf8 : String → String) (k : Key) (text : String)
    → key_told (code_or_text {Real = Real} to_utf8 (key_code k) text) ≡ named k
unfolding key_code
code_told Real to_utf8 key_return text = refl
code_told Real to_utf8 key_escape text = refl
code_told Real to_utf8 key_left text = refl
code_told Real to_utf8 key_up text = refl
code_told Real to_utf8 key_right text = refl
code_told Real to_utf8 key_down text = refl
code_told Real to_utf8 key_home text = refl
code_told Real to_utf8 key_end text = refl
code_told Real to_utf8 key_page_up text = refl
code_told Real to_utf8 key_page_down text = refl
code_told Real to_utf8 key_backspace text = refl
code_told Real to_utf8 key_delete text = refl
code_told Real to_utf8 key_insert text = refl
code_told Real to_utf8 key_tab text = refl
code_told Real to_utf8 key_caps_lock text = refl
code_told Real to_utf8 key_space text = refl
code_told Real to_utf8 key_control text = refl
code_told Real to_utf8 key_menu text = refl
code_told Real to_utf8 (key n) text = text_tells_none Real to_utf8 text

-- Without a modifier, a key that the window names sends a message from which the key can be read back,
-- so that no two of them send the same, and any other key sends no key. With Shift or Alt and without
-- Ctrl a key sends nothing at all.
pub key_press_event-told :
    (Real : Type 0) (to_utf8 : String → String) (m : Modifiers) (k : Key) (text : String)
    → m.ctrl ≡ false
    → (((m.shift || m.alt) ≡ false)
        × (key_told (key_press_event {Real = Real} to_utf8 m k text) ≡ named k))
      ⊎ (((m.shift || m.alt) ≡ true) × (key_press_event {Real = Real} to_utf8 m k text ≡ []))
unfolding key_press_event
key_press_event-told Real to_utf8 m k text e = elim (Bool-cases (m.shift || m.alt)) [
  | inl h ↦ inr (h, rw (e, h) refl)
  | inr h ↦ inl (h, rw (e, h) (code_told Real to_utf8 k text))
]
