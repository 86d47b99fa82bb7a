-- ===== src/Player/Gesture.antt =====
-- The touches that the mouse makes on the device.
use Prim.Native.String.{String}
use mathlib.Core.List.{append_assoc}
use text.Mathlib.Text as Text
use vncc.Base.{
  ◌||◌, ℕ, ◌≡◌, refl, ap, ◌∙◌, sym, subst, Bool, true, false, ◌==◌, if◌then◌else◌, Bool-cases, inl,
  inr, List, [], ◌∷◌, ◌++◌, Option, none, some,
}
use vncc.Instructions.{ℤ, pos, negsuc}
use vncc.Proto.{UserInput, mouse_msg}
use vncc.Player.{
  left_button, second_button, other_button, Modifiers, Key, WindowEvent, mouse_press, mouse_release,
  mouse_double_click, mouse_move, wheel, input_method, key_press, key, mouse_press_event,
  mouse_release_event, mouse_double_click_event, mouse_move_event, wheel_event, out_text_msg,
  key_press_event, inputs_of, code_or_text, key_code, ctrl_accelrate, shell, accelerator,
}

pub data Touch : Type 0 where
  touch_down touch_move touch_up : Touch

-- The kinds 0, 1 and 2 of a mouse message.
abbrev pub touch_of : ℕ → List Touch
touch_of kind =
    if kind == 0
    then touch_down ∷ []
    else if kind == 1
    then touch_up ∷ []
    else if kind == 2
    then touch_move ∷ []
    else []

abbrev pub touch_of_input : {Real : Type 0} → UserInput Real → List Touch
touch_of_input (mouse_msg x y kind) = touch_of kind
touch_of_input _ = []

abbrev pub touches : {Real : Type 0} → List (UserInput Real) → List Touch
touches [] = []
touches (i ∷ is) = touch_of_input i ++ touches is

-- A finger that is up goes down, and one that is down moves and goes up.
abbrev pub IsGesture : Bool → List Touch → Type 0
IsGesture is_down [] = Unit
IsGesture false (touch_down ∷ ts) = IsGesture true ts
IsGesture true (touch_move ∷ ts) = IsGesture true ts
IsGesture true (touch_up ∷ ts) = IsGesture false ts
IsGesture _ (_ ∷ ts) = ⊥

abbrev pub finger_after : Bool → List Touch → Bool
finger_after is_down [] = is_down
finger_after is_down (touch_down ∷ ts) = finger_after true ts
finger_after is_down (touch_move ∷ ts) = finger_after is_down ts
finger_after is_down (touch_up ∷ ts) = finger_after false ts

-- How Qt delivers the left button: it is pressed when it is not held and released when it is, the
-- second press of a double click is delivered as one, and a move tells whether it is held.
abbrev pub IsDelivered : Bool → List WindowEvent → Type 0
IsDelivered held [] = Unit
IsDelivered held (mouse_press left_button x y ∷ es) = (held ≡ false) × IsDelivered true es
IsDelivered held (mouse_double_click left_button x y ∷ es) = (held ≡ false) × IsDelivered true es
IsDelivered held (mouse_release left_button x y ∷ es) = (held ≡ true) × IsDelivered false es
IsDelivered held (mouse_move now x y ∷ es) = (now ≡ held) × IsDelivered held es
IsDelivered held (_ ∷ es) = IsDelivered held es

abbrev pub held_after : Bool → List WindowEvent → Bool
held_after held [] = held
held_after held (mouse_press left_button x y ∷ es) = held_after true es
held_after held (mouse_double_click left_button x y ∷ es) = held_after true es
held_after held (mouse_release left_button x y ∷ es) = held_after false es
held_after held (_ ∷ es) = held_after held es

touches-append :
    {Real : Type 0} (is js : List (UserInput Real)) → touches (is ++ js) ≡ touches is ++ touches js
touches-append [] js = refl
touches-append (i ∷ is) js =
    ap (λ ts. touch_of_input i ++ ts) (touches-append is js)
    ∙ sym (append_assoc (touch_of_input i) (touches is) (touches js))

shell_untouched : (Real : Type 0) (o : Option String) → touches (shell {Real = Real} o) ≡ []
shell_untouched Real none = refl
shell_untouched Real (some command) = refl

ctrl_untouched : (Real : Type 0) (k : Key) → touches (ctrl_accelrate {Real = Real} k) ≡ []
unfolding ctrl_accelrate
ctrl_untouched Real (key n) = shell_untouched Real (accelerator n)
ctrl_untouched Real _ = refl

-- The touches of an event lead from the one state of the finger to the other, whatever follows.
abbrev Leads : Bool → Bool → List Touch → Type 0
Leads is_down then_down ts =
    (later : List Touch)
    → IsGesture then_down later
    → IsGesture is_down (ts ++ later)
      × (finger_after is_down (ts ++ later) ≡ finger_after then_down later)

stays : (held : Bool) (ts : List Touch) → ts ≡ [] → Leads held held ts
stays held ts e later g =
    subst
      (λ us.
        IsGesture held (us ++ later) × (finger_after held (us ++ later) ≡ finger_after held later))
      (sym e) (g, refl)

module _ (Real : Type 0) (to_utf8 : String → String) where
  text_untouched : (text : String) → touches (out_text_msg {Real = Real} to_utf8 text) ≡ []
  unfolding out_text_msg
  text_untouched text = elim (Bool-cases (Text.◌==◌ (to_utf8 text) "")) [
    | inl e ↦ rw e refl
    | inr e ↦ rw e refl
  ]

  code_untouched :
      (o : Option String) (text : String) → touches (code_or_text {Real = Real} to_utf8 o text) ≡ []
  code_untouched none text = text_untouched text
  code_untouched (some code) text = refl

  key_untouched :
      (m : Modifiers) (k : Key) (text : String)
      → touches (key_press_event {Real = Real} to_utf8 m k text) ≡ []
  unfolding key_press_event
  key_untouched m k text = elim (Bool-cases m.ctrl) [
    | inl e ↦ rw e (ctrl_untouched Real k)
    | inr e ↦ elim (Bool-cases (m.shift || m.alt)) [
      | inl k' ↦ rw (e, k') refl
      | inr k' ↦ rw (e, k') (code_untouched (key_code k) text)
    ]
  ]

  module _ (ratio : ℤ → ℕ → Real) (width height : ℕ) where
    abbrev pub all_inputs : List WindowEvent → List (UserInput Real)
    all_inputs [] = []
    all_inputs (e ∷ es) = inputs_of ratio width height to_utf8 e ++ all_inputs es

    abbrev sent_by : WindowEvent → List Touch
    sent_by e = touches (inputs_of ratio width height to_utf8 e)

    wheel_untouched :
        (ctrl : Bool) (x y delta : ℤ) → touches (wheel_event ratio width height ctrl x y delta) ≡ []
    unfolding wheel_event
    wheel_untouched true x y delta = refl
    wheel_untouched false x y (pos n) = refl
    wheel_untouched false x y (negsuc n) = refl

    moves : (held : Bool) (x y : ℤ) → Leads held held (sent_by (mouse_move held x y))
    unfolding mouse_move_event
    moves true x y later g = (g, refl)
    moves false x y later g = (g, refl)

    presses : (x y : ℤ) → Leads false true (sent_by (mouse_press left_button x y))
    unfolding mouse_press_event
    presses x y later g = (g, refl)

    releases : (x y : ℤ) → Leads true false (sent_by (mouse_release left_button x y))
    unfolding mouse_release_event
    releases x y later g = (g, refl)

    inputs_of-Leads :
        (e : WindowEvent) (es : List WindowEvent) (held : Bool)
        → IsDelivered held (e ∷ es)
        → (now : Bool) × Leads held now (sent_by e)
          × IsDelivered now es
          × (held_after held (e ∷ es) ≡ held_after now es)
    unfolding mouse_press_event mouse_release_event mouse_double_click_event
    inputs_of-Leads (mouse_press left_button x y) es held (h, d) =
        (true, subst (λ b. Leads b true (touch_down ∷ [])) (sym h) (presses x y), d, refl)
    inputs_of-Leads (mouse_press second_button x y) es held d = (held, stays held [] refl, d, refl)
    inputs_of-Leads (mouse_press other_button x y) es held d = (held, stays held [] refl, d, refl)
    inputs_of-Leads (mouse_double_click left_button x y) es held (h, d) =
        (true, subst (λ b. Leads b true (touch_down ∷ [])) (sym h) (presses x y), d, refl)
    inputs_of-Leads (mouse_double_click second_button x y) es held d =
        (held, stays held [] refl, d, refl)
    inputs_of-Leads (mouse_double_click other_button x y) es held d =
        (held, stays held [] refl, d, refl)
    inputs_of-Leads (mouse_release left_button x y) es held (h, d) =
        (false, subst (λ b. Leads b false (touch_up ∷ [])) (sym h) (releases x y), d, refl)
    inputs_of-Leads (mouse_release second_button x y) es held d =
        (held, stays held [] refl, d, refl)
    inputs_of-Leads (mouse_release other_button x y) es held d = (held, stays held [] refl, d, refl)
    inputs_of-Leads (mouse_move now x y) es held (h, d) = (
      held,
      subst (λ b. Leads held held (sent_by (mouse_move b x y))) (sym h) (moves held x y),
      d,
      refl,
    )
    inputs_of-Leads (wheel ctrl x y delta) es held d =
        (held, stays held _ (wheel_untouched ctrl x y delta), d, refl)
    inputs_of-Leads (input_method text) es held d =
        (held, stays held _ (text_untouched text), d, refl)
    inputs_of-Leads (key_press m k text) es held d =
        (held, stays held _ (key_untouched m k text), d, refl)

    -- If Qt delivers the left button in turn, what the device is told is a gesture: a finger goes down,
    -- moves and goes up, again and again, whatever keys, wheel turns and other buttons come between;
    -- and at the end the finger is down exactly if the button is held.
    pub all_inputs-IsGesture :
        (es : List WindowEvent) (held : Bool)
        → IsDelivered held es
        → IsGesture held (touches (all_inputs es))
          × (finger_after held (touches (all_inputs es)) ≡ held_after held es)
    all_inputs-IsGesture [] held d = (tt, refl)
    all_inputs-IsGesture (e ∷ es) held d =
        let (now, leads, d', same) = inputs_of-Leads e es held d in
        let (g, f) = all_inputs-IsGesture es now d' in
        let (g', f') = leads (touches (all_inputs es)) g in
        subst (λ ts. IsGesture held ts × (finger_after held ts ≡ held_after held (e ∷ es)))
          (sym (touches-append (inputs_of ratio width height to_utf8 e) (all_inputs es)))
          (g', f' ∙ f ∙ sym same)
