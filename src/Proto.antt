-- ===== src/Proto.antt =====
-- The requests that erender/ePrivateProto.cpp writes, and the user's input that
-- erender/econtroltrans.cpp sends with them. `dump` of the JSON library is a parameter, a floating
-- point number is a value of a type `Real` that nothing looks into, and the versions that the build
-- selects are the fields of `Build`. `_reqid` is an `unsigned long` of 64 bits; the lock around its
-- increment makes it one step.
pub mod Ids
pub mod Calls
mod Tests
use Prim.Native.String.{String}
use vncc.Base64.{base64_encode}
use vncc.Base.{
  ℕ, ◌+◌, ◌%◌, ◌^◌, Bool, true, false, if◌then◌else◌, List, [], ◌∷◌, ◌++◌, Option, none, some,
}

-- The encoded text of a mouse event. The three numbers of an event never come near the limit of an `int`,
-- so that there always is one.
abbrev event_text : Option (List ℕ) → List ℕ
event_text none = []
event_text (some text) = text

pub record Build : Type 0 where
  pub multidesk : Bool
  pub kaopu : Bool

pub record Point (Real : Type 0) : Type 0 where
  pub pid : ℕ
  pub x : Real
  pub y : Real

-- The values that the requests hold.
pub data Json (Real : Type 0) : Type 0 where
  number : ℕ → Json Real
  text : String → Json Real
  flag : Bool → Json Real
  real : Real → Json Real
  texts : List String → Json Real
  points : List (Point Real) → Json Real
  infos : List (String × String) → Json Real

abbrev pub Object : Type 0 → Type 0
Object Real = List (String × Json Real)

-- The members of the object that `GenOutProto` makes; `version` is there in one build only.
pub record OutProto : Type 0 where
  pub cmd_type : ℕ
  pub device : ℕ
  pub stt : String
  pub body : String
  pub reqid : ℕ
  pub version : Option ℕ
  pub t : String

unfoldable pub gen_out_proto : Build → ℕ → ℕ → String → String → OutProto
gen_out_proto b reqid cmd body token = record {
  cmd_type = cmd;
  device = if b.multidesk then 5 else 4;
  stt = "";
  body = body;
  reqid = reqid;
  version = if b.kaopu then some 1057 else none;
  t = token;
}

-- `++_reqid`.
abbrev pub next_id : ℕ → ℕ
next_id n = (n + 1) % 2 ^ 64

module _ {Real : Type 0} (dump : Object Real → String) (b : Build) where
  -- Each takes the counter and gives its new value and the request.
  unfoldable pub gen_normal : ℕ → ℕ → String → String → ℕ × OutProto
  gen_normal n cmd body token = (next_id n, gen_out_proto b (next_id n) cmd body token)

  unfoldable pub connect : ℕ → String → ℕ → String → ℕ × OutProto
  connect n token level lbh_token = (
    next_id n,
    gen_out_proto b (next_id n) 100008
        (dump (
          ("cusType", number (if b.multidesk then 5 else 4))
          ∷ ("channe", text "")
          ∷ ("cilpContent", text "")
          ∷ ("width", number 0)
          ∷ ("height", number 0)
          ∷ ("hidePackageNames", text "")
          ∷ ("inWidth", number 0)
          ∷ ("inDensity", number 0)
          ∷ ("tk", text token)
          ∷ ("deviceLevel", number level)
          ∷ []))
        lbh_token,
  )

  unfoldable pub switch_lang : ℕ → String → String → ℕ × OutProto
  switch_lang n lang token = (next_id n, gen_out_proto b (next_id n) 100014 lang token)

  unfoldable pub heartbeat : ℕ → String → ℕ × OutProto
  heartbeat n token = (next_id n, gen_out_proto b (next_id n) 100022 "" token)

  unfoldable pub set_clip_board : ℕ → String → String → ℕ × OutProto
  set_clip_board n body token = (next_id n, gen_out_proto b (next_id n) 100017 body token)

  unfoldable pub get_install_app_info : ℕ → String → ℕ × OutProto
  get_install_app_info n token = (
    next_id n,
    gen_out_proto b (next_id n) 100003
        (dump (("isNeedIcon", text "true") ∷ ("type", number 2) ∷ [])) token,
  )

  unfoldable pub root_apps : ℕ → List String → List String → String → ℕ × OutProto
  root_apps n change roots token = (
    next_id n,
    gen_out_proto b (next_id n) 100004
        (dump (("changeApps", texts change) ∷ ("rootApps", texts roots) ∷ [])) token,
  )

  unfoldable pub get_device_info : ℕ → String → ℕ × OutProto
  get_device_info n token = (next_id n, gen_out_proto b (next_id n) 100001 "" token)

  unfoldable pub screen_captrue : ℕ → ℕ → ℕ → Bool → Real → Real → Bool → String → ℕ × OutProto
  screen_captrue n width height zip resolution definition save token = (
    next_id n,
    gen_out_proto b (next_id n) 100016
        (dump (
          ("width", number width)
          ∷ ("height", number height)
          ∷ ("isZip", flag zip)
          ∷ ("Resolution", real resolution)
          ∷ ("Definition", real definition)
          ∷ ("isSaveAlbum", flag save)
          ∷ []))
        token,
  )

  unfoldable pub mouse_action : Real → Real → ℕ → String
  mouse_action x y action = dump (
      ("actionIndex", number 0)
      ∷ ("action", number action)
      ∷ ("count", number 1)
      ∷ ("points", points (record { pid = 0; x = x; y = y } ∷ []))
      ∷ [])

-- What the user does, as `SendMouseMsg`, `SendTextMsg`, `SendLogEvent`, `RButtonEvent`,
-- `SendKeyEvent`, `Home`, `Process` and `Return` take it.
pub data UserInput (Real : Type 0) : Type 0 where
  mouse_msg : Real → Real → ℕ → UserInput Real
  text_msg : String → UserInput Real
  log_event : String → UserInput Real
  right_button : Real → Real → ℕ → UserInput Real
  key_event : String → UserInput Real
  home : UserInput Real
  process : UserInput Real
  go_back : UserInput Real

-- `_remote_client` carries what the mouse does, `_cmd_client` the rest.
pub data Message : Type 0 where
  to_remote : OutProto → Message
  to_cmd : OutProto → Message

-- `SafeSendRemoteMsg` and `SafeSendCmdMsg`: nothing is sent unless the status is connected.
abbrev pub safe_send : Bool → Message → List Message
safe_send true m = m ∷ []
safe_send false m = []

-- The bytes of a text and back are those of `std::string`.
module _ {Real : Type 0} (dump : Object Real → String) (to_bytes : String → List ℕ)
    (of_bytes : List ℕ → String) (b : Build) (token : String) where
  -- `jBoast` of `RButtonEvent`.
  unfoldable pub boast : Real → Real → ℕ → String
  boast x y kind =
      let mouse_data = dump (("x", real x) ∷ ("y", real y) ∷ ("mousetype", number kind) ∷ []) in
      dump (
        ("action", text "android.event.action.MOUSE_EVENT")
        ∷ (
          "extraInfos",
          infos (("event_data", of_bytes (event_text (base64_encode (to_bytes mouse_data)))) ∷ []),
        )
        ∷ [])

  unfoldable pub send_input : Bool → ℕ → UserInput Real → ℕ × List Message
  send_input up n (mouse_msg x y kind) =
      let (n', p) = gen_normal dump b n 100023 (mouse_action dump b x y kind) "" in
      (n', safe_send up (to_remote p))
  send_input up n (text_msg s) =
      let (n', p) = gen_normal dump b n 120005 s token in (n', safe_send up (to_cmd p))
  send_input up n (log_event s) =
      let (n', p) = gen_normal dump b n 100019 s token in (n', safe_send up (to_cmd p))
  send_input up n (right_button x y kind) =
      let (n', p) = gen_normal dump b n 100010 (boast x y kind) "" in (n', safe_send up (to_cmd p))
  send_input up n (key_event s) =
      let (n', p) = gen_normal dump b n 120006 s token in (n', safe_send up (to_cmd p))
  send_input up n home =
      let (n', p) = gen_normal dump b n 100019 "input keyevent KEYCODE_HOME" token in
      (n', safe_send up (to_cmd p))
  send_input up n process =
      let (n', p) = gen_normal dump b n 100019 "input keyevent KEYCODE_APP_SWITCH" token in
      (n', safe_send up (to_cmd p))
  send_input up n go_back =
      let (n', p) = gen_normal dump b n 100019 "input keyevent KEYCODE_BACK" token in
      (n', safe_send up (to_cmd p))

  unfoldable pub send_inputs : Bool → ℕ → List (UserInput Real) → List Message
  send_inputs up n [] = []
  send_inputs up n (i ∷ is) = let (n', ms) = send_input up n i in ms ++ send_inputs up n' is
