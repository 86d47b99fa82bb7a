-- ===== src/Media.antt =====
-- What the media transport hands to the renderer: `videoCB`, `audioCB`, `msgCB`, `isIFrame`,
-- `DecodeVideo` and `setbitrate` of erender/eAVRender.cpp. The decoders are outside: a frame given to
-- one is recorded. The type that `msgCB` reads from a message is what the parameter `parse` answers,
-- `none` if the parser throws. `exit` ends the program: nothing happens after it.
mod Tests
pub mod Frames
pub mod Once
use vncc.Base.{
  ℕ, ◌+◌, ◌/◌, ◌%◌, ◌==◌, Bool, true, false, not, ◌&&◌, ◌||◌, if◌then◌else◌, List, [], ◌∷◌, ◌++◌,
  Option, none, some, get_or,
}
use vncc.Control.{av_conn}
use vncc.Control.Conn.{ConnEvent, up, down}

-- A message to the transport: `cmd` and `param`.
pub record ControlMsg : Type 0 where
  pub cmd : ℕ
  pub param : ℕ

-- The flags that the callbacks read and set; the frames posted to the decoder's thread, those that it
-- gave to the video decoder, the packets given to the audio decoder, the messages sent, what happened
-- to the connection (the last first), and whether `exit` was called.
pub record Media : Type 0 where
  pub video_ok : Bool
  pub audio_ok : Bool
  pub done : Bool
  pub hand_kframe : Bool
  pub first_v_frame : Bool
  pub play_done : Bool
  pub stop_render : Bool
  pub h265 : Bool
  pub auto_rate : Bool
  pub bitrate : ℕ
  pub posted : List (List ℕ)
  pub decoded : List (List ℕ)
  pub opus : List (List ℕ)
  pub sent : List ControlMsg
  pub conn : List ConnEvent
  pub exited : Bool

-- What the static `bhand_kframe` of `videoCB` starts with.
abbrev pub kframe_at_start : Bool
kframe_at_start = true

unfoldable pub is_i_frame : Bool → List ℕ → Bool
is_i_frame true bytes = let kdata = get_or bytes 4 0 / 2 % 64 in (kdata == 19) || (kdata == 32)
is_i_frame false bytes = let kdata = get_or bytes 4 0 % 32 in (kdata == 5) || (kdata == 7)

-- `setbitrate`: two messages, the second one with the rate unless the rate is automatic.
abbrev pub rate_messages : Bool → ℕ → List ControlMsg
rate_messages true rate = record { cmd = 5000; param = 1 } ∷ record { cmd = 5000; param = 1 } ∷ []
rate_messages false rate =
    record { cmd = 5000; param = 0 } ∷ record { cmd = 5001; param = rate } ∷ []

-- The key-frame test is made while `bhand_kframe` is false.
abbrev pub key_frame_seen : Media → List ℕ → Bool
key_frame_seen s bytes = if s.hand_kframe then true else is_i_frame s.h265 bytes

-- The frame goes to the decoder's thread, or is left out.
unfoldable pub post_frame : List ℕ → Media → Media
post_frame bytes s =
    if key_frame_seen s bytes
    then record s { hand_kframe = true; posted = s.posted ++ (bytes ∷ []) }
    else record s { hand_kframe = false }

-- What is done once, at the first frame.
unfoldable pub first_frame : Media → Media
first_frame s = if s.first_v_frame then s else record s {
  first_v_frame = true;
  conn = up av_conn ∷ s.conn;
  sent = s.sent ++ rate_messages s.auto_rate s.bitrate;
}

unfoldable pub video_cb : List ℕ → Media → Media
video_cb bytes s =
    if s.video_ok then (if s.done then s else first_frame (post_frame bytes s)) else s

unfoldable pub audio_cb : List ℕ → Media → Media
audio_cb bytes s =
    if s.audio_ok then (if s.done then s else record s { opus = s.opus ++ (bytes ∷ []) }) else s

-- The types that end the connection.
abbrev pub is_fatal : Option ℕ → Bool
is_fatal none = false
is_fatal (some code) = (code == 6002) || ((code == 6003) || ((code == 6004) || (code == 6005)))

-- `RemoveConnState` does nothing once the program is done, and `goDisconnect` calls `exit` before.
unfoldable pub msg_cb : (List ℕ → Option ℕ) → List ℕ → Media → Media
msg_cb parse bytes s =
    if is_fatal (parse bytes)
    then (if s.done then s else record s { conn = down av_conn ∷ s.conn; exited = true })
    else s

-- `DecodeVideo`, for the first frame posted.
abbrev pub decode_first : List (List ℕ) → Media → Media
decode_first [] s = s
decode_first (bytes ∷ rest) s =
    if s.play_done && not s.stop_render
    then record s { posted = rest; decoded = s.decoded ++ (bytes ∷ []) }
    else record s { posted = rest }

unfoldable pub decode_video : Media → Media
decode_video s = decode_first s.posted s

pub data MediaEvent : Type 0 where
  video : List ℕ → MediaEvent
  audio : List ℕ → MediaEvent
  message : List ℕ → MediaEvent
  decode : MediaEvent

abbrev pub handle : (List ℕ → Option ℕ) → MediaEvent → Media → Media
handle parse (video bytes) s = video_cb bytes s
handle parse (audio bytes) s = audio_cb bytes s
handle parse (message bytes) s = msg_cb parse bytes s
handle parse decode s = decode_video s

unfoldable pub run_media : (List ℕ → Option ℕ) → List MediaEvent → Media → Media
run_media parse [] s = s
run_media parse (e ∷ es) s =
    let rest = run_media parse es (handle parse e s) in if s.exited then s else rest
