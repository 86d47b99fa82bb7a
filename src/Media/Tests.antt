-- ===== src/Media/Tests.antt =====
-- A session in which two frames come, one of them not a key frame, and then the connection ends.
use vncc.Base.{
  ℕ, ◌==◌, ◌≡◌, refl, true, false, if◌then◌else◌, List, [], ◌∷◌, Option, none, some, get_or,
}
use vncc.Media.{Media, MediaEvent, video, audio, message, decode, run_media, is_i_frame}
use vncc.Media.Frames.{IsUp, frames_had, frames_had-launched}
use vncc.Media.Once.{sent-run_media}

abbrev fresh_media : Media
fresh_media = record {
  video_ok = true;
  audio_ok = true;
  done = false;
  hand_kframe = true;
  first_v_frame = false;
  play_done = true;
  stop_render = false;
  h265 = false;
  auto_rate = false;
  bitrate = 3000;
  posted = [];
  decoded = [];
  opus = [];
  sent = [];
  conn = [];
  exited = false;
}

fresh_media-IsUp : IsUp fresh_media
fresh_media-IsUp = record {
  ready = refl;
  going = refl;
  gate = refl;
  shown = refl;
  renders = refl;
  runs = refl;
}

-- A message whose first byte is 1 ends the connection.
abbrev parse_first : List ℕ → Option ℕ
parse_first bytes = if get_or bytes 0 0 == 1 then some 6002 else none

abbrev delta : List ℕ
delta = 0 ∷ 0 ∷ 0 ∷ 1 ∷ 65 ∷ []

abbrev key : List ℕ
key = 0 ∷ 0 ∷ 0 ∷ 1 ∷ 101 ∷ []

-- The first frame is not a key frame.
is_i_frame-both : (is_i_frame false delta ≡ false) × (is_i_frame false key ≡ true)
unfolding is_i_frame
is_i_frame-both = (refl, refl)

abbrev session : List MediaEvent
session =
    video delta
    ∷ audio key
    ∷ message (2 ∷ [])
    ∷ decode
    ∷ video key
    ∷ message (1 ∷ [])
    ∷ video key
    ∷ []

frames_had-launched_example :
    frames_had (run_media parse_first session fresh_media) ≡ delta ∷ key ∷ []
frames_had-launched_example = frames_had-launched parse_first session fresh_media (record {
  made = refl;
  going = refl;
  gate = refl;
  shown = refl;
  renders = refl;
  runs = refl;
  none_posted = refl;
  none_decoded = refl;
})

sent-run_media_run :
    (run_media parse_first session fresh_media).sent
    ≡ record { cmd = 5000; param = 0 } ∷ record { cmd = 5001; param = 3000 } ∷ []
sent-run_media_run = sent-run_media parse_first session fresh_media fresh_media-IsUp
