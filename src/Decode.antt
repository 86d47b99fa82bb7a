-- ===== src/Decode.antt =====
-- The decoder's pictures: `video_decode`, `callocAVFrame` and `loop_check_render` of
-- erender/eAVRender.cpp. FFmpeg is a parameter: the frames that `avcodec_receive_frame` gives for a packet
-- until it gives none, what `av_hwframe_transfer_data` makes of a frame and of the frame that it fills,
-- what `sws_scale` makes, and the format of the hardware. The bytes of a frame are those that
-- `av_image_copy_to_buffer` takes out of it.
pub mod Pictures
mod Tests
use vncc.Base.{
  ℕ, ◌+◌, ◌-◌, ◌==◌, ltb, Bool, true, false, not, ◌&&◌, if◌then◌else◌, List, [], ◌∷◌, ◌++◌, Option,
  none, some, length,
}
use vncc.Draw.{PixelFormat, render_unknow, render_yuv420p, render_nv12}

pub data AvFormat : Type 0 where
  av_yuv420p av_nv12 : AvFormat
  av_other : ℕ → AvFormat

abbrev pub same_av : AvFormat → AvFormat → Bool
same_av av_yuv420p av_yuv420p = true
same_av av_nv12 av_nv12 = true
same_av (av_other a) (av_other b) = a == b
same_av _ _ = false

pub record AvFrame : Type 0 where
  pub width : ℕ
  pub height : ℕ
  pub format : AvFormat
  pub bytes : List ℕ

-- A picture on its way to the renderer, or to another process.
pub record Picture : Type 0 where
  pub width : ℕ
  pub height : ℕ
  pub format : PixelFormat
  pub bytes : List ℕ

-- `pYUV420Frame`: a frame of its own, or the decoder's, which by the next time is the frame at hand.
pub data YuvFrame : Type 0 where
  no_yuv shared : YuvFrame
  own : AvFrame → YuvFrame

-- `b_ratio_send` with what was told, `sws_context` with what it was made for, `pYUV420Frame`,
-- `sw_frame` with what was transferred into it last and never taken out (`none` is a clean frame), `yuv_vec`
-- with `out_*`, `g_b_check_run`, and the pictures that were filled in and that were sent.
pub record Decoder : Type 0 where
  pub ratio : Option (ℕ × ℕ)
  pub sws_context : Option (ℕ × ℕ × AvFormat)
  pub yuv_frame : YuvFrame
  pub sw_frame : Option AvFrame
  pub kept : Option Picture
  pub check_run : Bool
  pub filled : List Picture
  pub sent : List Picture

-- `none` is a read at a null pointer: it is the pointer's own copy that is cleared, not the frame.
unfoldable pub calloc_av_frame : AvFrame → YuvFrame → Option AvFrame
calloc_av_frame t no_yuv =
    some (record { width = t.width; height = t.height; format = av_yuv420p; bytes = [] })
calloc_av_frame t (own f) = if (f.width == t.width) && (f.height == t.height) then some f else none
calloc_av_frame t shared = some t

abbrev pub pixel_format : AvFormat → PixelFormat
pixel_format av_yuv420p = render_yuv420p
pixel_format av_nv12 = render_nv12
pixel_format (av_other n) = render_unknow

abbrev pub picture_of : AvFrame → Picture
picture_of f = record {
  width = f.width;
  height = f.height;
  format = pixel_format f.format;
  bytes = f.bytes;
}

abbrev pub is_drawable : PixelFormat → Bool
is_drawable render_unknow = false
is_drawable _ = true

-- The picture is handed to the renderer, if there is one.
unfoldable pub hand_over : Bool → AvFrame → Decoder → Decoder
hand_over render f d =
    if not (is_drawable (pixel_format f.format))
    then d
    else if render
    then record d { filled = d.filled ++ picture_of f ∷ [] }
    else record d {
      kept = some (picture_of f);
      sent = d.sent ++ picture_of f ∷ [];
      check_run = true;
    }

abbrev pub update_ratio : AvFrame → Option (ℕ × ℕ) → Option (ℕ × ℕ)
update_ratio f none = some (f.width, f.height)
update_ratio f (some told) = some told

-- `sws_getContext`, at the first frame.
abbrev pub context_for : AvFrame → Option (ℕ × ℕ × AvFormat) → ℕ × ℕ × AvFormat
context_for t none = (t.width, t.height, t.format)
context_for t (some c) = c

-- `loop_check_render`: the picture that was sent last is sent again after a second without another.
unfoldable pub loop_check_render : Bool → Decoder → Decoder
loop_check_render late d = if late then again d.kept else d
  where
    again : Option Picture → Decoder
    again none = d
    again (some p) = record d { sent = d.sent ++ p ∷ [] }

abbrev pub scaled : Bool → AvFrame → Option (List ℕ) → Decoder → Decoder
scaled render f none d = d
scaled render f (some bytes) d = hand_over render (record f { bytes = bytes }) d

abbrev pub kept_as : AvFrame → YuvFrame → YuvFrame
kept_as f shared = shared
kept_as f no_yuv = own f
kept_as f (own g) = own f

-- The rest of the loop, if it goes on.
abbrev pub and_on : Option (Bool × Decoder) → (Decoder → Option Decoder) → Option Decoder
and_on none rest = none
and_on (some (go_on, d)) rest = if go_on then rest d else some d

module _ (hw_pix_fmt : AvFormat) (transfer : Option AvFrame → AvFrame → Option AvFrame)
    (scale : ℕ × ℕ × AvFormat → AvFrame → AvFrame → Option (List ℕ)) where
  -- A frame that is no NV12 goes through `sws_scale` into a frame of its own.
  abbrev pub convert : Bool → AvFrame → Option AvFrame → Decoder → Option Decoder
  convert render t none d = none
  convert render t (some f) d = some (
      scaled render f (scale (context_for t d.sws_context) t f) (record d {
        sws_context = some (context_for t d.sws_context);
        yuv_frame = kept_as f d.yuv_frame;
      }))

  -- A frame of the hardware. The truth value says whether the loop goes on: it ends if the transfer fails.
  abbrev pub from_hardware : Bool → Option AvFrame → Decoder → Option (Bool × Decoder)
  from_hardware render none d = some (false, d)
  from_hardware render (some t) d =
      if same_av t.format av_nv12
      then some (true, hand_over render t (record d { yuv_frame = shared; sw_frame = some t }))
      else goes_on
          (convert render t (calloc_av_frame t d.yuv_frame) (record d { sw_frame = some t }))
    where
      goes_on : Option Decoder → Option (Bool × Decoder)
      goes_on none = none
      goes_on (some d') = some (true, d')

  unfoldable pub one_frame : Bool → AvFrame → Decoder → Option (Bool × Decoder)
  one_frame render f d =
      let d' : Decoder = record d { ratio = update_ratio f d.ratio } in
      if same_av f.format hw_pix_fmt
      then from_hardware render (transfer d.sw_frame f) d'
      else some (true, hand_over render f (record d' { yuv_frame = shared }))

  -- `video_decode`, for a packet that was taken: the frames that come for it. `none` is a fault.
  unfoldable pub video_decode : Bool → List AvFrame → Decoder → Option Decoder
  video_decode render [] d = some d
  video_decode render (f ∷ fs) d = and_on (one_frame render f d) (λ d'. video_decode render fs d')
