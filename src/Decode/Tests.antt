-- ===== src/Decode/Tests.antt =====
-- The decoder on a few frames.
use vncc.Base.{ℕ, ◌≡◌, refl, false, List, [], ◌∷◌, Option, none, some}
use vncc.Decode.{
  AvFormat, av_yuv420p, av_nv12, av_other, AvFrame, Decoder, no_yuv, own, calloc_av_frame,
}

abbrev decoder : Decoder
decoder = record {
  ratio = none;
  sws_context = none;
  yuv_frame = no_yuv;
  sw_frame = none;
  kept = none;
  check_run = false;
  filled = [];
  sent = [];
}

abbrev soft : AvFrame
soft = record { width = 2; height = 2; format = av_yuv420p; bytes = 1 ∷ 2 ∷ 3 ∷ 4 ∷ 5 ∷ 6 ∷ [] }

abbrev hard : AvFrame
hard = record { width = 4; height = 2; format = av_other 44; bytes = [] }

abbrev transferred : AvFormat → Option AvFrame → AvFrame → Option AvFrame
transferred format none f = some (record f { format = format; bytes = 7 ∷ 8 ∷ [] })
transferred format (some old) f =
    some (record f { width = old.width; height = old.height; format = format; bytes = 7 ∷ 8 ∷ [] })

abbrev width_or : ℕ → Option AvFrame → ℕ
width_or n none = n
width_or n (some f) = f.width

abbrev height_or : ℕ → Option AvFrame → ℕ
height_or n none = n
height_or n (some f) = f.height

abbrev no_scale : ℕ × ℕ × AvFormat → AvFrame → AvFrame → Option (List ℕ)
no_scale context t f = some (9 ∷ [])

abbrev shown : AvFrame
shown = record { width = 4; height = 2; format = av_nv12; bytes = 7 ∷ 8 ∷ [] }

-- The frame of its own that is there has another size.
size_change_faults : calloc_av_frame hard (own (record hard { width = 8 })) ≡ none
unfolding calloc_av_frame
size_change_faults = refl
