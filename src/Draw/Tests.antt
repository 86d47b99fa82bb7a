-- ===== src/Draw/Tests.antt =====
-- The renderer on one picture.
use vncc.Base.{false, ℕ, ◌*◌, ◌/◌, ◌<◌, ◌==◌, All, take, arith, ◌+◌, ◌≡◌, refl, true, List, [], ◌∷◌}
use vncc.Draw.Reads.{IsWhole, rows}
use vncc.Draw.Drawn.{IsDrawn}
use vncc.Draw.Frames.{Reach-IsDrawn}
use vncc.Draw.Shown.{IsUp, IsShown, timerdraw-filldata}
use vncc.Draw.{generate, delete, PixelFormat, render_yuv420p, Render, video_render}
use vncc.Draw.Squares.{generate_square_array}
use vncc.Draw.Setup.{create_fbo, Outcome, destroy, init_task}
use vncc.Draw.Loop.{filldata, timerdraw, setrect, init, frame, timer, rotate, Reach, here, next}
use vncc.Draw.Held.{AreHeld}
use vncc.Draw.Live.{Reach-destroy}

-- A name that is not in use.
abbrev fresh : List ℕ → ℕ
fresh [] = 1
fresh (n ∷ ns) = n + 1

abbrev all_well : Outcome
all_well = record { surface_ok = true; fbo_complete = true; scene_ok = true; fb_ok = true }

abbrev AnyFrame : List ℕ → ℕ → ℕ → PixelFormat → Type 0
AnyFrame bytes w h fmt = ℕ

-- Two by two pixels: four bytes of Y, one of U and one of V.
abbrev pixels : List ℕ
pixels = 16 ∷ 17 ∷ 18 ∷ 19 ∷ 128 ∷ 129 ∷ []

-- The surface is made, a picture comes and is drawn, and the window turns.
abbrev turned : Render
turned = setrect 4 2 (
    timerdraw fresh fresh fresh true (
      filldata fresh fresh fresh pixels 2 2 render_yuv420p
        (init_task fresh fresh fresh all_well (video_render 2 4))))

steps : Reach fresh fresh fresh AnyFrame (video_render 2 4) turned
unfolding video_render
steps =
    next
      (next (next (next here (init _ all_well refl)) (frame _ pixels 2 2 render_yuv420p 0))
        (timer _ true))
      (rotate _ 4 2)

Reach-destroy_example :
    AreHeld turned
    × (destroy true turned).live_textures ≡ []
    × (destroy true turned).live_framebuffers ≡ []
    × (destroy true turned).live_renderbuffers ≡ []
Reach-destroy_example = Reach-destroy fresh fresh fresh AnyFrame 2 4 turned true steps

-- Eight by two pixels: sixteen bytes of Y, four of U and four of V.
abbrev whole_frame : List ℕ
whole_frame =
    1 ∷ 2 ∷ 3 ∷ 4 ∷ 5 ∷ 6 ∷ 7 ∷ 8 ∷ 9 ∷ 10 ∷ 11 ∷ 12 ∷ 13 ∷ 14 ∷ 15 ∷ 16 ∷ 128 ∷ 129 ∷ 130 ∷ 131
    ∷ 64 ∷ 65 ∷ 66 ∷ 67 ∷ []

whole_frame-IsWhole : IsWhole whole_frame 8 2 render_yuv420p
whole_frame-IsWhole = record {
  columns = 1;
  lines = 1;
  eights = refl;
  twos = refl;
  all_bytes = omega arith;
}

abbrev started : Render
started = init_task fresh fresh fresh all_well (video_render 2 4)

abbrev drawn_once : Render
drawn_once =
    timerdraw fresh fresh fresh true
      (filldata fresh fresh fresh whole_frame 8 2 render_yuv420p started)

one_frame : Reach fresh fresh fresh IsWhole (video_render 2 4) drawn_once
unfolding video_render
one_frame =
    next
      (next (next here (init _ all_well refl))
        (frame _ whole_frame 8 2 render_yuv420p whole_frame-IsWhole))
      (timer _ true)

Reach-IsDrawn_example : All IsDrawn drawn_once.drawn
Reach-IsDrawn_example = Reach-IsDrawn fresh fresh fresh 2 4 drawn_once one_frame

fresh_named : (ns : List ℕ) → (fresh ns == 0) ≡ false
fresh_named [] = refl
fresh_named (n ∷ ns) = ground (arith)

started-IsUp : IsUp started
unfolding video_render init_task create_fbo generate delete generate_square_array
started-IsUp = record {
  index = _;
  buffer = _;
  not_done = refl;
  is_ready = refl;
  one_square = refl;
  one_buffer = refl;
  named_framebuffer = refl;
  named_color = refl;
  named_rbo = refl;
}

timerdraw-filldata_example :
    (pixels : List ℕ) × (take 24 pixels ≡ whole_frame)
    × IsShown started.drawn started.aborted 8 2 render_yuv420p pixels drawn_once
timerdraw-filldata_example =
    timerdraw-filldata fresh fresh fresh whole_frame 8 2 render_yuv420p started fresh_named refl
      refl started-IsUp

-- Six by four pixels: the rows of V, three bytes each with one for padding, end past the 36 bytes.
past_the_end : 36 < 6 * 4 * 5 / 4 + rows 3 2
past_the_end = omega arith
