-- ===== src/Draw/Loop.antt =====
-- The tasks of the drawing thread, one after the other: `OnFrame`, `timerdraw`, `filldata`, `rotate`,
-- `setrect` and `Close` of common/evideorender.cpp.
use vncc.Base.{
  ℕ, ◌==◌, ◌≡◌, Bool, true, false, not, ◌&&◌, ◌||◌, if◌then◌else◌, List, [], ◌∷◌, ◌++◌, Option,
  none, some,
}
use vncc.Draw.{PixelFormat, Drawing, Render, put_all, resize_texture, check_yuv_texture}
use vncc.Draw.Setup.{Outcome, destroy, init_task}
use vncc.Draw.Squares.{DrawIndices}

abbrev pub no_buffers : List (Option (List ℕ)) → Bool
no_buffers [] = true
no_buffers (b ∷ bs) = false

abbrev pub draw_one : List ℕ → Render → Drawing
draw_one pixels r = record {
  pic_w = r.pic_w;
  pic_h = r.pic_h;
  pix_fmt = r.pix_fmt;
  texture_y = r.texture_y;
  texture_u = r.texture_u;
  texture_v = r.texture_v;
  pixels = pixels;
}

-- `textureY_ && textureU_ && textureV_`.
abbrev pub has_textures : Render → Bool
has_textures r =
    not (r.texture_y.name == 0) && (not (r.texture_u.name == 0) && not (r.texture_v.name == 0))

-- The loop over `_indarray`.
unfoldable pub draw_all : List DrawIndices → List (Option (List ℕ)) → Render → Render
draw_all [] bufs r = r
draw_all (i ∷ is) [] r = record r { aborted = true }
draw_all (i ∷ is) (none ∷ bufs) r = draw_all is bufs r
draw_all (i ∷ is) (some pixels ∷ bufs) r =
    let later = draw_all is bufs (record r { drawn = r.drawn ++ draw_one pixels r ∷ [] }) in
    if has_textures r then later else record r { aborted = true }

-- `rotate` and `setrect`, up to the call of `Init`.
unfoldable pub setrect : ℕ → ℕ → Render → Render
setrect w h r = record (destroy false r) { width = w; height = h }

module _ (gen_texture gen_framebuffer gen_renderbuffer : List ℕ → ℕ) where
  -- `current` is what `eglMakeCurrent` answers. If it fails, `Init` is called after `Destroy`.
  unfoldable pub on_frame : Bool → ℕ → ℕ → Render → Render
  on_frame current w h r =
      if r.done || (no_buffers r.pix_buf_array || not r.ready)
      then r
      else if (r.framebuffer == 0) || ((r.tex_color_buffer.name == 0) || (r.rbo == 0))
      then r
      else (let r' =
            if (w == r.pic_w) && (h == r.pic_h)
            then r
            else resize_texture gen_texture gen_framebuffer gen_renderbuffer w h r in
          if current then draw_all r'.indarray r'.pix_buf_array r' else destroy false r')

  unfoldable pub timerdraw : Bool → Render → Render
  unfolding on_frame
  timerdraw current r =
      if r.done
      then destroy true r
      else if no_buffers r.pix_buf_array
      then r
      else (let r' =
            check_yuv_texture gen_texture gen_framebuffer gen_renderbuffer r.pic_w r.pic_h r.pix_fmt
              r in
          on_frame current r'.pic_w r'.pic_h r')

  -- The task of `filldata`.
  unfoldable pub filldata : List ℕ → ℕ → ℕ → PixelFormat → Render → Render
  filldata bytes w h fmt r =
      if r.done
      then r
      else record (check_yuv_texture gen_texture gen_framebuffer gen_renderbuffer w h fmt
          (record r { pix_buf_array = put_all bytes r.pix_buf_array })) { timer_start = true }

  -- What the thread and `Close` do. The task of `Init` is posted at the start and after each `Destroy`
  -- but the last; here it runs only where there is no context, and so not for a second time after two
  -- calls of `rotate` in a row. `Fits` says what frames are handed over.
  pub data Step (Fits : List ℕ → ℕ → ℕ → PixelFormat → Type 0) : Render → Render → Type 0 where
    init :
        (r : Render) (o : Outcome)
        → r.ready ≡ false
        → Step Fits r (init_task gen_texture gen_framebuffer gen_renderbuffer o r)
    frame :
        (r : Render) (bytes : List ℕ) (w h : ℕ) (fmt : PixelFormat)
        → Fits bytes w h fmt
        → Step Fits r (filldata bytes w h fmt r)
    timer : (r : Render) (current : Bool) → Step Fits r (timerdraw current r)
    rotate : (r : Render) (w h : ℕ) → Step Fits r (setrect w h r)
    close : (r : Render) → Step Fits r (record r { done = true })

  pub data Reach (Fits : List ℕ → ℕ → ℕ → PixelFormat → Type 0) (r : Render) : Render → Type 0 where
    here : Reach Fits r r
    next : {s t : Render} → Reach Fits r s → Step Fits s t → Reach Fits r t
