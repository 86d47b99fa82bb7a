-- ===== src/Draw/Frames.antt =====
-- What the drawing thread draws, in all its states.
use vncc.Base.{
  ℕ, ◌/◌, ◌==◌, ◌≡◌, refl, subst, ==_iff, Bool, true, false, not, ◌&&◌, ◌||◌, if◌then◌else◌, inl,
  inr, List, length, All,
}
use vncc.Draw.{
  PixelFormat, render_unknow, render_yuv420p, render_nv12, Render, video_render, put_all,
  greate_yuv_texture, make_textures, same_format, delete_three, resize_texture, check_yuv_texture,
}
use vncc.Draw.Setup.{Outcome, create_fbo, init_task}
use vncc.Draw.Loop.{
  on_frame, timerdraw, filldata, setrect, Step, init, frame, timer, rotate, close, Reach, here,
  next,
}
use vncc.Draw.Held.{both}
use vncc.Draw.Reads.{IsReadable, IsWhole, IsWhole-IsReadable, Kept, put_all-Kept}
use vncc.Draw.Drawn.{
  IsShaped, IsDrawn, IsSafe, video_render-IsSafe, destroy-IsSafe, with_scene-IsSafe,
  draw_all-IsSafe, if_both, split_same, same_format-eq,
}

module _ (gen_texture gen_framebuffer gen_renderbuffer : List ℕ → ℕ) where
  make_textures-IsSafe :
      (fmt : PixelFormat) (w h : ℕ) (r : Render)
      → All (Kept r.pix_fmt w h) r.pix_buf_array
      → All IsDrawn r.drawn
      → IsSafe
          (record (make_textures gen_texture gen_framebuffer gen_renderbuffer fmt w h
            (delete_three r)) { pic_w = w; pic_h = h })
  unfolding greate_yuv_texture
  make_textures-IsSafe render_unknow w h r k d = record {
    parts = record {
      kept = k;
      shaped_y = inl refl;
      shaped_u = inl refl;
      shaped_v = inl refl;
      all_drawn = d;
    };
  }
  make_textures-IsSafe render_yuv420p w h r k d = record {
    parts = record {
      kept = k;
      shaped_y = inr (refl, refl);
      shaped_u = inr (refl, refl);
      shaped_v = inr (refl, refl);
      all_drawn = d;
    };
  }
  make_textures-IsSafe render_nv12 w h r k d = record {
    parts = record {
      kept = k;
      shaped_y = inr (refl, refl);
      shaped_u = inr (refl, refl);
      shaped_v = inr (refl, refl);
      all_drawn = d;
    };
  }

  resize_texture-IsSafe :
      (w h : ℕ) (r : Render)
      → All (Kept r.pix_fmt w h) r.pix_buf_array
      → All IsDrawn r.drawn
      → IsSafe (resize_texture gen_texture gen_framebuffer gen_renderbuffer w h r)
  unfolding resize_texture
  resize_texture-IsSafe w h r k d = make_textures-IsSafe r.pix_fmt w h r k d

  -- With the bytes of a new picture in the buffers.
  check_yuv_texture-IsSafe :
      (w h : ℕ) (fmt : PixelFormat) (r : Render)
      → All (Kept fmt w h) r.pix_buf_array
      → IsShaped r.texture_y r.pic_w r.pic_h
      → IsShaped r.texture_u (r.pic_w / 2) (r.pic_h / 2)
      → IsShaped r.texture_v (r.pic_w / 2) (r.pic_h / 2)
      → All IsDrawn r.drawn
      → IsSafe (check_yuv_texture gen_texture gen_framebuffer gen_renderbuffer w h fmt r)
  unfolding check_yuv_texture
  check_yuv_texture-IsSafe w h fmt r k y u v d =
      if_both IsSafe _ _ r (λ e. resize_texture-IsSafe w h (record r { pix_fmt = fmt }) k d)
        (λ e. unchanged e)
    where
      unchanged :
          (not ((w == r.pic_w) && ((h == r.pic_h) && same_format fmt r.pix_fmt))
              || ((r.texture_y.name == 0) || ((r.texture_u.name == 0) || (r.texture_v.name == 0))))
            ≡ false
          → IsSafe r
      unchanged e =
          let (ew, eh, ef, ed) =
            split_same (w == r.pic_w) (h == r.pic_h) (same_format fmt r.pix_fmt) _ e in
          record {
            parts = record {
              kept =
                  subst (λ f. All (Kept f r.pic_w r.pic_h) r.pix_buf_array)
                    (same_format-eq fmt r.pix_fmt ef)
                    (subst (λ n. All (Kept fmt r.pic_w n) r.pix_buf_array) ((==_iff h r.pic_h).0 eh)
                      (subst (λ n. All (Kept fmt n h) r.pix_buf_array) ((==_iff w r.pic_w).0 ew)
                        k));
              shaped_y = y;
              shaped_u = u;
              shaped_v = v;
              all_drawn = d;
            };
          }

  init_task-IsSafe :
      (o : Outcome) (r : Render)
      → IsSafe r
      → IsSafe (init_task gen_texture gen_framebuffer gen_renderbuffer o r)
  unfolding init_task create_fbo
  init_task-IsSafe o r s =
      both IsSafe (not o.surface_ok) _ _ (record { parts = s.parts })
        (both IsSafe o.fbo_complete _ _ (with_scene-IsSafe o _ (record { parts = s.parts }))
          (record { parts = s.parts }))

  on_frame-IsSafe :
      (current : Bool) (r : Render)
      → IsSafe r
      → IsSafe (on_frame gen_texture gen_framebuffer gen_renderbuffer current r.pic_w r.pic_h r)
  unfolding on_frame
  on_frame-IsSafe current r s = both IsSafe _ _ _ s (
      both IsSafe _ _ _ s (
        both IsSafe current _ _ (draw_all-IsSafe _ _ _ sized.parts.kept sized)
          (destroy-IsSafe false _ sized)))
    where
      sized : IsSafe (
          if (r.pic_w == r.pic_w) && (r.pic_h == r.pic_h)
          then r
          else resize_texture gen_texture gen_framebuffer gen_renderbuffer r.pic_w r.pic_h r)
      sized =
          both IsSafe _ r _ s
            (resize_texture-IsSafe r.pic_w r.pic_h r s.parts.kept s.parts.all_drawn)

  timerdraw-IsSafe :
      (current : Bool) (r : Render)
      → IsSafe r
      → IsSafe (timerdraw gen_texture gen_framebuffer gen_renderbuffer current r)
  unfolding timerdraw
  timerdraw-IsSafe current r s = both IsSafe r.done _ _ (destroy-IsSafe true r s) (
      both IsSafe _ _ _ s (
        on_frame-IsSafe current _ (
          check_yuv_texture-IsSafe r.pic_w r.pic_h r.pix_fmt r s.parts.kept s.parts.shaped_y
            s.parts.shaped_u s.parts.shaped_v s.parts.all_drawn)))

  filldata-IsSafe :
      (bytes : List ℕ) (w h : ℕ) (fmt : PixelFormat) (r : Render)
      → IsReadable fmt w h (length bytes)
      → IsSafe r
      → IsSafe (filldata gen_texture gen_framebuffer gen_renderbuffer bytes w h fmt r)
  unfolding filldata
  filldata-IsSafe bytes w h fmt r a s = both IsSafe r.done _ _ s (record {
    parts =
        (check_yuv_texture-IsSafe w h fmt
          (record r { pix_buf_array = put_all bytes r.pix_buf_array })
          (put_all-Kept fmt w h bytes r.pix_buf_array a) s.parts.shaped_y s.parts.shaped_u
          s.parts.shaped_v s.parts.all_drawn).parts;
  })

  Step-IsSafe :
      {r s : Render}
      → IsSafe r
      → Step gen_texture gen_framebuffer gen_renderbuffer IsWhole r s
      → IsSafe s
  unfolding setrect
  Step-IsSafe a (init r o e) = init_task-IsSafe o r a
  Step-IsSafe a (frame r bytes w h fmt whole) =
      filldata-IsSafe bytes w h fmt r (IsWhole-IsReadable bytes w h fmt whole) a
  Step-IsSafe a (timer r current) = timerdraw-IsSafe current r a
  Step-IsSafe a (rotate r w h) = record { parts = (destroy-IsSafe false r a).parts }
  Step-IsSafe a (close r) = record { parts = a.parts }

  all_steps-IsSafe :
      {r s : Render}
      → IsSafe r
      → Reach gen_texture gen_framebuffer gen_renderbuffer IsWhole r s
      → IsSafe s
  all_steps-IsSafe a here = a
  all_steps-IsSafe a (next before step) = Step-IsSafe (all_steps-IsSafe a before) step

  -- If each frame that is handed over has a width that is a multiple of eight, an even height and all the
  -- bytes of its size, then every picture that is drawn is read within its bytes, and the textures that are
  -- drawn with have its size: however frames of other sizes and formats, failures and turns of the window
  -- come between.
  pub Reach-IsDrawn :
      (width height : ℕ) (r : Render)
      → Reach gen_texture gen_framebuffer gen_renderbuffer IsWhole (video_render width height) r
      → All IsDrawn r.drawn
  Reach-IsDrawn width height r steps =
      (all_steps-IsSafe (video_render-IsSafe width height) steps).parts.all_drawn
