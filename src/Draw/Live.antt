-- ===== src/Draw/Live.antt =====
-- What OpenGL holds for a renderer, in all states of the drawing thread.
use vncc.Base.{
  ℕ, ◌+◌, ◌==◌, ◌≡◌, Bool, true, false, not, ◌&&◌, if◌then◌else◌, List, [], ◌∷◌, Option, none, some,
  arith,
}
use vncc.Draw.{PixelFormat, Render, video_render, put_all, resize_texture}
use vncc.Draw.Setup.{Outcome, create_fbo, destroy, with_scene, init_task}
use vncc.Draw.Squares.{DrawIndices}
use vncc.Draw.Loop.{
  has_textures, draw_all, on_frame, timerdraw, filldata, setrect, Step, init, frame, timer, rotate,
  close, Reach, here, next,
}
use vncc.Draw.Names.{count-generate-delete, generate-unready, count-none}
use vncc.Draw.Held.{
  AreHeld, alone, and_none, both, video_render-AreHeld, destroy-AreHeld, resize_texture-AreHeld,
  check_yuv_texture-AreHeld,
}

draw_all-AreHeld :
    (is : List DrawIndices) (bufs : List (Option (List ℕ))) (r : Render)
    → AreHeld r
    → AreHeld (draw_all is bufs r)
unfolding draw_all
draw_all-AreHeld [] bufs r a = a
draw_all-AreHeld (i ∷ is) [] r a = record { names = a.names }
draw_all-AreHeld (i ∷ is) (none ∷ bufs) r a = draw_all-AreHeld is bufs r a
draw_all-AreHeld (i ∷ is) (some pixels ∷ bufs) r a =
    both AreHeld (has_textures r) _ _ (draw_all-AreHeld is bufs _ (record { names = a.names }))
      (record { names = a.names })

with_scene-AreHeld : (o : Outcome) (r : Render) → AreHeld r → AreHeld (with_scene o r)
with_scene-AreHeld o r a = both AreHeld (not o.scene_ok) r _ a (
    both AreHeld o.fb_ok _ _
      (both AreHeld r.single_res _ _ (record { names = a.names }) (record { names = a.names }))
      (record { names = a.names }))

module _ (gen_texture gen_framebuffer gen_renderbuffer : List ℕ → ℕ) where
  create_fbo-AreHeld :
      (r : Render) → AreHeld r → AreHeld (create_fbo gen_texture gen_framebuffer gen_renderbuffer r)
  unfolding create_fbo
  create_fbo-AreHeld r a = record {
    names = record {
      textures = λ n. last _ _ _ _ (
          count-generate-delete r.ready gen_texture r.tex_color_buffer.name r.live_textures n _
            (λ e. (a.names.unready e).no_color) (first _ _ _ _ (a.names.textures n)));
      framebuffers = λ n. alone (
          count-generate-delete r.ready gen_framebuffer r.framebuffer r.live_framebuffers n 0
            (λ e. (a.names.unready e).no_framebuffer) (and_none (a.names.framebuffers n)));
      renderbuffers = λ n. alone (
          count-generate-delete r.ready gen_renderbuffer r.rbo r.live_renderbuffers n 0
            (λ e. (a.names.unready e).no_rbo) (and_none (a.names.renderbuffers n)));
      unready = λ e. record {
        no_y = (a.names.unready e).no_y;
        no_u = (a.names.unready e).no_u;
        no_v = (a.names.unready e).no_v;
        no_color = generate-unready r.ready gen_texture _ e;
        no_framebuffer = generate-unready r.ready gen_framebuffer _ e;
        no_rbo = generate-unready r.ready gen_renderbuffer _ e;
      };
    };
  }
    where
      first : {c : ℕ} (y u v x : ℕ) → c ≡ y + (u + (v + x)) → c ≡ x + (y + (u + v))
      first y u v x e = omega arith

      last : {c : ℕ} (y u v x : ℕ) → c ≡ x + (y + (u + v)) → c ≡ y + (u + (v + x))
      last y u v x e = omega arith

  init_task-AreHeld :
      (o : Outcome) (r : Render)
      → r.ready ≡ false
      → AreHeld r
      → AreHeld (init_task gen_texture gen_framebuffer gen_renderbuffer o r)
  unfolding init_task
  init_task-AreHeld o r e a =
      both AreHeld (not o.surface_ok) _ _ (whichever false)
        (both AreHeld o.fbo_complete _ _ (with_scene-AreHeld o _ made_fbo) made_fbo)
    where
      whichever : (b : Bool) → AreHeld (record r { ready = b })
      whichever b = record {
        names = record {
          textures = a.names.textures;
          framebuffers = a.names.framebuffers;
          renderbuffers = a.names.renderbuffers;
          unready = λ f. a.names.unready e;
        };
      }

      made_fbo :
          AreHeld
            (create_fbo gen_texture gen_framebuffer gen_renderbuffer (record r { ready = true }))
      made_fbo = create_fbo-AreHeld (record r { ready = true }) (whichever true)

  on_frame-AreHeld :
      (current : Bool) (w h : ℕ) (r : Render)
      → AreHeld r
      → AreHeld (on_frame gen_texture gen_framebuffer gen_renderbuffer current w h r)
  unfolding on_frame
  on_frame-AreHeld current w h r a = both AreHeld _ _ _ a (
      both AreHeld _ _ _ a
        (both AreHeld current _ _ (draw_all-AreHeld _ _ _ sized) (destroy-AreHeld false _ sized)))
    where
      sized : AreHeld (
          if (w == r.pic_w) && (h == r.pic_h)
          then r
          else resize_texture gen_texture gen_framebuffer gen_renderbuffer w h r)
      sized =
          both AreHeld _ r _ a
            (resize_texture-AreHeld gen_texture gen_framebuffer gen_renderbuffer w h r a)

  timerdraw-AreHeld :
      (current : Bool) (r : Render)
      → AreHeld r
      → AreHeld (timerdraw gen_texture gen_framebuffer gen_renderbuffer current r)
  unfolding timerdraw
  timerdraw-AreHeld current r a = both AreHeld r.done _ _ (destroy-AreHeld true r a) (
      both AreHeld _ _ _ a (
        on_frame-AreHeld current _ _ _ (
          check_yuv_texture-AreHeld gen_texture gen_framebuffer gen_renderbuffer r.pic_w r.pic_h
            r.pix_fmt r a)))

  filldata-AreHeld :
      (bytes : List ℕ) (w h : ℕ) (fmt : PixelFormat) (r : Render)
      → AreHeld r
      → AreHeld (filldata gen_texture gen_framebuffer gen_renderbuffer bytes w h fmt r)
  unfolding filldata
  filldata-AreHeld bytes w h fmt r a = both AreHeld r.done _ _ a (record {
    names =
        (check_yuv_texture-AreHeld gen_texture gen_framebuffer gen_renderbuffer w h fmt
          (record r { pix_buf_array = put_all bytes r.pix_buf_array })
          (record { names = a.names })).names;
  })

  module _ (Fits : List ℕ → ℕ → ℕ → PixelFormat → Type 0) where
    Step-AreHeld :
        {r s : Render}
        → AreHeld r
        → Step gen_texture gen_framebuffer gen_renderbuffer Fits r s
        → AreHeld s
    unfolding setrect
    Step-AreHeld a (init r o e) = init_task-AreHeld o r e a
    Step-AreHeld a (frame r bytes w h fmt k) = filldata-AreHeld bytes w h fmt r a
    Step-AreHeld a (timer r current) = timerdraw-AreHeld current r a
    Step-AreHeld a (rotate r w h) = record { names = (destroy-AreHeld false r a).names }
    Step-AreHeld a (close r) = record { names = a.names }

    Reach-AreHeld :
        {r s : Render}
        → AreHeld r
        → Reach gen_texture gen_framebuffer gen_renderbuffer Fits r s
        → AreHeld s
    Reach-AreHeld a here = a
    Reach-AreHeld a (next before step) = Step-AreHeld (Reach-AreHeld a before) step

    -- Whatever names OpenGL gives, whatever frames come and however `Init` and the drawing end: in every
    -- state that the tasks of a new renderer lead to, OpenGL holds just the textures, the framebuffer and the
    -- renderbuffer that the variables of the renderer name, each once, and none without a context; `Destroy`
    -- leaves none of them. That is so if the task of `Init` runs only where there is no context.
    pub Reach-destroy :
        (width height : ℕ) (r : Render) (b_done : Bool)
        → Reach gen_texture gen_framebuffer gen_renderbuffer Fits (video_render width height) r
        → AreHeld r
          × (destroy b_done r).live_textures ≡ []
          × (destroy b_done r).live_framebuffers ≡ []
          × (destroy b_done r).live_renderbuffers ≡ []
    unfolding destroy
    Reach-destroy width height r b_done steps = (
      a,
      count-none _ (after.names.textures),
      count-none _ (after.names.framebuffers),
      count-none _ (after.names.renderbuffers),
    )
      where
        a : AreHeld r
        a = Reach-AreHeld (video_render-AreHeld width height) steps

        after : AreHeld (destroy b_done r)
        after = destroy-AreHeld b_done r a
