-- ===== src/Draw/Shown.antt =====
-- A frame that comes to a renderer that is up is drawn at the next turn of the timer.
use vncc.Base.{
  ℕ, ◌==◌, ◌≡◌, refl, sym, subst, Bool, true, false, ◌&&◌, if◌then◌else◌, Bool-cases, inl, inr,
  List, [], ◌∷◌, ◌++◌, Option, none, some, length, drop, take, take_all, take-append, ltb, arith,
}
use vncc.Draw.{PixelFormat, Drawing, Render, put_data, resize_texture, check_yuv_texture}
use vncc.Draw.Squares.{DrawIndices}
use vncc.Draw.Loop.{draw_one, draw_all, on_frame, timerdraw, filldata}
use vncc.Draw.Drawn.{if_both}
use vncc.Draw.Textured.{
  IsKnown, IsTextured, resize_texture-IsTextured, check_yuv_texture-IsTextured,
}

-- One drawing more, of these bytes as a picture of this size and format, and no failure more.
pub record IsShown (before : List Drawing) (failed : Bool) (w h : ℕ) (fmt : PixelFormat)
    (pixels : List ℕ) (x : Render) : Type 0 where
  pub drawing : Drawing
  pub drawn : x.drawn ≡ before ++ drawing ∷ []
  pub size_w : drawing.pic_w ≡ w
  pub size_h : drawing.pic_h ≡ h
  pub format : drawing.pix_fmt ≡ fmt
  pub bytes : drawing.pixels ≡ pixels
  pub unfailed : x.aborted ≡ failed

draw_all_one :
    (i : DrawIndices) (pixels : List ℕ) (x : Render)
    → (x.texture_y.name == 0) ≡ false
    → (x.texture_u.name == 0) ≡ false
    → (x.texture_v.name == 0) ≡ false
    → draw_all (i ∷ []) (some pixels ∷ []) x
      ≡ record x { drawn = x.drawn ++ draw_one pixels x ∷ [] }
unfolding draw_all
draw_all_one i pixels x y u v = rw (y, u, v) refl

-- A renderer that is up, with one square and its buffer.
abbrev running : DrawIndices → Option (List ℕ) → Render → Render
running i p r = record r { done = false; ready = true; indarray = i ∷ []; pix_buf_array = p ∷ [] }

draw_all-IsShown :
    (w h : ℕ) (fmt : PixelFormat) (i : DrawIndices) (pixels : List ℕ) (r x : Render)
    → IsTextured (running i (some pixels) r) w h fmt x
    → IsShown r.drawn r.aborted w h fmt pixels (draw_all x.indarray x.pix_buf_array x)
draw_all-IsShown w h fmt i pixels r x t =
    subst (λ s. IsShown r.drawn r.aborted w h fmt pixels (draw_all s.indarray s.pix_buf_array s))
      (sym t.same) shown
  where
    after : Render
    after = record (running i (some pixels) r) {
      pic_w = w;
      pic_h = h;
      pix_fmt = fmt;
      texture_y = t.y;
      texture_u = t.u;
      texture_v = t.v;
      live_textures = t.live;
    }

    shown : IsShown r.drawn r.aborted w h fmt pixels (draw_all (i ∷ []) (some pixels ∷ []) after)
    shown =
        subst (λ s. IsShown r.drawn r.aborted w h fmt pixels s)
          (sym (draw_all_one i pixels after t.named_y t.named_u t.named_v))
          (record {
            drawing = draw_one pixels after;
            drawn = refl;
            size_w = refl;
            size_h = refl;
            format = refl;
            bytes = refl;
            unfailed = refl;
          })

-- What a buffer holds after the bytes of a frame were put into it.
put_data-starts :
    (bytes : List ℕ) (p : Option (List ℕ))
    → (length bytes == 0) ≡ false
    → (pixels : List ℕ) × (put_data bytes p ≡ some pixels) × (take (length bytes) pixels ≡ bytes)
unfolding put_data
put_data-starts bytes none e = (bytes, rw e refl, take_all (length bytes) bytes (omega arith))
put_data-starts bytes (some old) e = elim (Bool-cases (ltb (length old) (length bytes))) [
  | inl f ↦ (bytes, rw f refl, take_all (length bytes) bytes (omega arith))
  | inr f ↦
      (bytes ++ drop (length bytes) old, rw f refl, take-append bytes (drop (length bytes) old))
]

-- A renderer that is up: it is not closed and has a context, a framebuffer, a square and its buffer.
pub record IsUp (r : Render) : Type 0 where
  pub index : DrawIndices
  pub buffer : Option (List ℕ)
  pub not_done : r.done ≡ false
  pub is_ready : r.ready ≡ true
  pub one_square : r.indarray ≡ index ∷ []
  pub one_buffer : r.pix_buf_array ≡ buffer ∷ []
  pub named_framebuffer : (r.framebuffer == 0) ≡ false
  pub named_color : (r.tex_color_buffer.name == 0) ≡ false
  pub named_rbo : (r.rbo == 0) ≡ false

module _ (gen_texture gen_framebuffer gen_renderbuffer : List ℕ → ℕ) where
  on_frame-IsShown :
      (i : DrawIndices) (pixels : List ℕ) (r : Render)
      → ((ns : List ℕ) → (gen_texture ns == 0) ≡ false)
      → IsKnown r.pix_fmt
      → (r.framebuffer == 0) ≡ false
      → (r.tex_color_buffer.name == 0) ≡ false
      → (r.rbo == 0) ≡ false
      → (r.texture_y.name == 0) ≡ false
      → (r.texture_u.name == 0) ≡ false
      → (r.texture_v.name == 0) ≡ false
      → IsShown r.drawn r.aborted r.pic_w r.pic_h r.pix_fmt pixels (
          on_frame gen_texture gen_framebuffer gen_renderbuffer true r.pic_w r.pic_h
            (running i (some pixels) r))
  unfolding on_frame
  on_frame-IsShown i pixels r named k fb color rb y u v =
      rw (fb, color, rb) (draw_all-IsShown r.pic_w r.pic_h r.pix_fmt i pixels r _ sized)
    where
      now : Render
      now = running i (some pixels) r

      sized : IsTextured now r.pic_w r.pic_h r.pix_fmt (
          if (r.pic_w == r.pic_w) && (r.pic_h == r.pic_h)
          then now
          else resize_texture gen_texture gen_framebuffer gen_renderbuffer r.pic_w r.pic_h now)
      sized =
          if_both (IsTextured now r.pic_w r.pic_h r.pix_fmt) _ now _
            (λ e. record {
              y = r.texture_y;
              u = r.texture_u;
              v = r.texture_v;
              live = r.live_textures;
              same = refl;
              named_y = y;
              named_u = u;
              named_v = v;
            })
            (λ e.
              resize_texture-IsTextured gen_texture gen_framebuffer gen_renderbuffer r.pic_w r.pic_h
                r.pix_fmt now named k)

  timerdraw-IsShown :
      (i : DrawIndices) (pixels : List ℕ) (r : Render)
      → ((ns : List ℕ) → (gen_texture ns == 0) ≡ false)
      → IsKnown r.pix_fmt
      → (r.framebuffer == 0) ≡ false
      → (r.tex_color_buffer.name == 0) ≡ false
      → (r.rbo == 0) ≡ false
      → IsShown r.drawn r.aborted r.pic_w r.pic_h r.pix_fmt pixels
          (timerdraw gen_texture gen_framebuffer gen_renderbuffer true (running i (some pixels) r))
  unfolding timerdraw
  timerdraw-IsShown i pixels r named k fb color rb =
      subst
        (λ s.
          IsShown r.drawn r.aborted r.pic_w r.pic_h r.pix_fmt pixels
            (on_frame gen_texture gen_framebuffer gen_renderbuffer true s.pic_w s.pic_h s))
        (sym t.same)
        (on_frame-IsShown i pixels
          (record r { texture_y = t.y; texture_u = t.u; texture_v = t.v; live_textures = t.live })
          named k fb color rb t.named_y t.named_u t.named_v)
    where
      now : Render
      now = running i (some pixels) r

      t : IsTextured now r.pic_w r.pic_h r.pix_fmt (
          check_yuv_texture gen_texture gen_framebuffer gen_renderbuffer r.pic_w r.pic_h r.pix_fmt
            now)
      t =
          check_yuv_texture-IsTextured gen_texture gen_framebuffer gen_renderbuffer r.pic_w r.pic_h
            r.pix_fmt now named k

  filldata-IsShown :
      (bytes : List ℕ) (w h : ℕ) (fmt : PixelFormat) (i : DrawIndices) (p : Option (List ℕ))
      (pixels : List ℕ) (r : Render)
      → ((ns : List ℕ) → (gen_texture ns == 0) ≡ false)
      → IsKnown fmt
      → (r.framebuffer == 0) ≡ false
      → (r.tex_color_buffer.name == 0) ≡ false
      → (r.rbo == 0) ≡ false
      → put_data bytes p ≡ some pixels
      → IsShown r.drawn r.aborted w h fmt pixels (
          timerdraw gen_texture gen_framebuffer gen_renderbuffer true
            (filldata gen_texture gen_framebuffer gen_renderbuffer bytes w h fmt (running i p r)))
  unfolding filldata
  filldata-IsShown bytes w h fmt i p pixels r named k fb color rb put =
      subst
        (λ b. IsShown r.drawn r.aborted w h fmt pixels (
          timerdraw gen_texture gen_framebuffer gen_renderbuffer true
            (record (check_yuv_texture gen_texture gen_framebuffer gen_renderbuffer w h fmt
              (running i b r)) { timer_start = true })))
        (sym put)
        (subst
          (λ s. IsShown r.drawn r.aborted w h fmt pixels (
            timerdraw gen_texture gen_framebuffer gen_renderbuffer true
              (record s { timer_start = true })))
          (sym t.same)
          (timerdraw-IsShown i pixels
            (record r {
              pic_w = w;
              pic_h = h;
              pix_fmt = fmt;
              texture_y = t.y;
              texture_u = t.u;
              texture_v = t.v;
              live_textures = t.live;
              timer_start = true;
            })
            named k fb color rb))
    where
      t : IsTextured (running i (some pixels) r) w h fmt (
          check_yuv_texture gen_texture gen_framebuffer gen_renderbuffer w h fmt
            (running i (some pixels) r))
      t =
          check_yuv_texture-IsTextured gen_texture gen_framebuffer gen_renderbuffer w h fmt
            (running i (some pixels) r) named k

  -- A frame with a byte and of a known format that comes to a renderer that is up is drawn at the next turn
  -- of the timer, once, in its size and format, and the bytes that are drawn begin with its own: if OpenGL
  -- never gives 0 as a texture's name and the context can be made current. The drawing does not fail.
  pub timerdraw-filldata :
      (bytes : List ℕ) (w h : ℕ) (fmt : PixelFormat) (r : Render)
      → ((ns : List ℕ) → (gen_texture ns == 0) ≡ false)
      → IsKnown fmt
      → (length bytes == 0) ≡ false
      → IsUp r
      → (pixels : List ℕ) × (take (length bytes) pixels ≡ bytes)
        × IsShown r.drawn r.aborted w h fmt pixels (
            timerdraw gen_texture gen_framebuffer gen_renderbuffer true
              (filldata gen_texture gen_framebuffer gen_renderbuffer bytes w h fmt r))
  timerdraw-filldata bytes w h fmt r named k e u =
      let (pixels, put, starts) = put_data-starts bytes u.buffer e in
      (
        pixels,
        starts,
        subst
            (λ s. IsShown r.drawn r.aborted w h fmt pixels (
              timerdraw gen_texture gen_framebuffer gen_renderbuffer true
                (filldata gen_texture gen_framebuffer gen_renderbuffer bytes w h fmt s)))
            (λ i. record r {
              done = sym u.not_done i;
              ready = sym u.is_ready i;
              indarray = sym u.one_square i;
              pix_buf_array = sym u.one_buffer i;
            })
            (filldata-IsShown bytes w h fmt u.index u.buffer pixels r named k u.named_framebuffer
              u.named_color u.named_rbo put),
      )
