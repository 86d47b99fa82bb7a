-- ===== src/Draw/Setup.antt =====
-- `Init`, `CreateFBO` and `Destroy` of common/evideorender.cpp. `InitEGL` and the compilers are answers.
use vncc.Base.{ℕ, Bool, true, false, not, if◌then◌else◌, List, [], ◌∷◌, Option, none}
use vncc.Draw.{no_texture, Render, delete, generate, delete_three}
use vncc.Draw.Squares.{Square, generate_square_array}

-- The answers that a run of `Init`'s task gets: from `InitSurface`, from `glCheckFramebufferStatus`, and
-- from the compilers for the scene and for the framebuffer.
pub record Outcome : Type 0 where
  pub surface_ok : Bool
  pub fbo_complete : Bool
  pub scene_ok : Bool
  pub fb_ok : Bool

unfoldable pub destroy : Bool → Render → Render
destroy b_done r =
    let r' = delete_three r in
    record r' {
      elearray = [];
      indarray = [];
      framebuffer = 0;
      live_framebuffers = delete r.ready r.framebuffer r.live_framebuffers;
      tex_color_buffer = no_texture;
      live_textures = delete r.ready r.tex_color_buffer.name r'.live_textures;
      rbo = 0;
      live_renderbuffers = delete r.ready r.rbo r.live_renderbuffers;
      ready = false;
      pix_buf_array = if b_done then [] else r.pix_buf_array;
    }

abbrev pub empty_buffers : List Square → List (Option (List ℕ))
empty_buffers [] = []
empty_buffers (s ∷ ss) = none ∷ empty_buffers ss

-- The buffers are made once; `done_` is set by another thread.
abbrev pub first_buffers : Render → Render
first_buffers r =
    if r.single_res
    then r
    else record r { single_res = true; pix_buf_array = empty_buffers r.elearray }

abbrev pub with_scene : Outcome → Render → Render
with_scene o r =
    if not o.scene_ok
    then r
    else let (squares, indices) = generate_square_array 1 1 in
      let r' : Render = record r { elearray = squares; indarray = indices } in
      if o.fb_ok then first_buffers r' else r'

module _ (gen_texture gen_framebuffer gen_renderbuffer : List ℕ → ℕ) where
  -- `CreateFBO`, but for what it returns.
  unfoldable pub create_fbo : Render → Render
  create_fbo r =
      let (fb, fbs) =
        generate r.ready gen_framebuffer (delete r.ready r.framebuffer r.live_framebuffers) in
      let (color, texs) =
        generate r.ready gen_texture (delete r.ready r.tex_color_buffer.name r.live_textures) in
      let (rb, rbs) =
        generate r.ready gen_renderbuffer (delete r.ready r.rbo r.live_renderbuffers) in
      record r {
        framebuffer = fb;
        live_framebuffers = fbs;
        tex_color_buffer = record no_texture { name = color; width = r.width; height = r.height };
        live_textures = texs;
        rbo = rb;
        live_renderbuffers = rbs;
      }

  -- The task that `Init` posts.
  unfoldable pub init_task : Outcome → Render → Render
  unfolding create_fbo
  init_task o r =
      if not o.surface_ok
      then record r { ready = false }
      else (let r' = create_fbo (record r { ready = true }) in
          if o.fbo_complete then with_scene o r' else r')
