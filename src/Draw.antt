-- ===== src/Draw.antt =====
-- The renderer: `eVideoRender` of common/evideorender.cpp, the tasks of the drawing thread. The textures,
-- the framebuffer and the renderbuffer are modelled as names that OpenGL holds; shaders, vertex arrays and
-- buffers are not. What OpenGL and EGL answer are parameters: the next name of each kind, and whether
-- the steps of `Init` succeed. A context that there is can be made current, but where `OnFrame` asks;
-- without one no call to OpenGL does anything.
pub mod Squares
pub mod Loop
pub mod Setup
mod Names
mod Held
mod Live
mod Reads
mod Drawn
mod Frames
mod Textured
mod Shown
mod Tests
use vncc.Base.{
  ℕ, zero, suc, ◌+◌, ◌-◌, ◌*◌, ◌/◌, ◌==◌, ltb, Bool, true, false, not, ◌&&◌, ◌||◌, if◌then◌else◌,
  List, [], ◌∷◌, ◌++◌, Option, none, some, length, drop,
}
use vncc.Draw.Squares.{Square, DrawIndices, generate_square_array}

pub data PixelFormat : Type 0 where
  render_unknow render_yuv420p render_nv12 : PixelFormat

pub data GlType : Type 0 where
  gl_luminance gl_red gl_rg : GlType

-- A texture's name, 0 for none, and what `glTexImage2D` made of it.
pub record Texture : Type 0 where
  pub name : ℕ
  pub width : ℕ
  pub height : ℕ
  pub gl_type : GlType

abbrev pub no_texture : Texture
no_texture = record { name = 0; width = 0; height = 0; gl_type = gl_luminance }

-- One `glDrawElements` over a picture: the size and the format, the textures bound, and the bytes that
-- were given to them.
pub record Drawing : Type 0 where
  pub pic_w : ℕ
  pub pic_h : ℕ
  pub pix_fmt : PixelFormat
  pub texture_y : Texture
  pub texture_u : Texture
  pub texture_v : Texture
  pub pixels : List ℕ

-- `ready` says that there are a display, a surface and a context; `Data()` of a `Pix_Ele` is the bytes
-- it has allocated. `live_*` are the names that OpenGL holds, `aborted` a failed `assert` or a read
-- outside `pix_buf_array_`.
pub record Render : Type 0 where
  pub done : Bool
  pub ready : Bool
  pub texture_y : Texture
  pub texture_u : Texture
  pub texture_v : Texture
  pub tex_color_buffer : Texture
  pub framebuffer : ℕ
  pub rbo : ℕ
  pub live_textures : List ℕ
  pub live_framebuffers : List ℕ
  pub live_renderbuffers : List ℕ
  pub width : ℕ
  pub height : ℕ
  pub pic_w : ℕ
  pub pic_h : ℕ
  pub pix_fmt : PixelFormat
  pub elearray : List Square
  pub indarray : List DrawIndices
  pub pix_buf_array : List (Option (List ℕ))
  pub single_res : Bool
  pub timer_start : Bool
  pub drawn : List Drawing
  pub aborted : Bool

-- The constructor.
unfoldable pub video_render : ℕ → ℕ → Render
video_render width height = record {
  done = false;
  ready = false;
  texture_y = no_texture;
  texture_u = no_texture;
  texture_v = no_texture;
  tex_color_buffer = no_texture;
  framebuffer = 0;
  rbo = 0;
  live_textures = [];
  live_framebuffers = [];
  live_renderbuffers = [];
  width = width;
  height = height;
  pic_w = 0;
  pic_h = 0;
  pix_fmt = render_yuv420p;
  elearray = [];
  indarray = [];
  pix_buf_array = [];
  single_res = false;
  timer_start = false;
  drawn = [];
  aborted = false;
}

abbrev pub remove : ℕ → List ℕ → List ℕ
remove name [] = []
remove name (n ∷ ns) = let rest = remove name ns in if n == name then ns else n ∷ rest

-- `if (name) glDelete…(1, &name)`, with a context or without.
unfoldable pub delete : Bool → ℕ → List ℕ → List ℕ
delete ready name live = if ready && not (name == 0) then remove name live else live

-- `glGen…(1, &name)`, which leaves 0 if it makes nothing.
unfoldable pub generate : Bool → (List ℕ → ℕ) → List ℕ → ℕ × List ℕ
generate ready gen live =
    let name = if ready then gen live else 0 in (name, if name == 0 then live else name ∷ live)

-- `_datalen` is the length of the bytes.
unfoldable pub put_data : List ℕ → Option (List ℕ) → Option (List ℕ)
put_data bytes none = if length bytes == 0 then none else some bytes
put_data bytes (some old) =
    if ltb (length old) (length bytes) then some bytes else some (bytes ++ drop (length bytes) old)

abbrev pub put_all : List ℕ → List (Option (List ℕ)) → List (Option (List ℕ))
put_all bytes [] = []
put_all bytes (p ∷ ps) = put_data bytes p ∷ put_all bytes ps

-- Y, U and V are deleted.
abbrev pub delete_three : Render → Render
delete_three r = record r {
  texture_y = no_texture;
  texture_u = no_texture;
  texture_v = no_texture;
  live_textures =
      delete r.ready r.texture_v.name
        (delete r.ready r.texture_u.name (delete r.ready r.texture_y.name r.live_textures));
}

abbrev pub same_format : PixelFormat → PixelFormat → Bool
same_format render_unknow render_unknow = true
same_format render_yuv420p render_yuv420p = true
same_format render_nv12 render_nv12 = true
same_format _ _ = false

module _ (gen_texture gen_framebuffer gen_renderbuffer : List ℕ → ℕ) where
  -- The texture and the names that are left.
  unfoldable pub greate_yuv_texture : Bool → ℕ → ℕ → GlType → Texture → List ℕ → Texture × List ℕ
  unfolding delete generate
  greate_yuv_texture ready width height gl_type old live =
      let (name, live') = generate ready gen_texture (delete ready old.name live) in
      (record { name = name; width = width; height = height; gl_type = gl_type }, live')

  -- The three textures, one after the other.
  abbrev pub make_three : ℕ → ℕ → GlType → GlType → Render → Render
  make_three w h first other r =
      let (y, live1) = greate_yuv_texture r.ready w h first r.texture_y r.live_textures in
      let (u, live2) = greate_yuv_texture r.ready (w / 2) (h / 2) other r.texture_u live1 in
      let (v, live3) = greate_yuv_texture r.ready (w / 2) (h / 2) other r.texture_v live2 in
      record r { texture_y = y; texture_u = u; texture_v = v; live_textures = live3 }

  abbrev pub make_textures : PixelFormat → ℕ → ℕ → Render → Render
  make_textures render_yuv420p w h r = make_three w h gl_luminance gl_luminance r
  make_textures render_nv12 w h r = make_three w h gl_red gl_rg r
  make_textures render_unknow w h r = r

  unfoldable pub resize_texture : ℕ → ℕ → Render → Render
  resize_texture w h r = record (make_textures r.pix_fmt w h (delete_three r)) {
    pic_w = w;
    pic_h = h;
  }

  unfoldable pub check_yuv_texture : ℕ → ℕ → PixelFormat → Render → Render
  check_yuv_texture w h fmt r =
      if not ((w == r.pic_w) && ((h == r.pic_h) && same_format fmt r.pix_fmt))
        || ((r.texture_y.name == 0) || ((r.texture_u.name == 0) || (r.texture_v.name == 0)))
      then resize_texture w h (record r { pix_fmt = fmt })
      else r
