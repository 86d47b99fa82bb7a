-- ===== src/Draw/Textured.antt =====
-- The textures of a picture are there after `ResizeTexture` and `CheckYUVTexture` of a renderer that has a
-- context.
use vncc.Base.{ℕ, ◌==◌, ◌≡◌, refl, sym, ==_iff, Bool, true, false, not, ◌&&◌, ◌||◌, List}
use vncc.Draw.{
  PixelFormat, render_unknow, render_yuv420p, render_nv12, Texture, Render, greate_yuv_texture,
  same_format, resize_texture, check_yuv_texture,
}
use vncc.Draw.Drawn.{if_both, split_same, same_format-eq}

-- The format is one of the two that are drawn.
abbrev pub IsKnown : PixelFormat → Type 0
IsKnown fmt = same_format fmt render_unknow ≡ false

-- The picture has this size and format and three textures; nothing else has changed.
pub record IsTextured (r : Render) (w h : ℕ) (fmt : PixelFormat) (x : Render) : Type 0 where
  pub y : Texture
  pub u : Texture
  pub v : Texture
  pub live : List ℕ
  pub same : x ≡ record r {
    pic_w = w;
    pic_h = h;
    pix_fmt = fmt;
    texture_y = y;
    texture_u = u;
    texture_v = v;
    live_textures = live;
  }
  pub named_y : (y.name == 0) ≡ false
  pub named_u : (u.name == 0) ≡ false
  pub named_v : (v.name == 0) ≡ false

none_of : (a b c : Bool) → (a || (b || c)) ≡ false → (a ≡ false) × (b ≡ false) × (c ≡ false)
none_of true b c e = cc
none_of false true c e = cc
none_of false false true e = cc
none_of false false false e = (refl, refl, refl)

abbrev up : Render → Render
up r = record r { ready = true }

module _ (gen_texture gen_framebuffer gen_renderbuffer : List ℕ → ℕ) where
  pub resize_texture-IsTextured :
      (w h : ℕ) (fmt : PixelFormat) (r : Render)
      → ((ns : List ℕ) → (gen_texture ns == 0) ≡ false)
      → IsKnown fmt
      → IsTextured (up r) w h fmt (
          resize_texture gen_texture gen_framebuffer gen_renderbuffer w h
            (record (up r) { pix_fmt = fmt }))
  unfolding resize_texture greate_yuv_texture
  resize_texture-IsTextured w h render_unknow r named k = cc
  resize_texture-IsTextured w h render_yuv420p r named k = record {
    y = _;
    u = _;
    v = _;
    live = _;
    same = refl;
    named_y = named _;
    named_u = named _;
    named_v = named _;
  }
  resize_texture-IsTextured w h render_nv12 r named k = record {
    y = _;
    u = _;
    v = _;
    live = _;
    same = refl;
    named_y = named _;
    named_u = named _;
    named_v = named _;
  }

  pub check_yuv_texture-IsTextured :
      (w h : ℕ) (fmt : PixelFormat) (r : Render)
      → ((ns : List ℕ) → (gen_texture ns == 0) ≡ false)
      → IsKnown fmt
      → IsTextured
          (up r)
          w
          h
          fmt
          (check_yuv_texture gen_texture gen_framebuffer gen_renderbuffer w h fmt (up r))
  unfolding check_yuv_texture
  check_yuv_texture-IsTextured w h fmt r named k =
      if_both (IsTextured (up r) w h fmt) _ _ (up r)
        (λ e. resize_texture-IsTextured w h fmt r named k) unchanged
    where
      unchanged :
          (not ((w == r.pic_w) && ((h == r.pic_h) && same_format fmt r.pix_fmt))
              || ((r.texture_y.name == 0) || ((r.texture_u.name == 0) || (r.texture_v.name == 0))))
            ≡ false
          → IsTextured (up r) w h fmt (up r)
      unchanged e =
          let (ew, eh, ef, ed) =
            split_same (w == r.pic_w) (h == r.pic_h) (same_format fmt r.pix_fmt) _ e in
          let (y, u, v) =
            none_of (r.texture_y.name == 0) (r.texture_u.name == 0) (r.texture_v.name == 0) ed in
          record {
            y = r.texture_y;
            u = r.texture_u;
            v = r.texture_v;
            live = r.live_textures;
            same = λ i. record (up r) {
              pic_w = sym ((==_iff w r.pic_w).0 ew) i;
              pic_h = sym ((==_iff h r.pic_h).0 eh) i;
              pix_fmt = sym (same_format-eq fmt r.pix_fmt ef) i;
            };
            named_y = y;
            named_u = u;
            named_v = v;
          }
