-- ===== src/Draw/Held.antt =====
-- The names that the variables of a renderer have are those that OpenGL holds: the textures of a picture.
use vncc.Base.{ℕ, ◌+◌, ◌/◌, ◌≡◌, refl, Bool, true, false, if◌then◌else◌, List, arith}
use vncc.Draw.{
  PixelFormat, render_unknow, render_yuv420p, render_nv12, GlType, Texture, no_texture, Render,
  video_render, delete, greate_yuv_texture, make_three, make_textures, delete_three, resize_texture,
  check_yuv_texture,
}
use vncc.Draw.Setup.{destroy}
use vncc.Draw.Names.{count, held, count-delete, count-generate-delete, generate-unready}

-- The textures Y, U and V, the one to be drawn on, the framebuffer and the renderbuffer have no name.
pub record NoNames (y u v color framebuffer rbo : ℕ) : Type 0 where
  pub no_y : y ≡ 0
  pub no_u : u ≡ 0
  pub no_v : v ≡ 0
  pub no_color : color ≡ 0
  pub no_framebuffer : framebuffer ≡ 0
  pub no_rbo : rbo ≡ 0

-- Each name that OpenGL holds is that of one variable, and without a context there is none.
pub record HeldBy (ready : Bool) (live live_framebuffers live_renderbuffers : List ℕ)
    (y u v color framebuffer rbo : ℕ) : Type 0 where
  pub textures : (n : ℕ) → count n live ≡ held n y + (held n u + (held n v + held n color))
  pub framebuffers : (n : ℕ) → count n live_framebuffers ≡ held n framebuffer
  pub renderbuffers : (n : ℕ) → count n live_renderbuffers ≡ held n rbo
  pub unready : ready ≡ false → NoNames y u v color framebuffer rbo

pub record AreHeld (r : Render) : Type 0 where
  pub names :
      HeldBy r.ready r.live_textures r.live_framebuffers r.live_renderbuffers r.texture_y.name
        r.texture_u.name r.texture_v.name r.tex_color_buffer.name r.framebuffer r.rbo

pub no_names : NoNames 0 0 0 0 0 0
no_names = record {
  no_y = refl;
  no_u = refl;
  no_v = refl;
  no_color = refl;
  no_framebuffer = refl;
  no_rbo = refl;
}

pub alone : {c x : ℕ} → c ≡ x + 0 → c ≡ x
alone e = omega arith

pub and_none : {c x : ℕ} → c ≡ x → c ≡ x + 0
and_none e = omega arith

pub both {ℓ κ} :
    {A : Type ℓ} (P : A → Type κ) (b : Bool) (x y : A) → P x → P y → P (if b then x else y)
both P true x y p q = p
both P false x y p q = q

pub delete_three-AreHeld : (r : Render) → AreHeld r → AreHeld (delete_three r)
delete_three-AreHeld r h = record {
  names = record {
    textures = λ n. gone n (
        count-delete r.ready r.texture_v.name _ n _ (λ e. (h.names.unready e).no_v)
          (count-delete r.ready r.texture_u.name _ n _ (λ e. (h.names.unready e).no_u)
            (count-delete r.ready r.texture_y.name r.live_textures n _
              (λ e. (h.names.unready e).no_y) (h.names.textures n))));
    framebuffers = h.names.framebuffers;
    renderbuffers = h.names.renderbuffers;
    unready = λ e. record {
      no_y = refl;
      no_u = refl;
      no_v = refl;
      no_color = (h.names.unready e).no_color;
      no_framebuffer = (h.names.unready e).no_framebuffer;
      no_rbo = (h.names.unready e).no_rbo;
    };
  };
}
  where
    gone : (n : ℕ) {c d : ℕ} → c ≡ d → c ≡ 0 + (0 + (0 + d))
    gone n e = omega arith

pub video_render-AreHeld : (width height : ℕ) → AreHeld (video_render width height)
unfolding video_render
video_render-AreHeld width height = record {
  names = record {
    textures = λ n. refl;
    framebuffers = λ n. refl;
    renderbuffers = λ n. refl;
    unready = λ e. no_names;
  };
}

pub destroy-AreHeld : (b_done : Bool) (r : Render) → AreHeld r → AreHeld (destroy b_done r)
unfolding destroy
destroy-AreHeld b_done r a = record {
  names = record {
    textures = λ n.
        count-delete r.ready r.tex_color_buffer.name _ n 0 (λ e. (a.names.unready e).no_color)
          (only _ ((delete_three-AreHeld r a).names.textures n));
    framebuffers = λ n.
        count-delete r.ready r.framebuffer r.live_framebuffers n 0
          (λ e. (a.names.unready e).no_framebuffer) (and_none (a.names.framebuffers n));
    renderbuffers = λ n.
        count-delete r.ready r.rbo r.live_renderbuffers n 0 (λ e. (a.names.unready e).no_rbo)
          (and_none (a.names.renderbuffers n));
    unready = λ e. no_names;
  };
}
  where
    only : {c : ℕ} (x : ℕ) → c ≡ 0 + (0 + (0 + x)) → c ≡ x + 0
    only x e = omega arith

module _ (gen_texture gen_framebuffer gen_renderbuffer : List ℕ → ℕ) where
  made : Bool → ℕ → ℕ → GlType → List ℕ → Texture × List ℕ
  made ready w h t live =
      greate_yuv_texture gen_texture gen_framebuffer gen_renderbuffer ready w h t no_texture live

  count-made :
      (ready : Bool) (w h : ℕ) (t : GlType) (live : List ℕ) (n rest : ℕ)
      → count n live ≡ rest
      → count n (made ready w h t live).1 ≡ held n (made ready w h t live).0.name + rest
  unfolding made greate_yuv_texture
  count-made ready w h t live n rest e =
      count-generate-delete ready gen_texture 0 live n rest (λ f. refl) (omega arith)

  made_unready :
      (ready : Bool) (w h : ℕ) (t : GlType) (live : List ℕ)
      → ready ≡ false
      → (made ready w h t live).0.name ≡ 0
  unfolding made greate_yuv_texture
  made_unready ready w h t live e = generate-unready ready gen_texture (delete ready 0 live) e

  make_three-AreHeld :
      (w h : ℕ) (first other : GlType) (r : Render)
      → AreHeld (delete_three r)
      → AreHeld
          (make_three gen_texture gen_framebuffer gen_renderbuffer w h first other (delete_three r))
  unfolding made
  make_three-AreHeld w h first other r a = record {
    names = record {
      textures = λ n. sorted _ _ _ _ (
          count-made r.ready (w / 2) (h / 2) other _ n _ (
            count-made r.ready (w / 2) (h / 2) other _ n _
              (count-made r.ready w h first _ n _ (a.names.textures n))));
      framebuffers = a.names.framebuffers;
      renderbuffers = a.names.renderbuffers;
      unready = λ e. record {
        no_y = made_unready r.ready _ _ _ _ e;
        no_u = made_unready r.ready _ _ _ _ e;
        no_v = made_unready r.ready _ _ _ _ e;
        no_color = (a.names.unready e).no_color;
        no_framebuffer = (a.names.unready e).no_framebuffer;
        no_rbo = (a.names.unready e).no_rbo;
      };
    };
  }
    where
      sorted :
          {c : ℕ} (y u v x : ℕ) → c ≡ v + (u + (y + (0 + (0 + (0 + x))))) → c ≡ y + (u + (v + x))
      sorted y u v x e = omega arith

  make_textures-AreHeld :
      (fmt : PixelFormat) (w h : ℕ) (r : Render)
      → AreHeld (delete_three r)
      → AreHeld
          (make_textures gen_texture gen_framebuffer gen_renderbuffer fmt w h (delete_three r))
  make_textures-AreHeld render_unknow w h r a = a
  make_textures-AreHeld render_yuv420p w h r a = make_three-AreHeld w h _ _ r a
  make_textures-AreHeld render_nv12 w h r a = make_three-AreHeld w h _ _ r a

  pub resize_texture-AreHeld :
      (w h : ℕ) (r : Render)
      → AreHeld r
      → AreHeld (resize_texture gen_texture gen_framebuffer gen_renderbuffer w h r)
  unfolding resize_texture
  resize_texture-AreHeld w h r a = record {
    names = (make_textures-AreHeld r.pix_fmt w h r (delete_three-AreHeld r a)).names;
  }

  pub check_yuv_texture-AreHeld :
      (w h : ℕ) (fmt : PixelFormat) (r : Render)
      → AreHeld r
      → AreHeld (check_yuv_texture gen_texture gen_framebuffer gen_renderbuffer w h fmt r)
  unfolding check_yuv_texture
  check_yuv_texture-AreHeld w h fmt r a =
      both AreHeld _ _ r (resize_texture-AreHeld w h _ (record { names = a.names })) a
