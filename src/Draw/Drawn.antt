-- ===== src/Draw/Drawn.antt =====
-- Pictures whose bytes are there, drawn with textures of their size.
use vncc.Base.{
  ℕ, ◌/◌, ◌==◌, ◌≡◌, refl, ==_iff, Bool, true, false, not, ◌&&◌, ◌||◌, if◌then◌else◌, inl, inr, ◌⊎◌,
  List, [], ◌∷◌, ◌++◌, Option, none, some, length, All, All-append,
}
use vncc.Draw.{
  PixelFormat, render_unknow, render_yuv420p, render_nv12, Texture, Drawing, Render, video_render,
  same_format,
}
use vncc.Draw.Setup.{Outcome, destroy, empty_buffers, first_buffers, with_scene}
use vncc.Draw.Squares.{Square, DrawIndices, generate_square_array}
use vncc.Draw.Loop.{has_textures, draw_one, draw_all}
use vncc.Draw.Held.{both}
use vncc.Draw.Reads.{IsReadable, Kept}

-- The texture has a name, and then this size.
abbrev pub IsShaped : Texture → ℕ → ℕ → Type 0
IsShaped t w h = (t.name ≡ 0) ⊎ ((t.width ≡ w) × (t.height ≡ h))

-- The bytes of a drawing are there, and its textures have the size of the picture and of its half.
pub record IsDrawn (d : Drawing) : Type 0 where
  pub readable : IsReadable d.pix_fmt d.pic_w d.pic_h (length d.pixels)
  pub size_y : (d.texture_y.width ≡ d.pic_w) × (d.texture_y.height ≡ d.pic_h)
  pub size_u : (d.texture_u.width ≡ d.pic_w / 2) × (d.texture_u.height ≡ d.pic_h / 2)
  pub size_v : (d.texture_v.width ≡ d.pic_w / 2) × (d.texture_v.height ≡ d.pic_h / 2)

pub record FitsPicture (fmt : PixelFormat) (w h : ℕ) (bufs : List (Option (List ℕ)))
    (y u v : Texture) (drawn : List Drawing) : Type 0 where
  pub kept : All (Kept fmt w h) bufs
  pub shaped_y : IsShaped y w h
  pub shaped_u : IsShaped u (w / 2) (h / 2)
  pub shaped_v : IsShaped v (w / 2) (h / 2)
  pub all_drawn : All IsDrawn drawn

pub record IsSafe (r : Render) : Type 0 where
  pub parts :
      FitsPicture r.pix_fmt r.pic_w r.pic_h r.pix_buf_array r.texture_y r.texture_u r.texture_v
        r.drawn

pub if_both {ℓ κ} :
    {A : Type ℓ} (P : A → Type κ) (b : Bool) (x y : A)
    → (b ≡ true → P x)
    → (b ≡ false → P y)
    → P (if b then x else y)
if_both P true x y p q = p refl
if_both P false x y p q = q refl

pub video_render-IsSafe : (width height : ℕ) → IsSafe (video_render width height)
unfolding video_render
video_render-IsSafe width height = record {
  parts = record {
    kept = tt;
    shaped_y = inl refl;
    shaped_u = inl refl;
    shaped_v = inl refl;
    all_drawn = tt;
  };
}

pub destroy-IsSafe : (b_done : Bool) (r : Render) → IsSafe r → IsSafe (destroy b_done r)
unfolding destroy
destroy-IsSafe b_done r s = record {
  parts = record {
    kept = both (All (Kept r.pix_fmt r.pic_w r.pic_h)) b_done [] r.pix_buf_array tt s.parts.kept;
    shaped_y = inl refl;
    shaped_u = inl refl;
    shaped_v = inl refl;
    all_drawn = s.parts.all_drawn;
  };
}

empty_buffers-Kept :
    (fmt : PixelFormat) (w h : ℕ) (ss : List Square) → All (Kept fmt w h) (empty_buffers ss)
empty_buffers-Kept fmt w h [] = tt
empty_buffers-Kept fmt w h (s ∷ ss) = (tt, empty_buffers-Kept fmt w h ss)

first_buffers-IsSafe : (r : Render) → IsSafe r → IsSafe (first_buffers r)
first_buffers-IsSafe r s = both IsSafe r.single_res _ _ s (record {
  parts = record {
    kept = empty_buffers-Kept r.pix_fmt r.pic_w r.pic_h r.elearray;
    shaped_y = s.parts.shaped_y;
    shaped_u = s.parts.shaped_u;
    shaped_v = s.parts.shaped_v;
    all_drawn = s.parts.all_drawn;
  };
})

pub with_scene-IsSafe : (o : Outcome) (r : Render) → IsSafe r → IsSafe (with_scene o r)
with_scene-IsSafe o r s = both IsSafe (not o.scene_ok) r _ s (
    both IsSafe o.fb_ok _ scene (first_buffers-IsSafe scene (record { parts = s.parts }))
      (record { parts = s.parts }))
  where
    scene : Render
    scene = record r {
      elearray = (generate_square_array 1 1).0;
      indarray = (generate_square_array 1 1).1;
    }

all_three :
    (a b c : Bool) → (not a && (not b && not c)) ≡ true → (a ≡ false) × (b ≡ false) × (c ≡ false)
all_three true b c e = cc
all_three false true c e = cc
all_three false false true e = cc
all_three false false false e = (refl, refl, refl)

shape :
    (t : Texture) (w h : ℕ)
    → IsShaped t w h
    → (t.name == 0) ≡ false
    → (t.width ≡ w) × (t.height ≡ h)
shape t w h (inl z) e = let f = (==_iff t.name 0).1 z in cc
shape t w h (inr same) e = same

draw_one-IsDrawn :
    (pixels : List ℕ) (r : Render)
    → IsReadable r.pix_fmt r.pic_w r.pic_h (length pixels)
    → IsSafe r
    → has_textures r ≡ true
    → IsDrawn (draw_one pixels r)
draw_one-IsDrawn pixels r a s e =
    let (y, u, v) =
      all_three (r.texture_y.name == 0) (r.texture_u.name == 0) (r.texture_v.name == 0) e in
    record {
      readable = a;
      size_y = shape r.texture_y _ _ s.parts.shaped_y y;
      size_u = shape r.texture_u _ _ s.parts.shaped_u u;
      size_v = shape r.texture_v _ _ s.parts.shaped_v v;
    }

pub draw_all-IsSafe :
    (is : List DrawIndices) (bufs : List (Option (List ℕ))) (r : Render)
    → All (Kept r.pix_fmt r.pic_w r.pic_h) bufs
    → IsSafe r
    → IsSafe (draw_all is bufs r)
unfolding draw_all
draw_all-IsSafe [] bufs r k s = s
draw_all-IsSafe (i ∷ is) [] r k s = record { parts = s.parts }
draw_all-IsSafe (i ∷ is) (none ∷ bufs) r (k, ks) s = draw_all-IsSafe is bufs r ks s
draw_all-IsSafe (i ∷ is) (some pixels ∷ bufs) r (k, ks) s =
    if_both IsSafe (has_textures r) _ _
      (λ e.
        draw_all-IsSafe is bufs (record r { drawn = r.drawn ++ draw_one pixels r ∷ [] }) ks
          (more e))
      (λ e. record { parts = s.parts })
  where
    more : has_textures r ≡ true → IsSafe (record r { drawn = r.drawn ++ draw_one pixels r ∷ [] })
    more e = record {
      parts = record {
        kept = s.parts.kept;
        shaped_y = s.parts.shaped_y;
        shaped_u = s.parts.shaped_u;
        shaped_v = s.parts.shaped_v;
        all_drawn =
            All-append IsDrawn r.drawn (draw_one pixels r ∷ []) s.parts.all_drawn
              (draw_one-IsDrawn pixels r k s e, tt);
      };
    }

pub split_same :
    (a b c d : Bool)
    → (not (a && (b && c)) || d) ≡ false
    → (a ≡ true) × (b ≡ true) × (c ≡ true) × (d ≡ false)
split_same false b c d e = cc
split_same true false c d e = cc
split_same true true false d e = cc
split_same true true true d e = (refl, refl, refl, e)

pub same_format-eq : (f g : PixelFormat) → same_format f g ≡ true → f ≡ g
same_format-eq render_unknow render_unknow e = refl
same_format-eq render_yuv420p render_yuv420p e = refl
same_format-eq render_nv12 render_nv12 e = refl
same_format-eq render_unknow render_yuv420p e = cc
same_format-eq render_unknow render_nv12 e = cc
same_format-eq render_yuv420p render_unknow e = cc
same_format-eq render_yuv420p render_nv12 e = cc
same_format-eq render_nv12 render_unknow e = cc
same_format-eq render_nv12 render_yuv420p e = cc
