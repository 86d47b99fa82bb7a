-- ===== src/Decode/Pictures.antt =====
-- The pictures that come out of `video_decode`.
use vncc.Base.{
  ℕ, ◌≡◌, Bool, true, false, not, if◌then◌else◌, List, [], ◌∷◌, ◌++◌, Option, some, none,
}
use vncc.Decode.{
  AvFormat, av_nv12, same_av, AvFrame, Picture, Decoder, shared, pixel_format, picture_of,
  is_drawable, update_ratio,
}

-- The pictures of some frames, without those of a format that is not drawn.
abbrev pub pictures : List AvFrame → List Picture
pictures [] = []
pictures (f ∷ fs) =
    if not (is_drawable (pixel_format f.format)) then pictures fs else picture_of f ∷ pictures fs

-- The size of the first frame, unless a ratio was told before.
abbrev pub ratio_after : List AvFrame → Option (ℕ × ℕ) → Option (ℕ × ℕ)
ratio_after fs (some told) = some told
ratio_after [] none = none
ratio_after (f ∷ fs) none = some (f.width, f.height)

abbrev pub SameSize : AvFrame → AvFrame → Type 0
SameSize f g = (f.width ≡ g.width) × (f.height ≡ g.height)

-- A frame that a transfer can fill: a clean one, or one of the size of the source.
abbrev pub IsFillable : Option AvFrame → AvFrame → Type 0
IsFillable none f = Unit
IsFillable (some old) f = SameSize old f

abbrev pub SameSizes : List AvFrame → List AvFrame → Type 0
SameSizes [] gs = gs ≡ []
SameSizes (f ∷ fs) [] = true ≡ false
SameSizes (f ∷ fs) (g ∷ gs) = SameSize f g × SameSizes fs gs

-- The pictures went to the renderer if there is one, else to the other process.
pub record IsDecoded (render : Bool) (fs shown : List AvFrame) (d d' : Decoder) : Type 0 where
  pub filled : d'.filled ≡ d.filled ++ (if render then pictures shown else [])
  pub sent : d'.sent ≡ d.sent ++ (if render then [] else pictures shown)
  pub sizes : SameSizes fs shown
  pub ratio : d'.ratio ≡ ratio_after fs d.ratio

abbrev handed : Bool → Bool → Picture → Decoder → Decoder
handed drawable render p d =
    if not drawable
    then d
    else if render
    then record d { filled = d.filled ++ p ∷ [] }
    else record d { kept = some p; sent = d.sent ++ p ∷ []; check_run = true }

abbrev first_of : Bool → Picture → List Picture → List Picture
first_of drawable p ps = if not drawable then ps else p ∷ ps

module _ (hw_pix_fmt : AvFormat) (transfer : Option AvFrame → AvFrame → Option AvFrame)
    (scale : ℕ × ℕ × AvFormat → AvFrame → AvFrame → Option (List ℕ)) where
  -- The frame `g` is shown for `f`, where `sw_frame` is `sw`: `f` itself, or what is transferred from the
  -- hardware, as NV12, into a frame that is clean or has its size.
  pub data IsShownFor (sw : Option AvFrame) (f : AvFrame) : AvFrame → Type 0 where
    software : same_av f.format hw_pix_fmt ≡ false → IsShownFor sw f f
    hardware :
        (t : AvFrame)
        → same_av f.format hw_pix_fmt ≡ true
        → IsFillable sw f
        → transfer sw f ≡ some t
        → same_av t.format av_nv12 ≡ true
        → IsShownFor sw f t

  abbrev pub sw_after : Option AvFrame → AvFrame → AvFrame → Option AvFrame
  sw_after sw f g = if same_av f.format hw_pix_fmt then some g else sw

  abbrev pub AreShownFor : Option AvFrame → List AvFrame → List AvFrame → Type 0
  AreShownFor sw [] [] = Unit
  AreShownFor sw (f ∷ fs) (g ∷ gs) = IsShownFor sw f g × AreShownFor (sw_after sw f g) fs gs
  AreShownFor sw _ _ = true ≡ false

  after_frame : AvFrame → AvFrame → Decoder → Decoder
  after_frame f g d = record d {
    ratio = update_ratio f d.ratio;
    yuv_frame = shared;
    sw_frame = sw_after d.sw_frame f g;
  }

  -- What is documented of `av_hwframe_transfer_data`: a frame that can be filled gets the source's size.
  abbrev pub KeepsSize : Type 0
  KeepsSize =
      (sw : Option AvFrame) (f t : AvFrame)
      → IsFillable sw f
      → transfer sw f ≡ some t
      → SameSize f t
