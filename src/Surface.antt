-- ===== src/Surface.antt =====
-- `InitSurface`, `GetDisplay` and `CleanContext` of common/evideorender.cpp, which get a display, a
-- surface and a context for the window. What EGL answers is the argument `Egl`, by the number of the
-- try; a handle is a number, and no handle is `none`. `world` keeps what EGL holds for the program.
pub mod Complete
mod Tests
use vncc.Base.{
  ℕ, zero, suc, ◌+◌, Bool, true, false, not, if◌then◌else◌, List, [], ◌∷◌, Option, none, some, ◌==◌,
}

pub record Egl : Type 0 where
  -- `eglGetDisplay`; what `eglGetPlatformDisplay` gives is dropped by the code.
  pub default_display : ℕ → Option ℕ
  -- `eglChooseConfig` succeeds and gives one configuration.
  pub config : ℕ → Bool
  pub surface : ℕ → Option ℕ
  pub context : ℕ → Option ℕ

-- The members of the renderer, and the displays that are initialised, the surfaces and the contexts
-- that exist.
pub record Context : Type 0 where
  pub h_disp : Option ℕ
  pub surf_ret : Option ℕ
  pub context : Option ℕ
  pub displays : List ℕ
  pub surfaces : List ℕ
  pub contexts : List ℕ

abbrev pub fresh : Context
fresh = record {
  h_disp = none;
  surf_ret = none;
  context = none;
  displays = [];
  surfaces = [];
  contexts = [];
}

-- `angle_back`: 0 for the default display, other types for ANGLE's.
abbrev pub angle_back : List ℕ
angle_back = 0 ∷ 12814 ∷ 12807 ∷ 12808 ∷ []

abbrev nth : List ℕ → ℕ → ℕ
nth [] i = 0
nth (x ∷ xs) zero = x
nth (x ∷ xs) (suc i) = nth xs i

unfoldable pub get_display : Egl → ℕ → Option ℕ
get_display egl idx = if nth angle_back idx == 0 then egl.default_display idx else none

abbrev pub remove : Option ℕ → List ℕ → List ℕ
remove none xs = xs
remove (some h) [] = []
remove (some h) (x ∷ xs) = let rest = remove (some h) xs in if x == h then xs else x ∷ rest

abbrev pub clean_display : Option ℕ → Context → Context
clean_display none c = c
clean_display (some d) c = record {
  h_disp = none;
  surf_ret = none;
  context = none;
  displays = remove (some d) c.displays;
  surfaces = remove c.surf_ret c.surfaces;
  contexts = remove c.context c.contexts;
}

unfoldable pub clean_context : Context → Context
clean_context c = clean_display c.h_disp c

-- The part of a round behind the display: whether it reaches the `break`.
abbrev pub with_context : Option ℕ → Context → Bool × Context
with_context none c = (false, clean_context (record c { context = none }))
with_context (some x) c = (true, record c { context = some x; contexts = x ∷ c.contexts })

abbrev pub with_surface : Option ℕ → Option ℕ → Context → Bool × Context
with_surface none x c = (false, clean_context (record c { surf_ret = none }))
with_surface (some s) x c =
    with_context x (record c { surf_ret = some s; surfaces = s ∷ c.surfaces })

abbrev pub with_display : Egl → ℕ → Option ℕ → Context → Bool × Context
with_display egl i none c = (false, record c { h_disp = none })
with_display egl i (some d) c =
    let initialized = record c { h_disp = some d; displays = d ∷ c.displays } in
    if egl.config i
    then with_surface (egl.surface i) (egl.context i) initialized
    else (false, clean_context initialized)

unfoldable pub round : Egl → ℕ → Context → Bool × Context
unfolding clean_context
round egl i c = with_display egl i (get_display egl i) c

-- The rounds that are left from `try_times` on.
unfoldable pub rounds : Egl → (left try_times : ℕ) → Context → Context
rounds egl zero i c = c
rounds egl (suc left) i c =
    let (found, c') = round egl i c in
    let more = rounds egl left (i + 1) c' in if found then c' else more

abbrev pub has {ℓ} : {A : Type ℓ} → Option A → Bool
has none = false
has (some a) = true

unfoldable pub init_surface : Egl → Context → Bool × Context
init_surface egl c = let c' = rounds egl 4 0 c in (has c'.surf_ret, c')
