-- ===== src/Surface/Complete.antt =====
-- Either everything is there after `InitSurface`, or nothing is.
use vncc.Base.{
  ℕ, ◌≡◌, refl, ap, Bool, true, false, ◌⊎◌, inl, inr, if◌then◌else◌, if_true, Bool-cases, [], ◌∷◌,
  Option, none, some, ◌==◌, arith,
}
use vncc.Surface.{
  with_context, with_surface, with_display, Egl, Context, fresh, get_display, clean_context, round,
  rounds, init_surface, has,
}

-- A display, a surface and a context, each held once.
pub record IsReady (c : Context) : Type 0 where
  display : ℕ
  surface : ℕ
  handle : ℕ
  pub disp : c.h_disp ≡ some display
  pub surf : c.surf_ret ≡ some surface
  pub ctx : c.context ≡ some handle
  pub one_display : c.displays ≡ display ∷ []
  pub one_surface : c.surfaces ≡ surface ∷ []
  pub one_context : c.contexts ≡ handle ∷ []

Tried : Bool × Context → Type 0
Tried r = ((r.0 ≡ true) × IsReady r.1) ⊎ (r ≡ (false, fresh))

same_number : (n : ℕ) → (n == n) ≡ true
same_number n = ground arith

context_round :
    (d s : ℕ) (x : Option ℕ)
    → Tried (
        with_context x (record fresh {
          h_disp = some d;
          displays = d ∷ [];
          surf_ret = some s;
          surfaces = s ∷ [];
        }))
unfolding Tried clean_context
context_round d s none = inr (rw (same_number d, same_number s) refl)
context_round d s (some x) = inl (
  refl,
  record {
    display = d;
    surface = s;
    handle = x;
    disp = refl;
    surf = refl;
    ctx = refl;
    one_display = refl;
    one_surface = refl;
    one_context = refl;
  },
)

surface_round :
    (d : ℕ) (s x : Option ℕ)
    → Tried (with_surface s x (record fresh { h_disp = some d; displays = d ∷ [] }))
unfolding Tried clean_context
surface_round d none x = inr (rw (same_number d) refl)
surface_round d (some s) x = context_round d s x

display_round : (egl : Egl) (i : ℕ) (o : Option ℕ) → Tried (with_display egl i o fresh)
unfolding Tried clean_context
display_round egl i none = inr refl
display_round egl i (some d) = elim (Bool-cases (egl.config i)) [
  | inl e ↦ rw e (surface_round d (egl.surface i) (egl.context i))
  | inr e ↦ rw (e, same_number d) (inr refl)
]

-- A round from scratch ends with everything or with nothing.
round_cases : (egl : Egl) (i : ℕ) → Tried (round egl i fresh)
unfolding round
round_cases egl i = display_round egl i (get_display egl i)

-- The rounds after the first find no display.
after_first :
    (p : Bool × Context) → Tried p → (if p.0 then p.1 else record p.1 { h_disp = none }) ≡ p.1
unfolding Tried
after_first p (inl ready) = if_true p.0 _ _ ready.0
after_first p (inr again) = rw again refl

-- Only the first of the four tries can succeed, since `GetDisplay` gives no display for the others:
-- what `InitSurface` does to a fresh renderer is what its first round does.
pub init_surface-first :
    (egl : Egl)
    → init_surface egl fresh ≡ (has (round egl 0 fresh).1.surf_ret, (round egl 0 fresh).1)
unfolding init_surface rounds round get_display
init_surface-first egl =
    ap (λ (c : Context). (has c.surf_ret, c)) (after_first (round egl 0 fresh) (round_cases egl 0))
