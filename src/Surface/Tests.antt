-- ===== src/Surface/Tests.antt =====
-- An EGL that gives all but the surface, and one that gives everything.
use vncc.Base.{◌≡◌, refl, true, false, none, some}
use vncc.Surface.{Egl, fresh, get_display, round, rounds, init_surface, has}
use vncc.Surface.Complete.{init_surface-first}

abbrev whole : Egl
whole = record {
  default_display = λ i. some 1;
  config = λ i. true;
  surface = λ i. some 2;
  context = λ i. some 3;
}

no_surface : init_surface (record whole { surface = λ i. none }) fresh ≡ (false, fresh)
unfolding init_surface rounds round get_display
no_surface = refl

first_run :
    init_surface whole fresh ≡ (has (round whole 0 fresh).1.surf_ret, (round whole 0 fresh).1)
first_run = init_surface-first whole
