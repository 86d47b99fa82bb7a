-- ===== src/Docker/Hiding.antt =====
-- The timers of the tool bar and its height.
use vncc.Base.{
  ℕ, ◌≡◌, ◌≢◌, ◌⊎◌, ◌≤◌, ◌==◌, inl, inr, refl, sym, subst, Bool, true, false, Bool-cases, List, [],
  ◌∷◌, length, arith,
}
use vncc.Docker.{
  Bar, BarEvent, mouse_in, mouse_out, resize, timer, click_fps, click_q, click_plain, FpsButton,
  fps_30, fps_48, fps_60, QualityButton, q1, q2, q3, q4, without, fps_click, q_click, show_window,
  mouse_track, resize_event, timer_event, docker_widget, bar_after,
}

-- Whether the mouse is over the bar after the events.
abbrev pub inside_after : List BarEvent → Bool → Bool
inside_after [] inside = inside
inside_after (mouse_in ∷ es) inside = inside_after es true
inside_after (mouse_out ∷ es) inside = inside_after es false
inside_after (_ ∷ es) inside = inside_after es inside

-- All the timers that run fire.
abbrev pub fire_all : (ℕ → ℕ) → List ℕ → Bar → Bar
fire_all start_timer [] b = b
fire_all start_timer (id ∷ ids) b = fire_all start_timer ids (timer_event start_timer id b)

-- Once the timers that run have fired, the bar is hidden and no timer runs.
abbrev pub IsHidden : Bar → Type 0
IsHidden b = (b.height ≡ 5) × (b.running ≡ [])

abbrev pub IsHiding : (ℕ → ℕ) → Bar → Type 0
IsHiding start_timer b = IsHidden (fire_all start_timer b.running b)

-- No timer is noted or runs, and the bar is hidden; or the noted timer runs, and no other; or the
-- noted timer was killed, as the mouse came in.
abbrev Tidy : Bool → ℕ → List ℕ → ℕ → Type 0
Tidy inside noted runs height =
    ((noted ≡ 0) × (runs ≡ []) × (height ≡ 5))
    ⊎ (((noted ≢ 0) × (runs ≡ noted ∷ [])) ⊎ ((inside ≡ true) × (noted ≢ 0) × (runs ≡ [])))

abbrev IsTidy : Bool → Bar → Type 0
IsTidy inside b = Tidy inside b.timer_id b.running b.height

fps_click-IsTidy :
    (inside : Bool) (f : FpsButton) (b : Bar) → IsTidy inside b → IsTidy inside (fps_click f b)
unfolding fps_click
fps_click-IsTidy inside fps_30 b t = t
fps_click-IsTidy inside fps_48 b t = t
fps_click-IsTidy inside fps_60 b t = t

q_click-IsTidy :
    (inside : Bool) (q : QualityButton) (b : Bar) → IsTidy inside b → IsTidy inside (q_click q b)
unfolding q_click
q_click-IsTidy inside q1 b t = t
q_click-IsTidy inside q2 b t = t
q_click-IsTidy inside q3 b t = t
q_click-IsTidy inside q4 b t = t

module _ (start_timer : ℕ → ℕ) (started : (n : ℕ) → start_timer n ≢ 0) where
  mouse_in-IsTidy :
      (inside : Bool) (b : Bar) → IsTidy inside b → IsTidy true (mouse_track start_timer false b)
  unfolding mouse_track
  mouse_in-IsTidy inside b (inl (a, r, h)) =
      inr (inl (ground (arith, started b.starts), ground arith))
  mouse_in-IsTidy inside b (inr (inl (n, r))) = inr (inr (refl, ground arith, ground arith))
  mouse_in-IsTidy inside b (inr (inr (i, n, r))) = inr (inr (refl, ground arith, ground arith))

  mouse_out-IsTidy :
      (inside : Bool) (b : Bar) → IsTidy inside b → IsTidy false (mouse_track start_timer true b)
  unfolding mouse_track
  mouse_out-IsTidy inside b (inl (a, r, h)) = inr (inl (started _, ground arith))
  mouse_out-IsTidy inside b (inr (inl (n, r))) =
      inr (inl (ground (arith, started b.starts), ground arith))
  mouse_out-IsTidy inside b (inr (inr (i, n, r))) =
      inr (inl (ground (arith, started b.starts), ground arith))

  show_window-IsTidy :
      (inside : Bool) (h : ℕ) (b : Bar)
      → Tidy inside b.timer_id b.running h
      → IsTidy inside (show_window start_timer b)
  unfolding show_window
  show_window-IsTidy inside h b (inl (a, r, k)) =
      inr (inl (ground (arith, started b.starts), ground arith))
  show_window-IsTidy inside h b (inr (inl (n, r))) = inr (inl (ground arith, ground arith))
  show_window-IsTidy inside h b (inr (inr (i, n, r))) = inr (inr (i, ground arith, ground arith))

  resize_event-IsTidy :
      (inside : Bool) (w h : ℕ) (b : Bar)
      → IsTidy inside b
      → IsTidy inside (resize_event start_timer w h b)
  unfolding resize_event
  resize_event-IsTidy inside w h b t = elim (Bool-cases b.bsize) [
    | inl e ↦ rw (e) t
    | inr e ↦
        rw (e)
          (show_window-IsTidy inside b.height (record b { bsize = true; init_w = w; init_h = h }) t)
  ]

  without-noted :
      (inside : Bool) (noted : ℕ) (runs : List ℕ) (height id : ℕ)
      → Tidy inside noted runs height
      → (id == noted) ≡ true
      → without id runs ≡ []
  without-noted inside noted runs height id (inl (a, r, h)) e = rw r refl
  without-noted inside noted runs height id (inr (inl (n, r))) e = rw r (ground (arith, e))
  without-noted inside noted runs height id (inr (inr (i, n, r))) e = rw r refl

  timer_event-IsTidy :
      (inside : Bool) (id : ℕ) (b : Bar)
      → IsTidy inside b
      → IsTidy inside (timer_event start_timer id b)
  unfolding timer_event
  timer_event-IsTidy inside id b t = elim (Bool-cases (id == b.timer_id)) [
    | inl e ↦ rw (e) (inl (refl, without-noted inside b.timer_id b.running b.height id t e, refl))
    | inr e ↦ rw (e) t
  ]

  bar_after-IsTidy :
      (es : List BarEvent) (inside : Bool) (b : Bar)
      → IsTidy inside b
      → IsTidy (inside_after es inside) (bar_after start_timer es b)
  unfolding bar_after
  bar_after-IsTidy [] inside b t = t
  bar_after-IsTidy (mouse_in ∷ es) inside b t =
      bar_after-IsTidy es true _ (mouse_in-IsTidy inside b t)
  bar_after-IsTidy (mouse_out ∷ es) inside b t =
      bar_after-IsTidy es false _ (mouse_out-IsTidy inside b t)
  bar_after-IsTidy (resize w h ∷ es) inside b t =
      bar_after-IsTidy es inside _ (resize_event-IsTidy inside w h b t)
  bar_after-IsTidy (timer id ∷ es) inside b t =
      bar_after-IsTidy es inside _ (timer_event-IsTidy inside id b t)
  bar_after-IsTidy (click_fps f ∷ es) inside b t =
      bar_after-IsTidy es inside _ (fps_click-IsTidy inside f b t)
  bar_after-IsTidy (click_q q ∷ es) inside b t =
      bar_after-IsTidy es inside _ (q_click-IsTidy inside q b t)
  bar_after-IsTidy (click_plain p ∷ es) inside b t = bar_after-IsTidy es inside _ t

  at_most_one : (inside : Bool) (b : Bar) → IsTidy inside b → length b.running ≤ 1
  at_most_one inside b (inl (a, r, h)) = rw r (omega arith)
  at_most_one inside b (inr (inl (n, r))) = rw r (omega arith)
  at_most_one inside b (inr (inr (i, n, r))) = rw r (omega arith)

  fires : (b : Bar) → b.running ≡ b.timer_id ∷ [] → IsHidden (timer_event start_timer b.timer_id b)
  unfolding timer_event
  fires b r = (ground arith, ground arith)

  settles : (inside : Bool) (b : Bar) → IsTidy inside b → (inside ≡ true) ⊎ IsHiding start_timer b
  settles inside b (inl (a, r, h)) =
      inr (subst (λ ids. IsHidden (fire_all start_timer ids b)) (sym r) (h, r))
  settles inside b (inr (inl (n, r))) =
      inr (subst (λ ids. IsHidden (fire_all start_timer ids b)) (sym r) (fires b r))
  settles inside b (inr (inr (i, n, r))) = inl i

  -- Whatever happens to the tool bar, at most one timer of it runs; and unless the mouse is over it,
  -- the bar is hidden and no timer runs once the timer that runs has fired: if no timer that Qt starts
  -- has the identifier 0.
  pub bar_after-hides :
      (es : List BarEvent)
      → (length (bar_after start_timer es (docker_widget start_timer)).running ≤ 1)
        × ((inside_after es false ≡ true)
            ⊎ IsHiding start_timer (bar_after start_timer es (docker_widget start_timer)))
  unfolding docker_widget
  bar_after-hides es =
      let t = bar_after-IsTidy es false (docker_widget start_timer) begins in
      (at_most_one _ last t, settles _ last t)
    where
      last : Bar
      last = bar_after start_timer es (docker_widget start_timer)

      begins : IsTidy false (docker_widget start_timer)
      begins = inr (inl (started 0, refl))
