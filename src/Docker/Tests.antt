-- ===== src/Docker/Tests.antt =====
-- The tool bar at concrete events; Qt's identifiers are 1, 2, 3 and so on.
use vncc.Base.{ℕ, ◌+◌, ◌≡◌, ◌≤◌, ◌⊎◌, refl, true, false, List, [], ◌∷◌, length, arith, ascii}
use vncc.Docker.{
  Bar, BarEvent, mouse_in, mouse_out, timer, click_fps, click_q, click_plain, fps_48, q2,
  home_click, bar_after, docker_widget,
}
use vncc.Docker.Hiding.{inside_after, IsHiding, bar_after-hides}
use vncc.Docker.Chosen.{IsChosen, bar_after-IsChosen}
use vncc.Docker.Devices.{show_dev_slot, show_dev_slot-comma_list}

abbrev next : ℕ → ℕ
next n = n + 1

abbrev visit : List BarEvent
visit = timer 1 ∷ mouse_in ∷ click_fps fps_48 ∷ click_q q2 ∷ click_plain home_click ∷ mouse_out ∷ []

bar_after-hides_example :
    (length (bar_after next visit (docker_widget next)).running ≤ 1)
    × ((inside_after visit false ≡ true)
        ⊎ IsHiding next (bar_after next visit (docker_widget next)))
bar_after-hides_example = bar_after-hides next (λ n. omega arith) visit

bar_after-IsChosen_example : IsChosen (bar_after next visit (docker_widget next))
bar_after-IsChosen_example = bar_after-IsChosen next visit

-- A bar that was hidden by its timer hides again three seconds after the mouse came in; one that was
-- not stays.
hides_under_mouse : (bar_after next (timer 1 ∷ mouse_in ∷ []) (docker_widget next)).running ≡ 2 ∷ []
unfolding bar_after docker_widget vncc.Docker.mouse_track vncc.Docker.timer_event
hides_under_mouse = refl

stays_under_mouse : (bar_after next (mouse_in ∷ []) (docker_widget next)).running ≡ []
unfolding bar_after docker_widget vncc.Docker.mouse_track
stays_under_mouse = refl

show_dev_slot-comma_list_example :
    show_dev_slot (ascii "pad,box") ≡ record { phone = false; pad = true; tv = false; box = true }
show_dev_slot-comma_list_example =
    show_dev_slot-comma_list (ascii "pad") (ascii "box" ∷ [])
      (((λ e. cc e), (refl, (refl, (refl, tt)))), (((λ e. cc e), (refl, (refl, (refl, tt)))), tt))
