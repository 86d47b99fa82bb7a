-- ===== src/Control/Requests.antt =====
-- Requests that wait for an answer: what a call registers, and that no registered callback is without
-- the task that will call it.
use vncc.Base.{
  ℕ, Bool, true, false, Option-cases, none, some, [], ◌∷◌, ◌++◌, ◌≡◌, ◌≢◌, inl, inr, refl, arith,
}
use vncc.Control.{CallbackMap, emplace, erase, Callbacks, after_send, send_tcp_data, remove_cb}

pub erase_self : (m : CallbackMap) (k : ℕ) → erase m k k ≡ none
erase_self m k = ground arith

pub erase_other : (m : CallbackMap) (k j : ℕ) → j ≢ k → erase m k j ≡ m j
erase_other m k j h = ground arith

pub emplace_self : (m : CallbackMap) (k cb : ℕ) → m k ≡ none → emplace m k cb k ≡ some cb
emplace_self m k cb h = ground arith

pub emplace_other : (m : CallbackMap) (k j cb : ℕ) → j ≢ k → emplace m k cb j ≡ m j
emplace_other m k j cb h = ground arith

-- A request whose name is not waiting and whose data is sent: its callbacks are registered, those of
-- other names are as before, and a task is posted that will time it out.
pub record Registered (key succ fail : ℕ) (s t : Callbacks) : Type 0 where
  pub recv_at : t.recv_cb_map key ≡ some succ
  pub fail_at : t.fail_cb_map key ≡ some fail
  pub recv_else : (j : ℕ) → j ≢ key → t.recv_cb_map j ≡ s.recv_cb_map j
  pub fail_else : (j : ℕ) → j ≢ key → t.fail_cb_map j ≡ s.fail_cb_map j
  pub posted : t.tasks ≡ s.tasks ++ (key ∷ [])
  pub silent : t.called ≡ s.called

module _ (key succ fail : ℕ) (s : Callbacks) where
  abbrev pub both : Callbacks
  both = record s {
    recv_cb_map = emplace s.recv_cb_map key succ;
    fail_cb_map = emplace s.fail_cb_map key fail;
  }

  abbrev pub neither : Callbacks
  neither = record s {
    recv_cb_map = erase s.recv_cb_map key;
    fail_cb_map = erase s.fail_cb_map key;
  }

  pub send-fresh :
      (sent : Bool)
      → s.recv_cb_map key ≡ none
      → s.fail_cb_map key ≡ none
      → send_tcp_data key sent succ fail s ≡ after_send key sent both
  unfolding send_tcp_data
  send-fresh sent e f = rw (e, f)

  pub send-waiting :
      (sent : Bool) (old : ℕ)
      → s.fail_cb_map key ≡ some old
      → send_tcp_data key sent succ fail s ≡ (neither, false)
  unfolding send_tcp_data after_send
  send-waiting sent old f = elim (Option-cases (s.recv_cb_map key)) [
    | inl e ↦ rw (e, f)
    | inr e ↦ rw (e.1)
  ]

  -- A request whose name is not waiting and whose data is sent answers true and is registered: its
  -- callbacks under its name, those of other names as before, and a task posted that will time it out.
  pub send_tcp_data-Registered :
      s.recv_cb_map key ≡ none
      → s.fail_cb_map key ≡ none
      → (t : Callbacks) × (send_tcp_data key true succ fail s ≡ (t, true))
        × Registered key succ fail s t
  unfolding after_send
  send_tcp_data-Registered e f = (
    _,
    send-fresh true e f,
    record {
      recv_at = emplace_self s.recv_cb_map key succ e;
      fail_at = emplace_self s.fail_cb_map key fail f;
      recv_else = λ j h. emplace_other s.recv_cb_map key j succ h;
      fail_else = λ j h. emplace_other s.fail_cb_map key j fail h;
      posted = refl;
      silent = refl;
    },
  )

  pub remove-nothing :
      (t : Callbacks) → t.fail_cb_map key ≡ none → (remove_cb key t).called ≡ t.called
  unfolding remove_cb
  remove-nothing t e = rw (e, remove_cb)

  -- A request with the name of one that waits is refused, and the one that waits is forgotten: its
  -- callbacks are gone, and the task that was posted to call its failure callback calls nothing.
  pub send_tcp_data-forgets :
      (sent : Bool) (old : ℕ)
      → s.fail_cb_map key ≡ some old
      → (t : Callbacks) × (send_tcp_data key sent succ fail s ≡ (t, false))
        × (t.recv_cb_map key ≡ none)
        × (t.fail_cb_map key ≡ none)
        × ((remove_cb key t).called ≡ s.called)
  send_tcp_data-forgets sent old f = (
    neither,
    send-waiting sent old f,
    erase_self s.recv_cb_map key,
    erase_self s.fail_cb_map key,
    remove-nothing neither (erase_self s.fail_cb_map key),
  )
