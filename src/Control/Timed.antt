-- ===== src/Control/Timed.antt =====
-- Every request that waits is timed out: the tasks that the thread runs, and what they leave.
use vncc.Base.{
  ℕ, zero, suc, Option-cases, none, some, List, [], ◌∷◌, ◌≡◌, ◌≢◌, ◌⊎◌, inl, inr, sym, ap, refl,
  subst, arith, length, ◌≤◌,
}
use vncc.Control.{erase, Callbacks, no_callbacks, remove_cb}
use vncc.Control.Requests.{erase_self, erase_other}
use vncc.Control.Tasks.{
  Operation, request, next_task, run_first, run_task, operate, operate_all, Waits, IsSound,
  erased-IsSound, send_tcp_data-IsSound,
}

-- What `RemoveCB` leaves, whether it calls a callback or not.
record Removed (key : ℕ) (s t : Callbacks) : Type 0 where
  recv_at : t.recv_cb_map key ≡ none
  fail_at : t.fail_cb_map key ≡ none
  recv_else : (j : ℕ) → j ≢ key → t.recv_cb_map j ≡ s.recv_cb_map j
  fail_else : (j : ℕ) → j ≢ key → t.fail_cb_map j ≡ s.fail_cb_map j
  same_tasks : t.tasks ≡ s.tasks

remove_cb-Removed : (key : ℕ) (s : Callbacks) → Removed key s (remove_cb key s)
unfolding remove_cb
remove_cb-Removed key s = elim (Option-cases (s.fail_cb_map key)) [
  | inl e ↦ subst (Removed key s) (sym (quiet e)) (record {
    recv_at = erase_self s.recv_cb_map key;
    fail_at = e;
    recv_else = λ j q. erase_other s.recv_cb_map key j q;
    fail_else = λ j q. refl;
    same_tasks = refl;
  })
  | inr e ↦ subst (Removed key s) (sym (calls e.0 e.1)) (record {
    recv_at = erase_self s.recv_cb_map key;
    fail_at = erase_self s.fail_cb_map key;
    recv_else = λ j q. erase_other s.recv_cb_map key j q;
    fail_else = λ j q. erase_other s.fail_cb_map key j q;
    same_tasks = refl;
  })
]
  where
    quiet :
        s.fail_cb_map key ≡ none
        → remove_cb key s ≡ record s { recv_cb_map = erase s.recv_cb_map key }
    quiet e = rw (e, remove_cb)

    calls :
        (cb : ℕ)
        → s.fail_cb_map key ≡ some cb
        → remove_cb key s ≡ record s {
          recv_cb_map = erase s.recv_cb_map key;
          fail_cb_map = erase s.fail_cb_map key;
          called = cb ∷ s.called;
        }
    calls cb e = rw (e, remove_cb)

-- The tasks without the first one, which is for `key`.
rest-Waits : (j key : ℕ) (rest : List ℕ) → j ≢ key → Waits j (key ∷ rest) → Waits j rest
rest-Waits j key rest q (inl e) = absurd (q e)
rest-Waits j key rest q (inr w) = w

run_task-idle : (s : Callbacks) → s.tasks ≡ [] → run_task s ≡ s
unfolding run_task
run_task-idle s e = ap (λ xs. run_first xs s) e

run_task-due :
    (s : Callbacks) (key : ℕ) (rest : List ℕ)
    → s.tasks ≡ key ∷ rest
    → run_task s ≡ remove_cb key (record s { tasks = rest })
unfolding run_task
run_task-due s key rest e = ap (λ xs. run_first xs s) e

run_task-IsSound : (s : Callbacks) (xs : List ℕ) → s.tasks ≡ xs → IsSound s → IsSound (run_task s)
run_task-IsSound s [] e v = subst IsSound (sym (run_task-idle s e)) v
run_task-IsSound s (key ∷ rest) e v = subst IsSound (sym (run_task-due s key rest e)) (
    erased-IsSound key s (remove_cb key (record s { tasks = rest })) v r.recv_at r.fail_at
      r.recv_else r.fail_else
      (λ j q w. subst (Waits j) (sym r.same_tasks) (rest-Waits j key rest q (subst (Waits j) e w))))
  where
    r : Removed key (record s { tasks = rest }) (remove_cb key (record s { tasks = rest }))
    r = remove_cb-Removed key (record s { tasks = rest })

operate-IsSound : (o : Operation) (s : Callbacks) → IsSound s → IsSound (operate o s)
unfolding operate
operate-IsSound (request key sent succ fail) s v = send_tcp_data-IsSound key succ fail s v sent
operate-IsSound next_task s v = run_task-IsSound s s.tasks refl v

operate_all-IsSound : (os : List Operation) (s : Callbacks) → IsSound s → IsSound (operate_all os s)
unfolding operate_all
operate_all-IsSound [] s v = v
operate_all-IsSound (o ∷ os) s v = operate_all-IsSound os (operate o s) (operate-IsSound o s v)

from_start : (os : List Operation) → IsSound (operate_all os no_callbacks)
from_start os =
    operate_all-IsSound os no_callbacks (record { paired = λ k e. refl; timed = λ k. inl refl })

-- After any requests and tasks, starting with none, a name that has a success or a failure callback has
-- a task posted that will take it off.
pub operate_all-timed :
    (os : List Operation) (k : ℕ)
    → let s = operate_all os no_callbacks in
      ((s.fail_cb_map k ≡ none) × (s.recv_cb_map k ≡ none)) ⊎ Waits k s.tasks
operate_all-timed os k = elim ((from_start os).timed k) [
  | inl e ↦ inl (e, (from_start os).paired k e)
  | inr w ↦ inr w
]

unfoldable pub run_tasks : ℕ → Callbacks → Callbacks
run_tasks zero s = s
run_tasks (suc n) s = run_tasks n (run_task s)

run_task-length :
    (s : Callbacks) (xs : List ℕ) (n : ℕ)
    → s.tasks ≡ xs
    → length xs ≤ suc n
    → length (run_task s).tasks ≤ n
run_task-length s [] n e h =
    subst (λ t. length t.tasks ≤ n) (sym (run_task-idle s e)) (omega (arith, ap length e))
run_task-length s (key ∷ rest) n e h =
    subst (λ t. length t.tasks ≤ n) (sym (run_task-due s key rest e))
      (omega (arith, ap length r.same_tasks))
  where
    r : Removed key (record s { tasks = rest }) (remove_cb key (record s { tasks = rest }))
    r = remove_cb-Removed key (record s { tasks = rest })

cleared :
    (n : ℕ) (s : Callbacks)
    → IsSound s
    → length s.tasks ≤ n
    → (k : ℕ) → ((run_tasks n s).fail_cb_map k ≡ none) × ((run_tasks n s).recv_cb_map k ≡ none)
unfolding run_tasks
cleared zero s v h k = elim (v.timed k) [
  | inl e ↦ (e, v.paired k e)
  | inr w ↦ absurd (no_wait s.tasks h w)
]
  where
    no_wait : (xs : List ℕ) → length xs ≤ 0 → Waits k xs → ⊥
    no_wait [] q w = w
    no_wait (x ∷ xs) q w = omega arith
cleared (suc n) s v h k =
    cleared n (run_task s) (run_task-IsSound s s.tasks refl v) (run_task-length s s.tasks n refl h)
      k

-- Once the tasks that were posted have run after any requests and tasks, nobody waits: no callback is
-- left in either map.
pub run_tasks-operate_all :
    (os : List Operation) (k : ℕ)
    → let s = operate_all os no_callbacks in
      let t = run_tasks (length s.tasks) s in (t.fail_cb_map k ≡ none) × (t.recv_cb_map k ≡ none)
run_tasks-operate_all os k = cleared (length s.tasks) s (from_start os) (omega arith) k
  where
    s : Callbacks
    s = operate_all os no_callbacks
