-- ===== src/Socket/Stopping.antt =====
-- What `Stop` achieves, and when it does nothing.
use Prim.Native.String.{String}
use mathlib.Core.Bool.{false≢true}
use vncc.Base.{
  ℕ, suc, ◌≡◌, refl, sym, ap, subst, ◌||◌, not, ◌∙◌, Bool, true, false, if_true, if_false, Option,
  inl, inr, Bool-cases, arith,
}
use vncc.Socket.{
  Socket, Message, device_name, send, run, stop_loop, stop, retry, loop_end, switch_device,
  query_video_locd_state, free_video, Step, opened, closed, failed, message, beat, timer, flush,
  idle, ended, again, stopped, switched, queried, freed, Steps, here, then,
}

-- Told to stop, with no loop running and no thread about to start one.
pub record IsStopped (s : Socket) : Type 0 where
  pub done : s.b_done ≡ true
  pub quiet : s.live ≡ false
  pub alone : s.spawned ≡ 0

send-quiet : (m : Message) (s : Socket) → s.live ≡ false → send m s ≡ s
unfolding send
send-quiet m s e = if_false s.live _ _ e

switch_device-done : (device : String) (s : Socket) → s.b_done ≡ true → switch_device device s ≡ s
unfolding switch_device
switch_device-done device s e = if_true s.b_done _ _ e

-- `Stop` in a state that is stopped leaves it so.
stop-IsStopped : (s : Socket) → IsStopped s → IsStopped (stop s) × ((stop s).sent ≡ s.sent)
unfolding stop stop_loop
stop-IsStopped s i = elim (Bool-cases (not s.b_run || (not s.has_cli || s.b_stop_done))) [
  | inl e ↦ rw e (i, refl)
  | inr e ↦ rw (e, i.quiet) (record { done = refl; quiet = refl; alone = i.alone }, refl)
]

unchanged : (s t : Socket) → IsStopped s → t ≡ s → IsStopped t × (t.sent ≡ s.sent)
unchanged s t i e = subst (λ u. IsStopped u × (u.sent ≡ s.sent)) (sym e) (i, refl)

not_live : {s : Socket} → IsStopped s → s.live ≡ true → ⊥
not_live i e = false≢true (sym i.quiet ∙ e)

stop-starts :
    (s : Socket)
    → s.b_run ≡ true
    → s.has_cli ≡ true
    → s.b_stop_done ≡ false
    → s.spawned ≡ 0
    → IsStopped (stop s) × ((stop s).sent ≡ s.sent)
unfolding stop stop_loop
stop-starts s r c d a = elim (Bool-cases s.live) [
  | inl l ↦ rw (r, c, d, l) (record { done = refl; quiet = refl; alone = a }, refl)
  | inr l ↦ rw (r, c, d, l) (record { done = refl; quiet = refl; alone = a }, refl)
]

module _ (contains : String → String → Bool) (clients_of : String → Option String) where
  IsStopped-Step :
      {s t : Socket} → IsStopped s → Step contains clients_of s t → IsStopped t × (t.sent ≡ s.sent)
  unfolding loop_end query_video_locd_state free_video
  IsStopped-Step {s} i (ended others e) =
      (record { done = i.done; quiet = i.quiet; alone = i.alone }, refl)
  IsStopped-Step {s} i stopped = stop-IsStopped s i
  IsStopped-Step {s} i (switched device) =
      unchanged s _ i (switch_device-done (device_name device) s i.done)
  IsStopped-Step {s} i queried = unchanged s _ i (send-quiet _ s i.quiet)
  IsStopped-Step {s} i freed = unchanged s _ i (send-quiet _ s i.quiet)
  IsStopped-Step {s} i (again ok others e) = absurd (omega (arith, i.alone, e))
  IsStopped-Step i (opened e) = absurd (not_live i e)
  IsStopped-Step i (closed e) = absurd (not_live i e)
  IsStopped-Step i (failed e) = absurd (not_live i e)
  IsStopped-Step i (message e p) = absurd (not_live i e)
  IsStopped-Step i (beat e n h) = absurd (not_live i e)
  IsStopped-Step i (timer e c n h) = absurd (not_live i e)
  IsStopped-Step i (flush e m r h) = absurd (not_live i e)
  IsStopped-Step i (idle e h r) = absurd (not_live i e)

  IsStopped-Steps :
      {s t : Socket} → IsStopped s → Steps contains clients_of s t → IsStopped t × (t.sent ≡ s.sent)
  IsStopped-Steps i here = (i, refl)
  IsStopped-Steps i (then run step) =
      let (j, e) = IsStopped-Steps i run in let (k, f) = IsStopped-Step j step in (k, f ∙ e)

  -- `Stop` on a client that runs, is not stopped yet and has no thread about to start it again stops it
  -- for good: in every state that can follow without a new start it is done, no loop of it runs, and
  -- nothing more has been sent.
  pub stop-silent :
      (s t : Socket)
      → s.b_run ≡ true
      → s.has_cli ≡ true
      → s.b_stop_done ≡ false
      → s.spawned ≡ 0
      → Steps contains clients_of (stop s) t
      → (t.b_done ≡ true) × (t.live ≡ false) × (t.sent ≡ s.sent)
  stop-silent s t r c d a steps =
      let (i, e) = stop-starts s r c d a in
      let (j, f) = IsStopped-Steps i steps in (j.done, j.quiet, f ∙ e)

  -- With a reconnect timer standing whose `close` does not throw, the client can get to a state in which
  -- its loop runs and `Stop` does nothing: the timer ends the old loop and starts a thread, the thread starts the client, and
  -- only then the old loop's thread leaves `loop` and takes `_bRun` back.
  pub stop-without_effect :
      (s : Socket) (others : ℕ)
      → s.live ≡ true
      → s.retries ≡ suc others
      → (t : Socket) × Steps contains clients_of s t × (t.live ≡ true) × (stop t ≡ t)
  unfolding retry stop_loop run loop_end stop
  stop-without_effect s others l r = (
    _,
    then (then (then here (timer l true others r)) (again true s.spawned refl))
        (ended s.ending (ap (λ (u : Socket). u.ending) (if_true s.live _ _ l))),
    refl,
    refl,
  )
