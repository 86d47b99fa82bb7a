-- ===== src/Client/Inv.antt =====
-- The two states of a client between events, and what each function of the event loop makes of them.
use vncc.Base.{
  ℕ, ◌+◌, ◌-◌, ◌≡◌, ◌⊎◌, inl, inr, Bool-cases, sym, ap, refl, Bool, true, false, arith, subst,
}
use vncc.Wire.Send.{unknow, disconnect, connected}
use vncc.Client.{
  Client, Events, Answers, is_connected, delay_reconn, do_real_connect, drop_bev, event_cb,
  do_conn_cb, do_close_cb, queue_send, error_only,
}

abbrev pub count : Bool → ℕ
count true = 1
count false = 0

-- A client that is not deleted has exactly one of a connection, a connect timer, a reconnect timer and a
-- reconnect timer that was refused, its error callback was not called, and it is connected only if it has
-- a connection.
pub record IsLive (c : Client) : Type 0 where
  pub there : c.alive ≡ true
  pub one : count c.bev + c.conns + c.reconns + c.refused ≡ 1
  pub calls : c.error_calls ≡ 0
  pub has_bev : (is_connected c.status ≡ false) ⊎ (c.bev ≡ true)

-- A deleted one was told to close, no timer is left that would use it, and its error callback was
-- called once.
pub record IsDeleted (c : Client) : Type 0 where
  pub gone : c.alive ≡ false
  pub told : c.done ≡ true
  pub none_left : count c.bev + c.conns + c.reconns + c.refused ≡ 0
  pub calls : c.error_calls ≡ 1

abbrev pub IsSound : Client → Type 0
IsSound c = IsLive c ⊎ IsDeleted c

module _ (a : Answers) (c : Client) where
  timer_added : a.added ≡ true → delay_reconn a c ≡ record c { reconns = c.reconns + 1 }
  unfolding delay_reconn
  timer_added e = rw e

  timer_refused : a.added ≡ false → delay_reconn a c ≡ record c { refused = c.refused + 1 }
  unfolding delay_reconn
  timer_refused e = rw e

  connect-starts : a.started ≡ true → do_real_connect a c ≡ record c { bev = true; status = unknow }
  unfolding do_real_connect
  connect-starts e = rw e

  connect-waits :
      a.started ≡ false
      → do_real_connect a c ≡ delay_reconn a (record c { bev = false; status = unknow })
  unfolding do_real_connect
  connect-waits e = rw e

  drop-deletes :
      c.done ≡ true
      → drop_bev a c ≡ record c {
        bev = false;
        status = disconnect;
        error_calls = c.error_calls + 1;
        alive = false;
      }
  unfolding drop_bev
  drop-deletes e = rw e

  drop-waits :
      c.done ≡ false → drop_bev a c ≡ delay_reconn a (record c { bev = false; status = disconnect })
  unfolding drop_bev
  drop-waits e = rw e

-- A client without a connection that waits for its reconnect timer, or gets none.
wait-IsLive :
    (a : Answers) (c : Client)
    → c.alive ≡ true
    → count c.bev + c.conns + c.reconns + c.refused ≡ 0
    → c.error_calls ≡ 0
    → is_connected c.status ≡ false
    → IsLive (delay_reconn a c)
wait-IsLive a c there nil calls st = elim (Bool-cases a.added) [
  | inl e ↦
      subst IsLive (sym (timer_added a c e))
        (record { there = there; one = omega arith; calls = calls; has_bev = inl st })
  | inr e ↦
      subst IsLive (sym (timer_refused a c e))
        (record { there = there; one = omega arith; calls = calls; has_bev = inl st })
]

pub do_real_connect-IsLive :
    (a : Answers) (c : Client)
    → c.alive ≡ true
    → c.conns + c.reconns + c.refused ≡ 0
    → c.error_calls ≡ 0
    → IsLive (do_real_connect a c)
do_real_connect-IsLive a c there nil calls = elim (Bool-cases a.started) [
  | inl s ↦
      subst IsLive (sym (connect-starts a c s))
        (record { there = there; one = omega arith; calls = calls; has_bev = inr refl })
  | inr s ↦
      subst IsLive (sym (connect-waits a c s))
        (wait-IsLive a (record c { bev = false; status = unknow }) there (omega arith) calls refl)
]

drop_bev-IsSound :
    (a : Answers) (c : Client)
    → c.alive ≡ true
    → c.conns + c.reconns + c.refused ≡ 0
    → c.error_calls ≡ 0
    → IsSound (drop_bev a c)
drop_bev-IsSound a c there nil calls = elim (Bool-cases c.done) [
  | inl d ↦ inr (
      subst IsDeleted (sym (drop-deletes a c d))
        (record { gone = refl; told = d; none_left = omega arith; calls = omega arith }))
  | inr d ↦ inl (
      subst IsLive (sym (drop-waits a c d)) (
        wait-IsLive a (record c { bev = false; status = disconnect }) there (omega arith) calls
          refl))
]

alone : (c : Client) → IsLive c → c.bev ≡ true → c.conns + c.reconns + c.refused ≡ 0
alone c v b = omega (arith, v, ap count b)

module _ (a : Answers) (v : Events) (c : Client) where
  -- The outcomes of `event_cb` on a client that is there.
  event_cb-cases :
      c.alive ≡ true
      → (event_cb a v c ≡ drop_bev a c)
        ⊎ ((event_cb a v c ≡ record c { status = connected; connect_calls = c.connect_calls + 1 })
            ⊎ (event_cb a v c ≡ c))
  unfolding event_cb
  event_cb-cases e = elim (Bool-cases v.eof) [
    | inl p ↦ inl (rw (e, p))
    | inr p ↦ elim (Bool-cases v.error) [
      | inl q ↦ inl (rw (e, p, q))
      | inr q ↦ elim (Bool-cases v.timeout) [
        | inl r ↦ inl (rw (e, p, q, r))
        | inr r ↦ elim (Bool-cases v.up) [
          | inl u ↦ inr (inl (rw (e, p, q, r, u)))
          | inr u ↦ inr (inr (rw (e, p, q, r, u)))
        ]
      ]
    ]
  ]

  event_cb-gone : c.alive ≡ false → event_cb a v c ≡ c
  unfolding event_cb
  event_cb-gone e = rw e

pub event_cb-IsSound :
    (a : Answers) (v : Events) (c : Client) → IsLive c → c.bev ≡ true → IsSound (event_cb a v c)
event_cb-IsSound a v c l b = elim (event_cb-cases a v c l.there) [
  | inl s ↦ subst IsSound (sym s) (drop_bev-IsSound a c l.there (alone c l b) l.calls)
  | inr (inl s) ↦ inl (
      subst IsLive (sym s)
        (record { there = l.there; one = l.one; calls = l.calls; has_bev = inr b }))
  | inr (inr s) ↦ inl (subst IsLive (sym s) l)
]

module _ (a : Answers) (c : Client) where
  conn-ignored : is_connected c.status ≡ true → do_conn_cb a c ≡ record c { conns = c.conns - 1 }
  unfolding do_conn_cb
  conn-ignored e = rw e

  pub conn-connects :
      is_connected c.status ≡ false
      → do_conn_cb a c ≡ do_real_connect a (record c { conns = c.conns - 1 })
  unfolding do_conn_cb
  conn-connects e = rw e

  pub close-live :
      c.alive ≡ true
      → c.bev ≡ true
      → do_close_cb a c ≡ event_cb a error_only (record c { closes = c.closes - 1; done = true })
  unfolding do_close_cb
  close-live e f = rw (e, f)

  pub close-waiting :
      c.alive ≡ true
      → c.bev ≡ false
      → do_close_cb a c ≡ record c { closes = c.closes - 1; done = true }
  unfolding do_close_cb
  close-waiting e f = rw (e, f)

  pub close-gone : c.alive ≡ false → do_close_cb a c ≡ record c { closes = c.closes - 1 }
  unfolding do_close_cb
  close-gone e = rw e

pub queue_send-cases :
    (c : Client) → (queue_send c ≡ c) ⊎ (queue_send c ≡ record c { sends = c.sends + 1 })
unfolding queue_send
queue_send-cases c = elim (Bool-cases (is_connected c.status)) [
  | inl e ↦ inr (rw e)
  | inr e ↦ inl (rw e)
]
