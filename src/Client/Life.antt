-- ===== src/Client/Life.antt =====
-- The life of a client: it gets stuck only where libevent refuses a timer, its error callback is called once, and no timer outlives
-- it.
use vncc.Base.{◌-◌, ◌<◌, ◌≡◌, ◌⊎◌, inl, inr, Bool-cases, sym, ap, refl, true, false, arith, subst}
use vncc.Client.{
  Client, Answers, is_connected, opened, do_conn_cb, do_reconn_cb, do_close_cb, Step, conn_due,
  reconn_due, close_due, bev_event, error_only, disconnect_called, send_called, send_due, Steps,
  here, then_step,
}
use vncc.Client.Inv.{
  count, IsLive, IsDeleted, IsSound, do_real_connect-IsLive, event_cb-IsSound, conn-connects,
  close-live, close-waiting, close-gone, queue_send-cases,
}

do_conn_cb-IsSound : (a : Answers) (c : Client) → IsLive c → 0 < c.conns → IsSound (do_conn_cb a c)
do_conn_cb-IsSound a c l h = elim (Bool-cases (is_connected c.status)) [
  | inl s ↦ absurd (busy (up s l.has_bev))
  | inr s ↦ inl (
      subst IsLive (sym (conn-connects a c s)) (
        do_real_connect-IsLive a (record c { conns = c.conns - 1 }) l.there (omega (arith, l))
          l.calls))
]
  where
    up :
        is_connected c.status ≡ true
        → (is_connected c.status ≡ false) ⊎ (c.bev ≡ true)
        → c.bev ≡ true
    up e (inl f) = absurd (ground (arith, e, f))
    up e (inr f) = f

    busy : c.bev ≡ true → ⊥
    busy b = omega (arith, l, ap count b)

do_close_cb-IsSound : (a : Answers) (c : Client) → IsLive c → IsSound (do_close_cb a c)
do_close_cb-IsSound a c l = elim (Bool-cases c.bev) [
  | inl b ↦
      subst IsSound (sym (close-live a c l.there b))
        (event_cb-IsSound a error_only (record c { closes = c.closes - 1; done = true }) (told l) b)
  | inr b ↦ inl (subst IsLive (sym (close-waiting a c l.there b)) (told l))
]
  where
    told : IsLive c → IsLive (record c { closes = c.closes - 1; done = true })
    told k = record { there = k.there; one = k.one; calls = k.calls; has_bev = k.has_bev }

live-Step : (c d : Client) → IsLive c → Step c d → IsSound d
live-Step c _ l (conn_due _ a h) = do_conn_cb-IsSound a c l h
live-Step c _ l (reconn_due _ a h) = inl (
    unfold do_reconn_cb in
    do_real_connect-IsLive a (record c { reconns = c.reconns - 1 }) l.there (omega (arith, l))
      l.calls)
live-Step c _ l (close_due _ a h) = do_close_cb-IsSound a c l
live-Step c _ l (bev_event _ a v b) = event_cb-IsSound a v c l b
live-Step c _ l (disconnect_called _ t) =
    inl (record { there = l.there; one = l.one; calls = l.calls; has_bev = l.has_bev })
live-Step c _ l (send_called _ t) = elim (queue_send-cases c) [
  | inl e ↦ inl (subst IsLive (sym e) l)
  | inr e ↦ inl (
      subst IsLive (sym e)
        (record { there = l.there; one = l.one; calls = l.calls; has_bev = l.has_bev }))
]
live-Step c _ l (send_due _ h) =
    inl (record { there = l.there; one = l.one; calls = l.calls; has_bev = l.has_bev })

deleted-Step : (c d : Client) → IsDeleted c → Step c d → IsSound d
deleted-Step c _ l (conn_due _ a h) = absurd (omega (arith, l))
deleted-Step c _ l (reconn_due _ a h) = absurd (omega (arith, l))
deleted-Step c _ l (close_due _ a h) = inr (
    subst IsDeleted (sym (close-gone a c l.gone))
      (record { gone = l.gone; told = l.told; none_left = l.none_left; calls = l.calls }))
deleted-Step c _ l (bev_event _ a v b) = absurd (omega (arith, l, ap count b))
deleted-Step c _ l (disconnect_called _ t) = absurd (ground (arith, l.gone, t))
deleted-Step c _ l (send_called _ t) = absurd (ground (arith, l.gone, t))
deleted-Step c _ l (send_due _ h) =
    inr (record { gone = l.gone; told = l.told; none_left = l.none_left; calls = l.calls })

pub Step-IsSound : (c d : Client) → IsSound c → Step c d → IsSound d
Step-IsSound c d (inl l) s = live-Step c d l s
Step-IsSound c d (inr l) s = deleted-Step c d l s

-- Whatever the network, the timers and other threads do after one call of `Connect` that returned true: a
-- client that is not deleted has exactly one of a connection, a connect timer, a reconnect timer and a
-- reconnect timer that libevent refused, so that it never gets stuck but by such a refusal; its error
-- callback has not been called, and its status is connected only if it has a connection. A deleted one was
-- told to close, none of these is left for it, and its error callback was called exactly once.
pub Steps-IsSound : (c : Client) → Steps opened c → IsSound c
Steps-IsSound c here = inl (record { there = refl; one = refl; calls = refl; has_bev = inl refl })
Steps-IsSound c (then_step d _ steps s) = Step-IsSound d c (Steps-IsSound d steps) s
