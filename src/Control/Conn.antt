-- ===== src/Control/Conn.antt =====
-- Which connections are up, against the log of what happened to them.
use vncc.Base.{
  ℕ, ◌+◌, ◌==◌, if◌then◌else◌, Bool, true, false, ◌&&◌, List, [], ◌∷◌, ◌≡◌, ◌∙◌, ap, refl, arith,
}
use vncc.Control.{
  ConnType, cmd_conn, rt_conn, av_conn, full_conn, ConnState, or_bit, clear_bit, set_conn_state,
  remove_conn_state,
}

-- What happened to a connection; a log has the last event first.
pub data ConnEvent : Type 0 where
  up : ConnType → ConnEvent
  down : ConnType → ConnEvent

abbrev same_type : ConnType → ConnType → Bool
same_type cmd_conn cmd_conn = true
same_type rt_conn rt_conn = true
same_type av_conn av_conn = true
same_type _ _ = false

abbrev pub no_conn : ConnState
no_conn = record { conn_type = 0; reports = 0 }

unfoldable pub replay : List ConnEvent → ConnState
replay [] = no_conn
replay (up t ∷ log) = set_conn_state false t (replay log)
replay (down t ∷ log) = remove_conn_state false t (replay log)

-- The last event of a connection says whether it is up.
abbrev pub is_up : ConnType → List ConnEvent → Bool
is_up t [] = false
is_up t (up u ∷ log) = if same_type u t then true else is_up t log
is_up t (down u ∷ log) = if same_type u t then false else is_up t log

abbrev pub all_up : List ConnEvent → Bool
all_up log = is_up cmd_conn log && (is_up rt_conn log && is_up av_conn log)

-- How often a connection came up while, with it, all three were up.
abbrev pub completions : List ConnEvent → ℕ
completions [] = 0
completions (up t ∷ log) = if all_up (up t ∷ log) then completions log + 1 else completions log
completions (down t ∷ log) = completions log

abbrev weight : Bool → Bool → Bool → ℕ
weight true true true = 7
weight true true false = 3
weight true false true = 5
weight true false false = 1
weight false true true = 6
weight false true false = 2
weight false false true = 4
weight false false false = 0

module _ (a b c : Bool) where
  or-cmd : or_bit (weight a b c) cmd_conn ≡ weight true b c
  or-cmd = ground arith

  or-rt : or_bit (weight a b c) rt_conn ≡ weight a true c
  or-rt = ground arith

  or-av : or_bit (weight a b c) av_conn ≡ weight a b true
  or-av = ground arith

  clear-cmd : clear_bit (weight a b c) cmd_conn ≡ weight false b c
  clear-cmd = ground arith

  clear-rt : clear_bit (weight a b c) rt_conn ≡ weight a false c
  clear-rt = ground arith

  clear-av : clear_bit (weight a b c) av_conn ≡ weight a b false
  clear-av = ground arith

  full : (weight a b c == full_conn) ≡ (a && (b && c))
  full = ground arith

-- What a log says of the state.
abbrev pub state_of : List ConnEvent → ConnState
state_of log = record {
  conn_type = weight (is_up cmd_conn log) (is_up rt_conn log) (is_up av_conn log);
  reports = completions log;
}

abbrev conn : ℕ → ℕ → ConnState
conn n r = record { conn_type = n; reports = r }

choose :
    (b : Bool) (n r : ℕ)
    → (if b
        then record { conn_type = n; reports = r + 1 }
        else record { conn_type = n; reports = r })
      ≡ conn n (if b then r + 1 else r)
choose true n r = refl
choose false n r = refl

module _ (t : ConnType) (log : List ConnEvent) (a b c : Bool) where
  set-eq :
      or_bit (state_of log).conn_type t ≡ weight a b c
      → set_conn_state false t (state_of log) ≡ record {
        conn_type = weight a b c;
        reports = if a && (b && c) then completions log + 1 else completions log;
      }
  unfolding set_conn_state
  set-eq e =
      choose (or_bit (state_of log).conn_type t == full_conn) (or_bit (state_of log).conn_type t)
        (completions log)
      ∙ ap (λ n. conn n (if n == full_conn then completions log + 1 else completions log)) e
      ∙ ap (λ f. conn (weight a b c) (if f then completions log + 1 else completions log))
          (full a b c)

  remove-eq :
      clear_bit (state_of log).conn_type t ≡ weight a b c
      → remove_conn_state false t (state_of log)
        ≡ record { conn_type = weight a b c; reports = completions log }
  unfolding remove_conn_state
  remove-eq e = ap (λ n. conn n (completions log)) e

set_conn_state-lem :
    (t : ConnType) (log : List ConnEvent)
    → set_conn_state false t (state_of log) ≡ state_of (up t ∷ log)
set_conn_state-lem cmd_conn log = set-eq cmd_conn log true _ _ (or-cmd _ _ _)
set_conn_state-lem rt_conn log = set-eq rt_conn log _ true _ (or-rt _ _ _)
set_conn_state-lem av_conn log = set-eq av_conn log _ _ true (or-av _ _ _)

remove_conn_state-lem :
    (t : ConnType) (log : List ConnEvent)
    → remove_conn_state false t (state_of log) ≡ state_of (down t ∷ log)
remove_conn_state-lem cmd_conn log = remove-eq cmd_conn log false _ _ (clear-cmd _ _ _)
remove_conn_state-lem rt_conn log = remove-eq rt_conn log _ false _ (clear-rt _ _ _)
remove_conn_state-lem av_conn log = remove-eq av_conn log _ _ false (clear-av _ _ _)

-- Until the program is done, the bits of `_conn_type` are those of the connections whose last event
-- was that they came up, and "connect_comp" is reported each time one comes up with which all three are
-- up, and at no other time.
pub replay-eq-state_of : (log : List ConnEvent) → replay log ≡ state_of log
unfolding replay
replay-eq-state_of [] = refl
replay-eq-state_of (up t ∷ log) =
    ap (set_conn_state false t) (replay-eq-state_of log) ∙ set_conn_state-lem t log
replay-eq-state_of (down t ∷ log) =
    ap (remove_conn_state false t) (replay-eq-state_of log) ∙ remove_conn_state-lem t log
