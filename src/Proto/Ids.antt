-- ===== src/Proto/Ids.antt =====
-- The numbers that the requests carry, and where the user's input goes.
use Prim.Native.String.{String}
use vncc.Base.{
  ℕ, suc, ◌+◌, ◌^◌, ◌<◌, ◌≡◌, ◌∙◌, ap, ap₂, refl, true, List, [], ◌∷◌, ◌++◌, map, length, arith,
  tabulate, tabulate-ext,
}
use vncc.Proto.{
  Build, Object, gen_out_proto, next_id, gen_normal, UserInput, mouse_msg, text_msg, log_event,
  key_event, right_button, home, process, go_back, Message, to_remote, to_cmd, send_input,
  send_inputs,
}

abbrev pub id_of : Message → ℕ
id_of (to_remote p) = p.reqid
id_of (to_cmd p) = p.reqid

-- The connection and the command that an input asks for.
pub data Route : Type 0 where
  remote : ℕ → Route
  command : ℕ → Route

abbrev pub route_of : Message → Route
route_of (to_remote p) = remote p.cmd_type
route_of (to_cmd p) = command p.cmd_type

-- A touch goes to the remote connection; text, keys, the right button and shell commands to the
-- command connection.
abbrev pub route_for : {Real : Type 0} → UserInput Real → Route
route_for (mouse_msg x y kind) = remote 100023
route_for (text_msg s) = command 120005
route_for (key_event s) = command 120006
route_for (right_button x y kind) = command 100010
route_for _ = command 100019

module _ {Real : Type 0} (dump : Object Real → String) (to_bytes : String → List ℕ)
    (of_bytes : List ℕ → String) (b : Build) (token : String) where
  -- One input while connected is one message, with the next number.
  record One (n : ℕ) (i : UserInput Real) : Type 0 where
    message : Message
    result : send_input dump to_bytes of_bytes b token true n i ≡ (next_id n, message ∷ [])
    number : id_of message ≡ next_id n
    route : route_of message ≡ route_for i

  send_input-One : (n : ℕ) (i : UserInput Real) → One n i
  unfolding send_input gen_normal gen_out_proto
  send_input-One n (mouse_msg x y kind) = record {
    message = _;
    result = refl;
    number = refl;
    route = refl;
  }
  send_input-One n (text_msg s) = record { message = _; result = refl; number = refl; route = refl }
  send_input-One n (log_event s) = record {
    message = _;
    result = refl;
    number = refl;
    route = refl;
  }
  send_input-One n (right_button x y kind) = record {
    message = _;
    result = refl;
    number = refl;
    route = refl;
  }
  send_input-One n (key_event s) = record {
    message = _;
    result = refl;
    number = refl;
    route = refl;
  }
  send_input-One n home = record { message = _; result = refl; number = refl; route = refl }
  send_input-One n process = record { message = _; result = refl; number = refl; route = refl }
  send_input-One n go_back = record { message = _; result = refl; number = refl; route = refl }

  -- While connected, every input of the user is one message, in order, on the connection and with the
  -- command of its kind, and the numbers count on from the counter, if the counter does not wrap.
  pub send_inputs-connected :
      (is : List (UserInput Real)) (n : ℕ)
      → n + length is < 2 ^ 64
      → (map route_of (send_inputs dump to_bytes of_bytes b token true n is) ≡ map route_for is)
        × (map id_of (send_inputs dump to_bytes of_bytes b token true n is)
            ≡ tabulate (length is) (λ k. n + 1 + k))
  unfolding send_inputs
  send_inputs-connected [] n h = (refl, refl)
  send_inputs-connected (i ∷ is) n h =
      let one = send_input-One n i in
      let rest = send_inputs-connected is (next_id n) (omega arith) in
      (
        ap (λ r. map route_of (r.1 ++ send_inputs dump to_bytes of_bytes b token true r.0 is))
              one.result
            ∙ ap₂ ◌∷◌ one.route rest.0,
        ap (λ r. map id_of (r.1 ++ send_inputs dump to_bytes of_bytes b token true r.0 is))
              one.result
            ∙ ap₂ ◌∷◌ (one.number ∙ first)
                (rest.1 ∙ tabulate-ext (length is) _ _ (λ k lt. later k)),
      )
    where
      first : next_id n ≡ n + 1 + 0
      first = omega arith

      later : (k : ℕ) → next_id n + 1 + k ≡ n + 1 + suc k
      later k = omega arith
