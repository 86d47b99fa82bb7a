-- ===== src/Proto/Tests.antt =====
-- A heartbeat, a key and a touch.
use Prim.Native.String.{String}
use vncc.Base.{ℕ, ◌≡◌, true, false, List, [], ◌∷◌, map, arith}
use vncc.Proto.{Build, Object, UserInput, mouse_msg, home, text_msg, send_inputs}
use vncc.Proto.Ids.{id_of, remote, command, route_of, send_inputs-connected}
use vncc.Proto.Calls.{Call, beats, sends, captures, calls, calls-numbered}

abbrev build : Build
build = record { multidesk = false; kaopu = false }

-- Coordinates are numbers, and what is dumped does not matter here.
abbrev dump_nothing : Object ℕ → String
dump_nothing o = "{}"

abbrev to_none : String → List ℕ
to_none s = []

abbrev of_none : List ℕ → String
of_none bytes = ""

abbrev inputs : List (UserInput ℕ)
inputs = home ∷ mouse_msg 3 4 0 ∷ text_msg "a" ∷ []

send_inputs-connected_example :
    (map route_of (send_inputs dump_nothing to_none of_none build "t" true 7 inputs)
      ≡ command 100019 ∷ remote 100023 ∷ command 120005 ∷ [])
    × (map id_of (send_inputs dump_nothing to_none of_none build "t" true 7 inputs)
        ≡ 8 ∷ 9 ∷ 10 ∷ [])
send_inputs-connected_example =
    send_inputs-connected dump_nothing to_none of_none build "t" inputs 7 (omega arith)

abbrev some_calls : List (Call ℕ)
some_calls = beats ∷ captures 10 20 true 1 1 false ∷ sends 100019 "ls" ∷ []

calls-numbered_example :
    (map (λ p. p.reqid) (calls dump_nothing build "t" 0 some_calls) ≡ 1 ∷ 2 ∷ 3 ∷ [])
    × (map (λ p. p.cmd_type) (calls dump_nothing build "t" 0 some_calls)
        ≡ 100022 ∷ 100016 ∷ 100019 ∷ [])
    × (map (λ p. p.t) (calls dump_nothing build "t" 0 some_calls) ≡ "t" ∷ "t" ∷ "t" ∷ [])
calls-numbered_example = calls-numbered dump_nothing build "t" some_calls 0 (omega arith)
