-- ===== src/Proto/Calls.antt =====
-- Any calls of the functions that make a numbered request.
use Prim.Native.String.{String}
use vncc.Base.{
  ℕ, suc, ◌+◌, ◌^◌, ◌<◌, ◌≡◌, ◌∙◌, ap₂, refl, Bool, List, [], ◌∷◌, map, length, arith, tabulate,
  tabulate-ext,
}
use vncc.Proto.{
  Build, Object, OutProto, gen_out_proto, next_id, gen_normal, connect, switch_lang, heartbeat,
  set_clip_board, get_install_app_info, root_apps, get_device_info, screen_captrue,
}

-- The function that is called, with its arguments but the token.
pub data Call (Real : Type 0) : Type 0 where
  connects : String → ℕ → Call Real
  switches_lang : String → Call Real
  beats : Call Real
  sets_clip_board : String → Call Real
  lists_apps : Call Real
  roots_apps : List String → List String → Call Real
  asks_device : Call Real
  captures : ℕ → ℕ → Bool → Real → Real → Bool → Call Real
  sends : ℕ → String → Call Real

-- The command of each.
abbrev pub command_of : {Real : Type 0} → Call Real → ℕ
command_of (connects token level) = 100008
command_of (switches_lang lang) = 100014
command_of beats = 100022
command_of (sets_clip_board body) = 100017
command_of lists_apps = 100003
command_of (roots_apps change roots) = 100004
command_of asks_device = 100001
command_of (captures w h zip res def save) = 100016
command_of (sends cmd body) = cmd

module _ {Real : Type 0} (dump : Object Real → String) (b : Build) (token : String) where
  unfoldable pub call : ℕ → Call Real → ℕ × OutProto
  call n (connects tk level) = connect dump b n tk level token
  call n (switches_lang lang) = switch_lang dump b n lang token
  call n beats = heartbeat dump b n token
  call n (sets_clip_board body) = set_clip_board dump b n body token
  call n lists_apps = get_install_app_info dump b n token
  call n (roots_apps change roots) = root_apps dump b n change roots token
  call n asks_device = get_device_info dump b n token
  call n (captures w h zip res def save) = screen_captrue dump b n w h zip res def save token
  call n (sends cmd body) = gen_normal dump b n cmd body token

  unfoldable pub calls : ℕ → List (Call Real) → List OutProto
  calls n [] = []
  calls n (c ∷ cs) = let (n', p) = call n c in p ∷ calls n' cs

  -- What every call has in common.
  record Made (n : ℕ) (c : Call Real) (o : ℕ × OutProto) : Type 0 where
    counted : o.0 ≡ next_id n
    number : o.1.reqid ≡ next_id n
    command : o.1.cmd_type ≡ command_of c
    owner : o.1.t ≡ token

  call-Made : (n : ℕ) (c : Call Real) → Made n c (call n c)
  unfolding call connect switch_lang heartbeat set_clip_board get_install_app_info root_apps
      get_device_info screen_captrue gen_normal gen_out_proto
  call-Made n (connects tk level) = record {
    counted = refl;
    number = refl;
    command = refl;
    owner = refl;
  }
  call-Made n (switches_lang lang) = record {
    counted = refl;
    number = refl;
    command = refl;
    owner = refl;
  }
  call-Made n beats = record { counted = refl; number = refl; command = refl; owner = refl }
  call-Made n (sets_clip_board body) = record {
    counted = refl;
    number = refl;
    command = refl;
    owner = refl;
  }
  call-Made n lists_apps = record { counted = refl; number = refl; command = refl; owner = refl }
  call-Made n (roots_apps change roots) = record {
    counted = refl;
    number = refl;
    command = refl;
    owner = refl;
  }
  call-Made n asks_device = record { counted = refl; number = refl; command = refl; owner = refl }
  call-Made n (captures w h zip res def save) = record {
    counted = refl;
    number = refl;
    command = refl;
    owner = refl;
  }
  call-Made n (sends cmd body) = record {
    counted = refl;
    number = refl;
    command = refl;
    owner = refl;
  }

  -- The requests of any calls carry numbers that count on from the counter, each one its own, if the
  -- counter does not wrap; the command of each is that of the function called, and each carries the
  -- token given.
  pub calls-numbered :
      (cs : List (Call Real)) (n : ℕ)
      → n + length cs < 2 ^ 64
      → (map (λ p. p.reqid) (calls n cs) ≡ tabulate (length cs) (λ k. n + 1 + k))
        × (map (λ p. p.cmd_type) (calls n cs) ≡ map command_of cs)
        × (map (λ p. p.t) (calls n cs) ≡ tabulate (length cs) (λ k. token))
  unfolding calls
  calls-numbered [] n h = (refl, refl, refl)
  calls-numbered (c ∷ cs) n h =
      let made = call-Made n c in
      let rest = calls-numbered cs (call n c).0 (omega (arith, made.counted)) in
      (
        ap₂ ◌∷◌ (made.number ∙ first)
            (rest.0 ∙ tabulate-ext (length cs) _ _ (λ k lt. later (call n c).0 k made.counted)),
        ap₂ ◌∷◌ made.command rest.1,
        ap₂ ◌∷◌ made.owner rest.2,
      )
    where
      first : next_id n ≡ n + 1 + 0
      first = omega arith

      later : (m k : ℕ) → m ≡ next_id n → m + 1 + k ≡ n + 1 + suc k
      later m k e = omega arith
