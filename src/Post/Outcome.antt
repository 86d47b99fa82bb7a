-- ===== src/Post/Outcome.antt =====
-- What the caller of a request gets.
use Prim.Native.String.{String}
use package.text.Mathlib.Text.{◌==◌}
use vncc.Base.{
  ℕ, ◌≡◌, refl, sym, ap, ◌∙◌, Bool, true, false, inl, inr, if_true, if_false, Bool-cases, List, [],
  ◌∷◌, Option, none, some, arith,
}
use vncc.Instructions.{
  ℤ, pos, negsuc, Kind, Fields, nil, field, Val, Vals, JsonLib, and_then, in_turn, present,
  option_js, from_json, get_member, defaults, integer, int_type,
}
use vncc.Instructions.Members.{count, head_step, tail_step, from_json-in_turn, get_to-integer}
use vncc.Instructions.Tables.Account.{web_response_pack_base}
use vncc.Post.Http.{Transfer, https_post_content}
use vncc.Post.Answer.{
  is_succ, c_text, quick_get, parsed, answer_text, answer, taken, briage_https_post_content,
}

abbrev rest_of : Fields → Fields
rest_of nil = nil
rest_of (field name k fs) = fs

-- What is read for a transfer: the answer's JSON, or `null`.
abbrev pub read_json :
    {Json Real : Type 0} → JsonLib Json Real → (List ℕ → Option Json) → Transfer → Json
read_json lib parse t =
    parsed lib (parse (c_text (answer_text (https_post_content t (some []) none []).content)))

module _ {Json Real : Type 0} (lib : JsonLib Json Real) (unset : ℤ) (is_object : Json → Bool)
    (parse : List ℕ → Option Json) where
  answer-defaults :
      (j : Json)
      → is_object j ≡ false
      → answer lib unset is_object j ≡ defaults lib unset web_response_pack_base.members
  unfolding quick_get
  answer-defaults j h = elim (Bool-cases (lib.is_null j)) [
    | inl e ↦
        ap (λ (p : Bool × Vals Real web_response_pack_base.members). p.1)
          (if_true (lib.is_null j) _ _ e)
    | inr e ↦
        ap (λ (p : Bool × Vals Real web_response_pack_base.members). p.1)
          (if_false (lib.is_null j) _ _ e ∙ if_false (is_object j) _ _ h)
  ]

  -- An answer that is no JSON object, from a refused URL on: the code is -1, the message and the data
  -- are empty, the exchange does not count as a success, and the stamp of the last answer is 0.
  pub briage_https_post_content-unreadable :
      (t : Transfer)
      → is_object (read_json lib parse t) ≡ false
      → let (stamp, x) = briage_https_post_content lib unset is_object parse t in
        (stamp ≡ pos 0)
        × (x.ret_code ≡ negsuc 0)
        × (x.msg ≡ "")
        × (x.data_text ≡ "")
        × (is_succ x ≡ false)
  unfolding briage_https_post_content taken defaults
  briage_https_post_content-unreadable t h =
      rw (answer-defaults (read_json lib parse t) h) (refl, refl, refl, refl, ground arith)

  -- The members of the answer after the first, and their names.
  abbrev rest_members : Fields
  rest_members = rest_of web_response_pack_base.members

  abbrev rest_names : List String
  rest_names = "Msg" ∷ "requestID" ∷ "TimeStamp" ∷ "R" ∷ "Sign" ∷ "Data" ∷ []

  keep_first :
      {V S : Type 0} (v : V) (p : Bool × S) (f : V × S → Bool × (V × S))
      → ((s : S) → (f (v, s)).1.0 ≡ v)
      → (and_then (p.0, (v, p.1)) f (λ r. r)).1.0 ≡ v
  keep_first v (true, s) f h = h s
  keep_first v (false, s) f h = refl

  -- Statements on other members leave the first one alone, also when one of them throws.
  others-first :
      (n : String) (k : Kind) (fs : Fields) (names : List String) (j : Json) (v : Val Real k)
      (s : Vals Real fs)
      → count n names ≡ 0
      → unfold Vals in
        ((in_turn
            (λ name. option_js (get_member lib unset (field n k fs) name) (present lib j name))
            names
            (v, s)).1.0
          ≡ v)
  unfolding Val
  others-first n k fs [] j v s h = refl
  others-first n k fs (name ∷ names) j v s h = elim (Bool-cases (name == n)) [
    | inl same ↦ absurd (ground (arith, h, same))
    | inr differ ↦ rw (tail_step lib unset n k fs name (present lib j name) v s differ) (
        keep_first v (option_js (get_member lib unset fs name) (present lib j name) s)
          (in_turn (λ m. option_js (get_member lib unset (field n k fs) m) (present lib j m)) names)
          (λ t. others-first n k fs names j v t (sym (if_false (name == n) _ _ differ) ∙ h)))
  ]

  from_json-code :
      (j x : Json) (c : ℤ) (s : Vals Real web_response_pack_base.members)
      → present lib j "Code" ≡ some x
      → lib.get_integer int_type x ≡ some c
      → unfold Vals in ((from_json lib unset web_response_pack_base j s).1.0 ≡ c)
  unfolding Val
  from_json-code j x c (v, s) h g =
      rw
        (
          from_json-in_turn lib unset web_response_pack_base j (v, s),
          head_step lib unset "Code" (integer int_type (some (negsuc 0))) rest_members "Code"
              (present lib j "Code") v s refl,
          h,
          get_to-integer lib unset int_type (some (negsuc 0)) x v c g,
        )
        (others-first "Code" (integer int_type (some (negsuc 0))) rest_members rest_names j c s
          refl)

  -- If the answer is an object whose "Code" is there and a number, the caller gets that code, even
  -- when a later member of the answer is of the wrong type and reading it throws.
  pub briage_https_post_content-code :
      (t : Transfer) (x : Json) (c : ℤ)
      → lib.is_null (read_json lib parse t) ≡ false
      → is_object (read_json lib parse t) ≡ true
      → present lib (read_json lib parse t) "Code" ≡ some x
      → lib.get_integer int_type x ≡ some c
      → (briage_https_post_content lib unset is_object parse t).1.ret_code ≡ c
  unfolding briage_https_post_content taken quick_get Vals
  briage_https_post_content-code t x c e o h g =
      ap {A = Bool × Vals Real web_response_pack_base.members} (λ p. p.1.0)
        (if_false (lib.is_null (read_json lib parse t)) _ _ e
          ∙ if_true (is_object (read_json lib parse t)) _ _ o)
      ∙ from_json-code (read_json lib parse t) x c
          (defaults lib unset web_response_pack_base.members) h g
