-- ===== src/Instructions/Members.antt =====
-- What a `from_json` that ends without a throw has done to each member, in the order of the
-- declaration, whatever the order of its statements.
use Prim.Native.String.{String}
use text.Mathlib.Text.{◌==◌}
use text.Mathlib.TextEquality.{eq_iff}
use mathlib.Core.Bool.{and-eq-true_iff}
use vncc.Base.{
  ℕ, zero, suc, ◌≤◌, ◌≡◌, refl, sym, ap, ap₂, ◌∙◌, Bool, true, false, ◌&&◌, if◌then◌else◌, if_true,
  if_false, inl, inr, Bool-cases, List, [], ◌∷◌, Option, none, some, ◌↔◌, leb, arith,
}
use vncc.Instructions.{
  got, Width, ℤ, integer, ℤ, Kind, Fields, nil, field, Struct, Val, Vals, JsonLib, and_then,
  in_turn, present, option_js, get_to, get_member, from_json,
}

abbrev pub count : String → List String → ℕ
count n [] = 0
count n (m ∷ names) = let rest = count n names in if m == n then suc rest else rest

abbrev pub without : String → List String → List String
without n [] = []
without n (m ∷ names) = let rest = without n names in if m == n then rest else m ∷ rest

-- Every name that is read is a declared member, and none is read twice.
unfoldable pub well_read : Fields → List String → Bool
well_read nil [] = true
well_read nil (name ∷ names) = false
well_read (field name k fs) names = leb (count name names) 1 && well_read fs (without name names)

-- What a member is read from: nothing if no statement names it.
abbrev pub read_if : {Json : Type 0} → ℕ → Option Json → Option Json
read_if zero o = none
read_if (suc c) o = o

-- One statement on the first member, and one on the others.
on_first :
    {V S : Type 0} {B : Type 0} (p : Bool × V) (s t : S) (w : V) (f : V × S → Bool × (V × S))
    (g : V → Bool × V)
    → ((v : V) → (f (v, s) ≡ (true, (w, t))) ↔ ((g v ≡ (true, w)) × B))
    → (and_then (p.0, (p.1, s)) f (λ r. r) ≡ (true, (w, t)))
      ↔ ((and_then p g (λ r. r) ≡ (true, w)) × B)
on_first (true, v) s t w f g ih = ih v
on_first (false, v) s t w f g ih = (λ e. absurd (ground arith), λ e. absurd (ground arith))

on_others :
    {V S : Type 0} {A : Type 0} (p : Bool × S) (v w : V) (t : S) (f : V × S → Bool × (V × S))
    (g : S → Bool × S)
    → ((s : S) → (f (v, s) ≡ (true, (w, t))) ↔ (A × (g s ≡ (true, t))))
    → (and_then (p.0, (v, p.1)) f (λ r. r) ≡ (true, (w, t)))
      ↔ (A × (and_then p g (λ r. r) ≡ (true, t)))
on_others (true, s) v w t f g ih = ih s
on_others (false, s) v w t f g ih = (λ e. absurd (ground arith), λ e. absurd (ground arith))

module _ {Json Real : Type 0} (lib : JsonLib Json Real) (unset : ℤ) where
  -- A member that is missing, null or not read keeps its value; one that is there has been read.
  unfoldable pub Got : (k : Kind) → Option Json → Val Real k → Val Real k → Type 0
  Got k none v w = v ≡ w
  Got k (some j) v w = get_to lib unset k j v ≡ (true, w)

  unfoldable pub Reads : (fs : Fields) → List String → Json → Vals Real fs → Vals Real fs → Type 0
  unfolding Val
  Reads nil names j s t = Unit {0}
  Reads (field n k fs) names j (v, s) (w, t) =
      Got k (read_if (count n names) (present lib j n)) v w × Reads fs (without n names) j s t

  abbrev pub run : (fs : Fields) → List String → Json → Vals Real fs → Bool × Vals Real fs
  run fs names j =
      in_turn (λ name. option_js (get_member lib unset fs name) (present lib j name)) names

  -- The statements that name one member.
  abbrev turns : (k : Kind) → ℕ → Option Json → Val Real k → Bool × Val Real k
  turns k zero o v = (true, v)
  turns k (suc c) o v = and_then (option_js (get_to lib unset k) o v) (turns k c o) (λ w. w)

  module _ (n : String) (k : Kind) (fs : Fields) where
    pub head_step :
        (name : String) (o : Option Json) (v : Val Real k) (s : Vals Real fs)
        → (name == n) ≡ true
        → unfold Vals in
          option_js (get_member lib unset (field n k fs) name) o (v, s)
          ≡ ((option_js (get_to lib unset k) o v).0, ((option_js (get_to lib unset k) o v).1, s))
    unfolding get_to Val
    head_step name none v s e = refl
    head_step name (some j) v s e = if_true (name == n) _ _ e

    pub tail_step :
        (name : String) (o : Option Json) (v : Val Real k) (s : Vals Real fs)
        → (name == n) ≡ false
        → unfold Vals in
          option_js (get_member lib unset (field n k fs) name) o (v, s) ≡ (
            (option_js (get_member lib unset fs name) o s).0,
            (v, (option_js (get_member lib unset fs name) o s).1),
          )
    unfolding get_to Val
    tail_step name none v s e = refl
    tail_step name (some j) v s e = if_false (name == n) _ _ e

    -- The statements on a struct end well when those on its first member and those on the others do.
    split :
        (names : List String) (j : Json) (v w : Val Real k) (s t : Vals Real fs)
        → unfold Vals in
          (run (field n k fs) names j (v, s) ≡ (true, (w, t))) ↔ (
            (turns k (count n names) (present lib j n) v ≡ (true, w))
            × (run fs (without n names) j s ≡ (true, t)))
    unfolding Val
    split [] j v w s t = (
      λ e. (ap (λ p. (p.0, p.1.0)) e, ap (λ p. (p.0, p.1.1)) e),
      λ e. ap₂ (λ p q. (p.0, (p.1, q.1))) e.0 e.1,
    )
    split (name ∷ names) j v w s t = elim (Bool-cases (name == n)) [
      | inl e ↦
          rw (head_step name (present lib j name) v s e, e, (eq_iff name n).0 e)
            (on_first _ s t w _ _ (λ v'. split names j v' w s t))
      | inr e ↦
          rw (tail_step name (present lib j name) v s e, e)
            (on_others _ v w t _ _ (λ s'. split names j v w s' t))
    ]

  eta : {A : Type 0} (p : Bool × A) → and_then p (λ a. (true, a)) (λ a. a) ≡ p
  eta (true, a) = refl
  eta (false, a) = refl

  turns-Got :
      (k : Kind) (c : ℕ) (o : Option Json) (v w : Val Real k)
      → c ≤ 1
      → (turns k c o v ≡ (true, w)) ↔ Got k (read_if c o) v w
  unfolding Got
  turns-Got k zero o v w h = (λ e. ap (λ p. p.1) e, λ e. ap (λ x. (true, x)) e)
  turns-Got k (suc zero) none v w h = (λ e. ap (λ p. p.1) e, λ e. ap (λ x. (true, x)) e)
  turns-Got k (suc zero) (some j) v w h =
      (λ e. sym (eta (get_to lib unset k j v)) ∙ e, λ e. eta (get_to lib unset k j v) ∙ e)
  turns-Got k (suc (suc c)) o v w h = absurd (omega arith)

  run-Reads :
      (fs : Fields) (names : List String) (j : Json) (s t : Vals Real fs)
      → well_read fs names ≡ true
      → (run fs names j s ≡ (true, t)) ↔ Reads fs names j s t
  unfolding Val Reads well_read
  run-Reads nil [] j s t h = (λ e. tt, λ e. refl)
  run-Reads nil (name ∷ names) j s t h = absurd (ground arith)
  run-Reads (field n k fs) names j (v, s) (w, t) h =
      let (once, others) =
        (and-eq-true_iff (leb (count n names) 1) (well_read fs (without n names))).0 h in
      let (ends, starts) = split n k fs names j v w s t in
      let (got, gave) = turns-Got k (count n names) (present lib j n) v w (ground arith) in
      let (read, done) = run-Reads fs (without n names) j s t others in
      (λ e. (got (ends e).0, read (ends e).1), λ r. starts (gave r.0, done r.1))

  -- The two ways that a value is read, one level deep.
  pub from_json-in_turn :
      (d : Struct) (j : Json) (s : Vals Real d.members)
      → from_json lib unset d j s ≡ run d.members d.reads j s
  unfolding from_json get_to Val
  from_json-in_turn d j s = refl

  pub get_to-integer :
      (w : Width) (d : Option ℤ) (j : Json) (v c : ℤ)
      → lib.get_integer w j ≡ some c
      → unfold Val in (get_to lib unset (integer w d) j v ≡ (true, c))
  unfolding get_to Val
  get_to-integer w d j v c e = ap (got v) e

  -- A `from_json` whose names are declared and different ends without a throw, with the value `t`,
  -- exactly if each declared member of `t` is what `get_to` made of the JSON member of that name when
  -- the code reads it and it is there and not null, and what it was before otherwise.
  pub from_json-Reads :
      (d : Struct) (j : Json) (s t : Vals Real d.members)
      → well_read d.members d.reads ≡ true
      → (from_json lib unset d j s ≡ (true, t)) ↔ Reads d.members d.reads j s t
  unfolding from_json get_to Val
  from_json-Reads d j s t h = run-Reads d.members d.reads j s t h
