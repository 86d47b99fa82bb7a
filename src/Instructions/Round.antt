-- ===== src/Instructions/Round.antt =====
-- Writing a struct whose members are numbers, texts and flags, and reading it back.
use Prim.Native.String.{String}
use text.Mathlib.Text.{◌==◌}
use text.Mathlib.TextEquality.{eq_iff}
use text.Mathlib.TextPositions.{eq_refl}
use mathlib.Core.Bool.{and-eq-true_iff, false≢true}
use vncc.Base.{
  ℕ, zero, suc, ◌≤◌, ◌≡◌, refl, sym, ap, subst, ◌∙◌, Bool, true, false, ◌&&◌, if◌then◌else◌,
  if_true, if_false, inl, inr, Bool-cases, Option-cases, List, [], ◌∷◌, Option, none, some, leb,
  arith,
}
use vncc.Instructions.{
  ℤ, integer, boolean, real, string, Kind, Fields, nil, field, Struct, Val, Vals, JsonLib, non_null,
  get_to, from_json, write, write_member, assign_some, to_json,
}
use vncc.Instructions.Laws.{InRange, Made, start, more, JsonLaws}
use vncc.Instructions.Members.{count, without, well_read, Got, Reads, read_if, from_json-Reads}

abbrev is_scalar : Kind → Bool
is_scalar (integer w d) = true
is_scalar (boolean d) = true
is_scalar real = true
is_scalar string = true
is_scalar _ = false

abbrev pub absent : String → Fields → Bool
absent n nil = true
absent n (field m k fs) = let rest = absent n fs in if n == m then false else rest

-- Every member holds a number, a text or a flag, has a name of its own and is among the names.
unfoldable pub written_whole : Fields → List String → Bool
written_whole nil names = true
written_whole (field n k fs) names =
    leb 1 (count n names) && (is_scalar k && (absent n fs && written_whole fs names))

-- The integers of the struct are of their types.
unfoldable pub FitsOne : (Real : Type 0) (k : Kind) → Val Real k → Type 0
unfolding Val
FitsOne Real (integer w d) v = InRange w v
FitsOne Real _ v = Unit {0}

unfoldable pub Fits : (Real : Type 0) (fs : Fields) → Vals Real fs → Type 0
unfolding Val
Fits Real nil s = Unit {0}
Fits Real (field n k fs) (v, s) = FitsOne Real k v × Fits Real fs s

count-without :
    (m n : String) (names : List String)
    → (m == n) ≡ false
    → count m (without n names) ≡ count m names
count-without m n [] e = refl
count-without m n (a ∷ names) e = elim (Bool-cases (a == n)) [
  | inl same ↦
      rw (same, if_false (a == m) (suc (count m names)) (count m names) (other same))
        (count-without m n names e)
  | inr differ ↦ rw differ (ap (λ c. if a == m then suc c else c) (count-without m n names e))
]
  where
    other : (a == n) ≡ true → (a == m) ≡ false
    other same = elim (Bool-cases (a == m)) [
      | inl p ↦
          absurd
            (false≢true (sym e ∙ (eq_iff m n).1 (sym ((eq_iff a m).0 p) ∙ (eq_iff a n).0 same)))
      | inr p ↦ p
    ]

==-swap : (n m : String) → (n == m) ≡ false → (m == n) ≡ false
==-swap n m e = elim (Bool-cases (m == n)) [
  | inl p ↦ absurd (false≢true (sym e ∙ (eq_iff n m).1 (sym ((eq_iff m n).0 p))))
  | inr p ↦ p
]

module _ {Json Real : Type 0} (lib : JsonLib Json Real) (laws : JsonLaws lib) where
  absent-write_member :
      (fs : Fields) (s : Vals Real fs) (n : String)
      → absent n fs ≡ true
      → write_member lib fs s n ≡ none
  unfolding write_member Val
  absent-write_member nil s n h = refl
  absent-write_member (field m k fs) (v, s) n h = elim (Bool-cases (n == m)) [
    | inl same ↦ absurd (ground (arith, h, same))
    | inr differ ↦ rw differ (absent-write_member fs s n (ground (arith, h, differ)))
  ]

  -- What a member is written as is found in the object, once its name has been written.
  kept :
      (fs : Fields) (s : Vals Real fs) (names : List String) (j x : Json) (n : String)
      → Made lib j
      → write_member lib fs s n ≡ some x
      → lib.find n j ≡ some x
      → lib.find n (to_json lib fs s names j) ≡ some x
  unfolding to_json
  kept fs s [] j x n made w f = f
  kept fs s (name ∷ names) j x n made w f = elim (Option-cases (write_member lib fs s name)) [
    | inl nothing ↦ rw nothing (kept fs s names j x n made w f)
    | inr (y, put) ↦
        rw put (kept fs s names (lib.assign name y j) x n (more name y made) w (after y put))
  ]
    where
      after :
          (y : Json)
          → write_member lib fs s name ≡ some y
          → lib.find n (lib.assign name y j) ≡ some x
      after y put = laws.find-assign n name y j made ∙ (elim (Bool-cases (n == name)) [
        | inl same ↦
            if_true (n == name) _ _ same
            ∙ sym put
            ∙ ap (write_member lib fs s) (sym ((eq_iff n name).0 same))
            ∙ w
        | inr differ ↦ if_false (n == name) _ _ differ ∙ f
      ])

  assign_some-Made :
      (name : String) (o : Option Json) (j : Json)
      → Made lib j
      → Made lib (assign_some lib name o j)
  assign_some-Made name none j made = made
  assign_some-Made name (some v) j made = more name v made

  found :
      (fs : Fields) (s : Vals Real fs) (names : List String) (j x : Json) (n : String)
      → Made lib j
      → 1 ≤ count n names
      → write_member lib fs s n ≡ some x
      → lib.find n (to_json lib fs s names j) ≡ some x
  unfolding to_json
  found fs s [] j x n made h w = absurd (omega arith)
  found fs s (name ∷ names) j x n made h w = elim (Bool-cases (name == n)) [
    | inl same ↦
        let here = subst (λ m. write_member lib fs s m ≡ some x) (sym ((eq_iff name n).0 same)) w in
        rw here (
          kept fs s names (lib.assign name x j) x n (more name x made) w (
            laws.find-assign n name x j made
            ∙ if_true (n == name) _ _ ((eq_iff n name).1 (sym ((eq_iff name n).0 same)))))
    | inr differ ↦
        found fs s names _ x n (assign_some-Made name (write_member lib fs s name) j made)
          (subst (λ c. 1 ≤ c) (if_false (name == n) _ _ differ) h) w
  ]

  module _ (unset : ℤ) where
    back :
        (k : Kind) (o : Option Json) (old v : Val Real k) (x : Json)
        → is_scalar k ≡ true
        → FitsOne Real k v
        → write lib k v ≡ some x
        → o ≡ some x
        → Got lib unset k (non_null lib o) old v
    unfolding Got get_to write Val FitsOne
    back (integer w d) o old v x k_ok fits e f =
        rw (f ∙ sym e, laws.is_integer v, laws.integer_back w v fits) refl
    back (boolean d) o old v x k_ok fits e f =
        rw (f ∙ sym e, laws.is_boolean v, laws.boolean_back v) refl
    back real o old v x k_ok fits e f = rw (f ∙ sym e, laws.is_real v, laws.real_back v) refl
    back string o old v x k_ok fits e f = rw (f ∙ sym e, laws.is_text v, laws.text_back v) refl
    back _ o old v x k_ok fits e f = absurd (ground (arith, k_ok))

    read_if-some : {A : Type 0} (c : ℕ) (o : Option A) → 1 ≤ c → read_if c o ≡ o
    read_if-some zero o h = absurd (omega arith)
    read_if-some (suc c) o h = refl

    write-some :
        (k : Kind) (v : Val Real k) → is_scalar k ≡ true → (x : Json) × (write lib k v ≡ some x)
    unfolding write Val
    write-some (integer w d) v h = (lib.of_integer v, refl)
    write-some (boolean d) v h = (lib.of_boolean v, refl)
    write-some real v h = (lib.of_real v, refl)
    write-some string v h = (lib.of_text v, refl)
    write-some _ v h = absurd (ground (arith, h))

    written_whole-without :
        (fs : Fields) (names : List String) (n : String)
        → absent n fs ≡ true
        → written_whole fs names ≡ true
        → written_whole fs (without n names) ≡ true
    unfolding written_whole
    written_whole-without nil names n alone h = refl
    written_whole-without (field m k fs) names n alone h = elim (Bool-cases (n == m)) [
      | inl same ↦ absurd (ground (arith, alone, same))
      | inr differ ↦
          let later =
            written_whole-without fs names n (sym (if_false (n == m) _ _ differ) ∙ alone)
              (ground (arith, h)) in
          rw (count-without m n names (==-swap n m differ)) (ground (arith, h, later))
    ]

    -- An object that holds each member as it is written gives the struct, whatever was there.
    whole-Reads :
        (fs : Fields) (names : List String) (j : Json) (old s : Vals Real fs)
        → Fits Real fs s
        → written_whole fs names ≡ true
        → ((n : String) (x : Json) → write_member lib fs s n ≡ some x → lib.find n j ≡ some x)
        → Reads lib unset fs names j old s
    unfolding Reads Fits written_whole Val write_member
    whole-Reads nil names j old s fits h there = tt
    whole-Reads (field n k fs) names j (u, old) (v, s) (one, fits) h there =
        let (named, h') =
          (and-eq-true_iff (leb 1 (count n names))
              (is_scalar k && (absent n fs && written_whole fs names))).0
            h in
        let (scalar, h'') =
          (and-eq-true_iff (is_scalar k) (absent n fs && written_whole fs names)).0 h' in
        let (alone, rest) = (and-eq-true_iff (absent n fs) (written_whole fs names)).0 h'' in
        let (x, put) = write-some k v scalar in
        (
          subst (λ o. Got lib unset k o u v) (sym (read_if-some (count n names) _ (ground arith)))
              (back k (lib.find n j) u v x scalar one put
                (there n x (if_true (n == n) _ _ (eq_refl n) ∙ put))),
          whole-Reads fs (without n names) j old s fits
              (written_whole-without fs names n alone rest)
              (λ m y w. elim (Bool-cases (m == n)) [
                | inl same ↦
                    let nothing = absent-write_member fs s n alone in
                    let something =
                      subst (λ a. write_member lib fs s a ≡ some y) ((eq_iff m n).0 same) w in
                    absurd (ground (arith, sym nothing ∙ something))
                | inr differ ↦ there m y (if_false (m == n) _ _ differ ∙ w)
              ]),
        )

    named :
        (fs : Fields) (names : List String) (s : Vals Real fs) (n : String) (x : Json)
        → written_whole fs names ≡ true
        → write_member lib fs s n ≡ some x
        → 1 ≤ count n names
    unfolding written_whole write_member Val
    named nil names s n x h w = absurd (ground (arith, w))
    named (field m k fs) names (v, s) n x h w = elim (Bool-cases (n == m)) [
      | inl same ↦ subst (λ a. 1 ≤ count a names) (sym ((eq_iff n m).0 same)) (ground (arith, h))
      | inr differ ↦
          named fs names s n x (ground (arith, h)) (sym (if_false (n == m) _ _ differ) ∙ w)
    ]

    -- What `to_json` writes, `from_json` reads back as it was.
    pub from_json-to_json :
        (d : Struct) (writes : List String) (old s : Vals Real d.members)
        → Fits Real d.members s
        → (well_read d.members d.reads
            && (written_whole d.members d.reads && written_whole d.members writes))
          ≡ true
        → from_json lib unset d (to_json lib d.members s writes lib.null) old ≡ (true, s)
    from_json-to_json d writes old s fits h =
        let (read, both) =
          (and-eq-true_iff (well_read d.members d.reads)
              (written_whole d.members d.reads && written_whole d.members writes)).0
            h in
        let (all_read, all_written) =
          (and-eq-true_iff (written_whole d.members d.reads) (written_whole d.members writes)).0
            both in
        (from_json-Reads lib unset d _ old s read).1 (
          whole-Reads d.members d.reads _ old s fits all_read (λ n x w.
            found d.members s writes lib.null x n start (named d.members writes s n x all_written w)
              w))
