-- ===== src/Instructions/Explicit.antt =====
-- What a `from_json` that ends without a throw reads, said with nothing but the getters of the JSON
-- library: value by value, element by element and member by member.
use Prim.Native.String.{String}
use mathlib.Core.Bool.{and-eq-true_iff, false≢true}
use vncc.Base.{
  ℕ, zero, suc, ◌==◌, ◌≡◌, refl, sym, ap, ◌∙◌, subst, Bool, true, false, ◌&&◌, if◌then◌else◌,
  if_true, if_false, inl, inr, Bool-cases, List, [], ◌∷◌, Option, none, some, ◌↔◌, arith,
}
use vncc.Instructions.{
  integer, boolean, real, string, wstring, pointer, array, struct, of_struct, ℤ, Kind, Fields, nil,
  field, Struct, Val, Vals, JsonLib, from_option, all_of, present, non_null, default, get_to,
  from_json,
}
use vncc.Instructions.Elements.{Pointwise, some≢none, got-value, all_of-some}
use vncc.Instructions.Members.{count, without, well_read, read_if, Got, Reads, from_json-Reads}

-- The declared members that no statement reads.
abbrev pub unread : Fields → List String → List String
unread nil names = []
unread (field n k fs) names =
    let rest = unread fs (without n names) in if count n names == 0 then n ∷ rest else rest

-- No struct, however deep, reads a name twice or one that it does not declare.
unfoldable mutual
  pub deep : Kind → Bool
  deep (integer w d) = true
  deep (boolean d) = true
  deep real = true
  deep string = true
  deep wstring = true
  deep pointer = true
  deep (array k) = deep k
  deep (struct fs reads) = well_read fs reads && deeps fs

  pub deeps : Fields → Bool
  deeps nil = true
  deeps (field n k fs) = deep k && deeps fs

module _ {Json Real : Type 0} (lib : JsonLib Json Real) (unset : ℤ) where
  -- A member: left as it was if the code does not read it, if it is missing or if it is null, and read
  -- otherwise.
  pub data IsMember (V : Type 0) (P : Json → V → V → Type 0) (statements : ℕ) (name : String)
      (j : Json) (v w : V) : Type 0 where
    not_read : statements ≡ 0 → v ≡ w → IsMember V P statements name j v w
    missing : lib.find name j ≡ none → v ≡ w → IsMember V P statements name j v w
    is_null :
        (x : Json)
        → lib.find name j ≡ some x
        → lib.is_null x ≡ true
        → v ≡ w
        → IsMember V P statements name j v w
    value :
        (x : Json) (more : ℕ)
        → statements ≡ suc more
        → lib.find name j ≡ some x
        → lib.is_null x ≡ false
        → P x v w
        → IsMember V P statements name j v w

  unfoldable mutual
    unfolding Val

    -- What the old value of a type becomes when it is read.
    pub IsValue : (k : Kind) → Json → Val Real k → Val Real k → Type 0
    IsValue (integer w d) j v c = lib.get_integer w j ≡ some c
    IsValue (boolean d) j v c = lib.get_boolean j ≡ some c
    IsValue real j v c = lib.get_real j ≡ some c
    IsValue string j v c = lib.get_text j ≡ some c
    IsValue wstring j v c = ⊥
    IsValue pointer j v c = ⊥
    IsValue (array k) j v cs =
        (xs : List Json) × (lib.elements j ≡ some xs)
        × Pointwise (λ x c. IsValue k x (default lib unset k) c) xs cs
    IsValue (struct fs reads) j s t = IsRead fs reads j s t

    pub IsRead : (fs : Fields) → List String → Json → Vals Real fs → Vals Real fs → Type 0
    IsRead nil names j s t = Unit
    IsRead (field n k fs) names j (v, s) (w, t) =
        IsMember (Val Real k) (IsValue k) (count n names) n j v w
        × IsRead fs (without n names) j s t

  member-kept :
      {V : Type 0} {P : Json → V → V → Type 0} {c : ℕ} {name : String} {j : Json} {v w : V}
      → IsMember V P c name j v w
      → ((x : Json) (more : ℕ)
          → c ≡ suc more
          → lib.find name j ≡ some x
          → lib.is_null x ≡ false
          → ⊥)
      → v ≡ w
  member-kept (not_read z e) never = e
  member-kept (missing f e) never = e
  member-kept (is_null x f n e) never = e
  member-kept (value x more s f n r) never = absurd (never x more s f n)

  member-value :
      {V : Type 0} {P : Json → V → V → Type 0} {c : ℕ} {name : String} {j : Json} {v w : V}
      (x : Json)
      → lib.find name j ≡ some x
      → lib.is_null x ≡ false
      → IsMember V P (suc c) name j v w
      → P x v w
  member-value x f n (not_read z e) = absurd (omega arith)
  member-value x f n (missing g e) = absurd (some≢none (sym f ∙ g))
  member-value {V} {P} {c} {name} {j} {v} {w} x f n (is_null y g m e) =
      absurd (false≢true (sym n ∙ ap (λ o. lib.is_null (from_option x o)) (sym f ∙ g) ∙ m))
  member-value {V} {P} {c} {name} {j} {v} {w} x f n (value y more s g m r) =
      subst (λ z. P z v w) (ap (from_option x) (sym g ∙ f)) r

  IsMember-eq :
      (k : Kind) (P : Json → Val Real k → Val Real k → Type 0) (c : ℕ) (name : String) (j : Json)
      (v w : Val Real k)
      → ((x : Json) → (get_to lib unset k x v ≡ (true, w)) ↔ P x v w)
      → Got lib unset k (read_if c (present lib j name)) v w ↔ IsMember (Val Real k) P c name j v w
  unfolding Got
  IsMember-eq k P c name j v w h = go c (lib.find name j) refl
    where
      go :
          (c : ℕ) (o : Option Json)
          → lib.find name j ≡ o
          → Got lib unset k (read_if c (non_null lib o)) v w ↔ IsMember (Val Real k) P c name j v w
      go zero o e = (λ g. not_read refl g, λ m. member-kept m (λ x more s f n. omega arith))
      go (suc c) none e =
          (λ g. missing e g, λ m. member-kept m (λ x more s f n. some≢none (sym f ∙ e)))
      go (suc c) (some x) e = elim (Bool-cases (lib.is_null x)) [
        | inl n ↦
            subst (λ o. Got lib unset k o v w ↔ IsMember (Val Real k) P (suc c) name j v w)
              (sym (if_true (lib.is_null x) none (some x) n))
              (
                λ g. is_null x e n g,
                λ m. member-kept m (λ y more s f n'.
                    false≢true (sym n' ∙ ap (λ o. lib.is_null (from_option x o)) (sym f ∙ e) ∙ n)),
              )
        | inr n ↦
            subst (λ o. Got lib unset k o v w ↔ IsMember (Val Real k) P (suc c) name j v w)
              (sym (if_false (lib.is_null x) none (some x) n))
              (λ g. value x c refl e n ((h x).0 g), λ m. (h x).1 (member-value x e n m))
      ]

  mutual
    unfolding Val get_to IsValue IsRead deep deeps Reads from_json

    IsValue-eq :
        (k : Kind)
        → deep k ≡ true
        → (j : Json) (v w : Val Real k) → (get_to lib unset k j v ≡ (true, w)) ↔ IsValue k j v w
    IsValue-eq (integer w d) h j v c = got-value (lib.get_integer w j) v c
    IsValue-eq (boolean d) h j v c = got-value (lib.get_boolean j) v c
    IsValue-eq real h j v c = got-value (lib.get_real j) v c
    IsValue-eq string h j v c = got-value (lib.get_text j) v c
    IsValue-eq wstring h j v c = (λ e. false≢true (ap (λ p. p.0) e), λ u. absurd u)
    IsValue-eq pointer h j v c = (λ e. false≢true (ap (λ p. p.0) e), λ u. absurd u)
    IsValue-eq (array k) h j v cs =
        let (there, back) =
          got-value (all_of (λ x. get_to lib unset k x (default lib unset k)) (lib.elements j)) v
            cs in
        let (read, unread) =
          all_of-some (λ x. get_to lib unset k x (default lib unset k))
            (λ x c. IsValue k x (default lib unset k) c)
            (λ x c. IsValue-eq k h x (default lib unset k) c) (lib.elements j) cs in
        (λ e. read (there e), λ r. back (unread r))
    IsValue-eq (struct fs reads) h j s t =
        let (named, inner) = (and-eq-true_iff (well_read fs reads) (deeps fs)).0 h in
        let (there, back) =
          from_json-Reads lib unset (record { members = fs; reads = reads }) j s t named in
        let (read, unread) = Reads-eq fs reads inner j s t in
        (λ e. read (there e), λ r. back (unread r))

    Reads-eq :
        (fs : Fields) (names : List String)
        → deeps fs ≡ true
        → (j : Json) (s t : Vals Real fs) → Reads lib unset fs names j s t ↔ IsRead fs names j s t
    Reads-eq nil names h j s t = (λ u. tt, λ u. tt)
    Reads-eq (field n k fs) names h j (v, s) (w, t) =
        let (one, others) = (and-eq-true_iff (deep k) (deeps fs)).0 h in
        let (there, back) =
          IsMember-eq k (IsValue k) (count n names) n j v w (λ x. IsValue-eq k one x v w) in
        let (rest, unrest) = Reads-eq fs (without n names) others j s t in
        (λ r. (there r.0, rest r.1), λ r. (back r.0, unrest r.1))

  -- A `from_json` ends without a throw, with the value `t`, exactly if `t` is what the getters make of
  -- the members that are there and not null.
  pub from_json-IsRead :
      (d : Struct)
      → deep (of_struct d) ≡ true
      → (j : Json) (s t : Vals Real d.members)
      → (from_json lib unset d j s ≡ (true, t)) ↔ IsRead d.members d.reads j s t
  unfolding from_json IsValue Val
  from_json-IsRead d h j s t = IsValue-eq (of_struct d) h j s t
