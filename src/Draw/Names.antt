-- ===== src/Draw/Names.antt =====
-- How often a name stands in the list of those that OpenGL holds, after `delete` and `generate`.
use vncc.Base.{
  ℕ, ◌+◌, ◌-◌, ◌==◌, ◌≡◌, refl, sym, ap, subst, ◌∙◌, ==_iff, Bool, true, false, if◌then◌else◌,
  Bool-cases, inl, inr, List, [], ◌∷◌, arith,
}
use vncc.Draw.{remove, delete, generate}

abbrev pub one_if : Bool → ℕ
one_if b = if b then 1 else 0

abbrev pub count : ℕ → List ℕ → ℕ
count n [] = 0
count n (m ∷ ms) = one_if (m == n) + count n ms

-- How often `n` is held by a variable that has the name `m`, where 0 is no name.
abbrev pub held : ℕ → ℕ → ℕ
held n m = if m == 0 then 0 else one_if (m == n)

count-remove : (n m : ℕ) (ms : List ℕ) → count n (remove m ms) ≡ count n ms - one_if (m == n)
count-remove n m [] = ground (arith)
count-remove n m (k ∷ ms) = elim (Bool-cases (k == m)) [
  | inl e ↦ rw e (
      subst (λ k'. count n ms ≡ one_if (k' == n) + count n ms - one_if (m == n)) (sym (same e))
        (omega arith))
  | inr e ↦ rw e (others e (count-remove n m ms))
]
  where
    same : (k == m) ≡ true → k ≡ m
    same = (==_iff k m).0

    differ : (k == m) ≡ false → (m == n) ≡ true → (k == n) ≡ false
    differ e f = subst (λ q. (k == q) ≡ false) ((==_iff m n).0 f) e

    others :
        (k == m) ≡ false
        → count n (remove m ms) ≡ count n ms - one_if (m == n)
        → one_if (k == n) + count n (remove m ms) ≡ one_if (k == n) + count n ms - one_if (m == n)
    others e h = elim (Bool-cases (m == n)) [
      | inl f ↦
          subst (λ b. one_if b + count n (remove m ms) ≡ one_if b + count n ms - one_if (m == n))
            (sym (differ e f)) (omega arith)
      | inr f ↦ rw f (ground (arith, f, h))
    ]

delete_no_name : (b : Bool) (m : ℕ) (live : List ℕ) → m ≡ 0 → delete b m live ≡ live
unfolding delete
delete_no_name true m live e = subst (λ k. delete true k live ≡ live) (sym e) refl
delete_no_name false m live e = refl

delete_named : (m : ℕ) (live : List ℕ) → (m == 0) ≡ false → delete true m live ≡ remove m live
unfolding delete
delete_named m live e = rw e refl

pub count-delete :
    (b : Bool) (m : ℕ) (live : List ℕ) (n rest : ℕ)
    → (b ≡ false → m ≡ 0)
    → count n live ≡ held n m + rest
    → count n (delete b m live) ≡ rest
count-delete b m live n rest z h = elim (Bool-cases (m == 0)) [
  | inl e ↦ ap (count n) (delete_no_name b m live ((==_iff m 0).0 e)) ∙ unnamed e h
  | inr e ↦ elim (Bool-cases b) [
    | inl f ↦
        subst (λ c. count n (delete c m live) ≡ rest) (sym f)
          (ap (count n) (delete_named m live e) ∙ named e h (count-remove n m live))
    | inr f ↦ clash e ((==_iff m 0).1 (z f))
  ]
]
  where
    clash : (m == 0) ≡ false → (m == 0) ≡ true → count n (delete b m live) ≡ rest
    clash e f = cc

    unnamed : (m == 0) ≡ true → count n live ≡ held n m + rest → count n live ≡ rest
    unnamed e h = ground (arith, e, h)

    named :
        (m == 0) ≡ false
        → count n live ≡ held n m + rest
        → count n (remove m live) ≡ count n live - one_if (m == n)
        → count n (remove m live) ≡ rest
    named e h r = ground (arith, e, h, r)

pub count-generate :
    (b : Bool) (gen : List ℕ → ℕ) (live : List ℕ) (n : ℕ)
    → count n (generate b gen live).1 ≡ held n (generate b gen live).0 + count n live
unfolding generate
count-generate b gen live n = added (if b then gen live else 0)
  where
    added : (m : ℕ) → count n (if m == 0 then live else m ∷ live) ≡ held n m + count n live
    added m = elim (Bool-cases (m == 0)) [ inl e ↦ rw e (omega arith) | inr e ↦ rw e refl ]

pub count-generate-delete :
    (b : Bool) (gen : List ℕ → ℕ) (m : ℕ) (live : List ℕ) (n rest : ℕ)
    → (b ≡ false → m ≡ 0)
    → count n live ≡ held n m + rest
    → count n (generate b gen (delete b m live)).1
      ≡ held n (generate b gen (delete b m live)).0 + rest
count-generate-delete b gen m live n rest z h =
    count-generate b gen (delete b m live) n
    ∙ ap (λ c. held n (generate b gen (delete b m live)).0 + c) (count-delete b m live n rest z h)

pub generate-unready :
    (b : Bool) (gen : List ℕ → ℕ) (live : List ℕ) → b ≡ false → (generate b gen live).0 ≡ 0
unfolding generate
generate-unready b gen live e = rw e refl

pub count-none : (live : List ℕ) → ((n : ℕ) → count n live ≡ 0) → live ≡ []
count-none [] h = refl
count-none (m ∷ ms) h = absurd (ground (arith, h m))
