-- ===== src/Instructions/Elements.antt =====
-- The getters of single values and of the elements of an array.
use mathlib.Core.Bool.{false≢true}
use vncc.Base.{
  ◌≡◌, refl, sym, ap, ap₂, ◌∙◌, Bool, true, false, List, [], ◌∷◌, Option, none, some, ◌↔◌, arith,
}
use vncc.Instructions.{got, cons_if, each, all_of}

-- Two lists of the same length, related element by element.
unfoldable pub Pointwise : {A B : Type 0} → (A → B → Type 0) → List A → List B → Type 0
Pointwise P [] [] = Unit
Pointwise P [] (y ∷ ys) = ⊥
Pointwise P (x ∷ xs) [] = ⊥
Pointwise P (x ∷ xs) (y ∷ ys) = P x y × Pointwise P xs ys

abbrev head_or : {B : Type 0} → B → Option (List B) → B
head_or z none = z
head_or z (some []) = z
head_or z (some (y ∷ ys)) = y

abbrev tail_of : {B : Type 0} → Option (List B) → Option (List B)
tail_of none = none
tail_of (some []) = none
tail_of (some (y ∷ ys)) = some ys

pub some≢none : {A : Type 0} {a : A} → some a ≡ none → ⊥
some≢none e = ground (arith, e)

pub got-value : {A : Type 0} (o : Option A) (v c : A) → (got v o ≡ (true, c)) ↔ (o ≡ some c)
got-value none v c = (λ e. absurd (ground arith), λ e. absurd (ground arith))
got-value (some x) v c = (λ e. ap (λ p. some p.1) e, λ e. ap (got v) e)

cons_if-cons :
    {B : Type 0} (p : Bool × B) (o : Option (List B)) (y : B) (ys : List B)
    → (cons_if p o ≡ some (y ∷ ys)) ↔ ((p ≡ (true, y)) × (o ≡ some ys))
cons_if-cons (true, z) none y ys = (λ e. absurd (ground arith), λ e. absurd (ground (arith, e.1)))
cons_if-cons (false, z) none y ys = (λ e. absurd (ground arith), λ e. absurd (ground (arith, e.1)))
cons_if-cons (false, z) (some zs) y ys =
    (λ e. absurd (ground arith), λ e. absurd (false≢true (ap (λ p. p.0) e.0)))
cons_if-cons (true, z) (some zs) y ys =
    (λ e. (ap (λ o. (true, head_or z o)) e, ap tail_of e), λ e. ap₂ cons_if e.0 e.1)

each-nil : {A B : Type 0} (f : A → Bool × B) (x : A) (xs : List A) → each f (x ∷ xs) ≡ some [] → ⊥
each-nil f x xs e = go (f x) (each f xs) e
  where
    go : {B : Type 0} (p : Bool × B) (o : Option (List B)) → cons_if p o ≡ some [] → ⊥
    go (true, z) none e = ground arith
    go (false, z) none e = ground arith
    go (false, z) (some zs) e = ground arith
    go (true, z) (some zs) e = ground (arith, e)

each-Pointwise :
    {A B : Type 0} (f : A → Bool × B) (P : A → B → Type 0)
    → ((x : A) (y : B) → (f x ≡ (true, y)) ↔ P x y)
    → (xs : List A) (ys : List B) → (each f xs ≡ some ys) ↔ Pointwise P xs ys
unfolding Pointwise
each-Pointwise f P h [] [] = (λ e. tt, λ u. refl)
each-Pointwise f P h [] (y ∷ ys) = (λ e. ground (arith, e), λ u. absurd u)
each-Pointwise f P h (x ∷ xs) [] = (λ e. each-nil f x xs e, λ u. absurd u)
each-Pointwise f P h (x ∷ xs) (y ∷ ys) =
    let (there, back) = cons_if-cons (f x) (each f xs) y ys in
    let (one, one_back) = h x y in
    let (rest, rest_back) = each-Pointwise f P h xs ys in
    (λ e. (one (there e).0, rest (there e).1), λ u. back (one_back u.0, rest_back u.1))

pub all_of-some :
    {A B : Type 0} (f : A → Bool × B) (P : A → B → Type 0)
    → ((x : A) (y : B) → (f x ≡ (true, y)) ↔ P x y)
    → (o : Option (List A)) (ys : List B)
    → (all_of f o ≡ some ys) ↔ ((xs : List A) × (o ≡ some xs) × Pointwise P xs ys)
all_of-some f P h none ys = (λ e. absurd (some≢none (sym e)), λ r. absurd (some≢none (sym r.1)))
all_of-some f P h (some xs) ys = (
  λ e. (xs, refl, (each-Pointwise f P h xs ys).0 e),
  λ r. ap (all_of f) r.1 ∙ (each-Pointwise f P h r.0 ys).1 r.2,
)
