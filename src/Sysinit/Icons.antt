-- ===== src/Sysinit/Icons.antt =====
-- `SetIconDown` and `GetIcon` together.
use vncc.Base.{
  ℕ, ◌≡◌, refl, sym, ap, subst, ◌∙◌, Bool, true, false, ◌||◌, if◌then◌else◌, inl, inr, Bool-cases,
  List, [], ◌∷◌, arith,
}
use vncc.Instructions.{ℤ, pos, negsuc}
use vncc.Sysinit.{◌=ℤ=◌, ModelInfo, SysinitInfo, down_loop, icon_loop, set_icon_down, get_icon}

pub eq_self : (a : ℤ) → (a =ℤ= a) ≡ true
eq_self (pos n) = ground arith
eq_self (negsuc n) = ground arith

pub eq_of : (a b : ℤ) → (a =ℤ= b) ≡ true → a ≡ b
eq_of (pos a) (pos b) h = ap pos (ground (arith, h))
eq_of (negsuc a) (negsuc b) h = ap negsuc (ground (arith, h))
eq_of (pos a) (negsuc b) h = absurd (ground (arith, h))
eq_of (negsuc a) (pos b) h = absurd (ground (arith, h))

-- Whether a model with the id is in the list.
abbrev pub known : ℤ → List ModelInfo → Bool
known id [] = false
known id (it ∷ rest) = (it.id =ℤ= id) || known id rest

-- What `get_icon` is to answer after `set_icon_down`.
abbrev pub after_down : Bool → Bool → Bool × List ℕ → Bool × List ℕ
after_down same there (down, path) = (if same then there else down, path)

icon_loop-down_loop :
    (m m' : ℤ) (path : List ℕ) (ms : List ModelInfo)
    → icon_loop m' path (down_loop m ms) ≡ after_down (m' =ℤ= m) (known m ms) (icon_loop m' path ms)
icon_loop-down_loop m m' path [] = elim (Bool-cases (m' =ℤ= m)) [
  | inl e ↦ rw e refl
  | inr e ↦ rw e refl
]
icon_loop-down_loop m m' path (it ∷ rest) = elim (Bool-cases (it.id =ℤ= m)) [
  | inl e ↦ elim (Bool-cases (it.id =ℤ= m')) [
    | inl e' ↦ rw (e, e') (rw (same e e') refl)
    | inr e' ↦ rw (e, e') (rw (differ e e') refl)
  ]
  | inr e ↦ elim (Bool-cases (it.id =ℤ= m')) [
    | inl e' ↦ rw (e, e') (rw (differ' e e') refl)
    | inr e' ↦ rw (e, e') (icon_loop-down_loop m m' path rest)
  ]
]
  where
    same : (it.id =ℤ= m) ≡ true → (it.id =ℤ= m') ≡ true → (m' =ℤ= m) ≡ true
    same e e' = subst (λ a. (a =ℤ= m) ≡ true) (eq_of it.id m' e') e

    differ : (it.id =ℤ= m) ≡ true → (it.id =ℤ= m') ≡ false → (m' =ℤ= m) ≡ false
    differ e e' = elim (Bool-cases (m' =ℤ= m)) [
      | inl p ↦
          absurd (ground (arith, e', subst (λ a. (it.id =ℤ= a) ≡ true) (sym (eq_of m' m p)) e))
      | inr p ↦ p
    ]

    differ' : (it.id =ℤ= m) ≡ false → (it.id =ℤ= m') ≡ true → (m' =ℤ= m) ≡ false
    differ' e e' = sym (ap (λ a. a =ℤ= m) (eq_of it.id m' e')) ∙ e

-- After `SetIconDown` with an id, `GetIcon` says of that id that the icon is down exactly if some
-- model has the id, and answers as before for every other id; the paths are as before.
pub get_icon-set_icon_down :
    (s : SysinitInfo) (m m' : ℤ) (path : List ℕ)
    → get_icon (set_icon_down s m) m' path
      ≡ after_down (m' =ℤ= m) (known m s.model_infos) (get_icon s m' path)
unfolding get_icon set_icon_down
get_icon-set_icon_down s m m' path = icon_loop-down_loop m m' path s.model_infos
