-- ===== src/Sysinit/Queries.antt =====
-- What the other methods of `_SYSINIT_INFO` find.
use Prim.Native.String.{String}
use mathlib.Core.Bool.{and-eq-true_iff}
use mathlib.Core.List.{Memᴰ, reverse, reverse-cons}
use vncc.Base.{
  ◌≡◌, refl, sym, ap, subst, ◌∙◌, Bool, true, ◌&&◌, ◌||◌, ◌⊎◌, ◌↔◌, if◌then◌else◌, if_true,
  if_false, inl, inr, Bool-cases, List, [], ◌∷◌, ◌++◌, arith,
}
use vncc.Instructions.{ℤ, negsuc}
use vncc.Sysinit.{
  ◌=ℤ=◌, PageUrl, Resolution, SysinitInfo, url_loop, filter_loop, get_url_by_code,
  filter_resolution,
}
use vncc.Sysinit.Icons.{eq_of, eq_self}

-- The first entry of the code, in a list that is read from its end.
abbrev pub first_url : ℤ → String → List PageUrl → String
first_url id url [] = url
first_url id url (it ∷ rest) =
    let later = first_url id url rest in if it.page_code =ℤ= id then it.open_url else later

first_url-append :
    (id : ℤ) (url : String) (xs ys : List PageUrl)
    → first_url id url (xs ++ ys) ≡ first_url id (first_url id url ys) xs
first_url-append id url [] ys = refl
first_url-append id url (it ∷ rest) ys =
    ap (λ u. if it.page_code =ℤ= id then it.open_url else u) (first_url-append id url rest ys)

url_loop-first_url :
    (id : ℤ) (url : String) (xs : List PageUrl) → url_loop id url xs ≡ first_url id url (reverse xs)
url_loop-first_url id url [] = refl
url_loop-first_url id url (it ∷ rest) =
    url_loop-first_url id (if it.page_code =ℤ= id then it.open_url else url) rest
    ∙ sym (first_url-append id url (reverse rest) (it ∷ []))
    ∙ ap (first_url id url) (sym (reverse-cons it rest))

-- Of several entries with the code asked for, `GetUrlByCode` answers the last; without one it
-- answers "about:black".
pub get_url_by_code-last :
    (s : SysinitInfo) (id : ℤ)
    → get_url_by_code s id ≡ first_url id "about:black" (reverse s.app_open_page_urls)
unfolding get_url_by_code
get_url_by_code-last s id = url_loop-first_url id "about:black" s.app_open_page_urls

-- What `FilterResolution` is asked for: a model, and a mode unless it is -1.
abbrev pub Wanted : ℤ → ℤ → Resolution → Type 0
Wanted modelid multi_mode r =
    (r.model_id ≡ modelid) × ((multi_mode ≡ negsuc 0) ⊎ (r.multi_mode ≡ multi_mode))

abbrev chosen : ℤ → ℤ → Resolution → Bool
chosen modelid multi_mode it =
    (it.model_id =ℤ= modelid) && ((multi_mode =ℤ= negsuc 0) || (it.multi_mode =ℤ= multi_mode))

filter_loop-cons :
    (m mode : ℤ) (it : Resolution) (rest : List Resolution)
    → filter_loop m mode (it ∷ rest)
      ≡ (if chosen m mode it then it ∷ filter_loop m mode rest else filter_loop m mode rest)
filter_loop-cons m mode it rest = elim (Bool-cases (mode =ℤ= negsuc 0)) [
  | inl any ↦ elim (Bool-cases (it.model_id =ℤ= m)) [
    | inl e ↦ rw (any, e) refl
    | inr e ↦ rw (any, e) refl
  ]
  | inr one ↦ elim (Bool-cases (it.model_id =ℤ= m)) [
    | inl e ↦ rw (one, e) refl
    | inr e ↦ rw (one, e) refl
  ]
]

chosen-Wanted : (m mode : ℤ) (it : Resolution) → (chosen m mode it ≡ true) ↔ Wanted m mode it
chosen-Wanted m mode it = (
  λ h.
      let (model, other) =
        (and-eq-true_iff (it.model_id =ℤ= m) ((mode =ℤ= negsuc 0) || (it.multi_mode =ℤ= mode))).0
          h in
      (
        eq_of it.model_id m model,
        elim (Bool-cases (mode =ℤ= negsuc 0)) [
          | inl e ↦ inl (eq_of mode (negsuc 0) e)
          | inr e ↦ inr (eq_of it.multi_mode mode (ground (arith, other, e)))
        ],
      ),
  λ w.
      let model = ap (λ a. it.model_id =ℤ= a) (sym w.0) ∙ eq_self it.model_id in
      elim w.1 [
        | inl e ↦ ground (arith, model, ap (λ a. a =ℤ= negsuc 0) e ∙ eq_self (negsuc 0))
        | inr e ↦ ground (arith, model, ap (λ a. a =ℤ= mode) e ∙ eq_self mode)
      ],
)

-- One entry in front of the list, kept or left out.
keep :
    (m mode : ℤ) (r it : Resolution) (rest later : List Resolution)
    → Wanted m mode it
    → (Memᴰ r later ↔ (Memᴰ r rest × Wanted m mode r))
    → Memᴰ r (it ∷ later) ↔ (Memᴰ r (it ∷ rest) × Wanted m mode r)
keep m mode r it rest later w ih = (to, fro)
  where
    to : Memᴰ r (it ∷ later) → Memᴰ r (it ∷ rest) × Wanted m mode r
    to (Memᴰ.head p) = (Memᴰ.head p, subst (Wanted m mode) (sym p) w)
    to (Memᴰ.tail t) = (Memᴰ.tail (ih.0 t).0, (ih.0 t).1)

    fro : Memᴰ r (it ∷ rest) × Wanted m mode r → Memᴰ r (it ∷ later)
    fro (Memᴰ.head p, v) = Memᴰ.head p
    fro (Memᴰ.tail t, v) = Memᴰ.tail (ih.1 (t, v))

leave :
    (m mode : ℤ) (r it : Resolution) (rest later : List Resolution)
    → ¬ Wanted m mode it
    → (Memᴰ r later ↔ (Memᴰ r rest × Wanted m mode r))
    → Memᴰ r later ↔ (Memᴰ r (it ∷ rest) × Wanted m mode r)
leave m mode r it rest later w ih = (λ t. (Memᴰ.tail (ih.0 t).0, (ih.0 t).1), fro)
  where
    fro : Memᴰ r (it ∷ rest) × Wanted m mode r → Memᴰ r later
    fro (Memᴰ.head p, v) = absurd (w (subst (Wanted m mode) p v))
    fro (Memᴰ.tail t, v) = ih.1 (t, v)

filter_loop-Wanted :
    (m mode : ℤ) (r : Resolution) (xs : List Resolution)
    → Memᴰ r (filter_loop m mode xs) ↔ (Memᴰ r xs × Wanted m mode r)
filter_loop-Wanted m mode r [] = (λ h. elim h [ ], λ h. elim h.0 [ ])
filter_loop-Wanted m mode r (it ∷ rest) = elim (Bool-cases (chosen m mode it)) [
  | inl e ↦
      subst (λ l. Memᴰ r l ↔ (Memᴰ r (it ∷ rest) × Wanted m mode r))
        (sym (filter_loop-cons m mode it rest ∙ if_true (chosen m mode it) _ _ e))
        (keep m mode r it rest _ ((chosen-Wanted m mode it).0 e) (filter_loop-Wanted m mode r rest))
  | inr e ↦
      subst (λ l. Memᴰ r l ↔ (Memᴰ r (it ∷ rest) × Wanted m mode r))
        (sym (filter_loop-cons m mode it rest ∙ if_false (chosen m mode it) _ _ e))
        (leave m mode r it rest _ (λ w. absurd (ground (arith, e, (chosen-Wanted m mode it).1 w)))
          (filter_loop-Wanted m mode r rest))
]

-- The resolutions that `FilterResolution` gives are those of the list that are of the model and, but
-- for the mode -1, of the mode.
pub filter_resolution-Wanted :
    (s : SysinitInfo) (modelid multi_mode : ℤ) (r : Resolution)
    → Memᴰ r (filter_resolution s modelid multi_mode)
      ↔ (Memᴰ r s.resolutions × Wanted modelid multi_mode r)
unfolding filter_resolution
filter_resolution-Wanted s modelid multi_mode r =
    filter_loop-Wanted modelid multi_mode r s.resolutions
