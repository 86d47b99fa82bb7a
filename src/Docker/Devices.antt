-- ===== src/Docker/Devices.antt =====
-- The marks of the four devices: `Show_dev_slot` of erender/edockerwidget.cpp with `stringSplit` of
-- base/misctool.cpp, on a text of bytes. The delimiter of `stringSplit` is a regular expression; the
-- one that is used, a comma, stands for itself.
use vncc.Base.{
  ℕ, ◌≡◌, ◌≢◌, ◌==◌, refl, ap, sym, ◌∙◌, Bool, true, false, ◌||◌, if◌then◌else◌, Bool-cases, inl,
  inr, List, [], ◌∷◌, ◌++◌, All, ascii, same_bytes, same_bytes-eq, subst, fun_ext,
}

abbrev pub push : ℕ → List (List ℕ) → List (List ℕ)
push c [] = (c ∷ []) ∷ []
push c (p ∷ ps) = (c ∷ p) ∷ ps

-- What stands between the delimiters.
abbrev pub pieces : ℕ → List ℕ → List (List ℕ)
pieces delim [] = [] ∷ []
pieces delim (c ∷ cs) = if c == delim then [] ∷ pieces delim cs else push c (pieces delim cs)

-- A token iterator leaves out what is behind the last delimiter, if it is empty.
abbrev pub tokens : List (List ℕ) → List (List ℕ)
tokens (p ∷ [] ∷ []) = p ∷ []
tokens (p ∷ q ∷ rest) = p ∷ tokens (q ∷ rest)
tokens ps = ps

unfoldable pub string_split : ℕ → List ℕ → List (List ℕ)
string_split delim text = tokens (pieces delim text)

-- The four buttons: whether each is marked.
pub record Devices : Type 0 where
  pub phone : Bool
  pub pad : Bool
  pub tv : Bool
  pub box : Bool

abbrev pub mark : List ℕ → Devices → Devices
mark it d =
    if same_bytes it (ascii "phone")
    then record d { phone = true }
    else if same_bytes it (ascii "pad")
    then record d { pad = true }
    else if same_bytes it (ascii "tv")
    then record d { tv = true }
    else if same_bytes it (ascii "box")
    then record d { box = true }
    else d

abbrev pub mark_all : List (List ℕ) → Devices → Devices
mark_all [] d = d
mark_all (it ∷ devs) d = mark_all devs (mark it d)

unfoldable pub show_dev_slot : List ℕ → Devices
unfolding string_split
show_dev_slot text =
    mark_all (string_split 44 text) (record { phone = false; pad = false; tv = false; box = false })

-- The names with commas between them.
abbrev pub comma_list : List ℕ → List (List ℕ) → List ℕ
comma_list n [] = n
comma_list n (m ∷ ms) = n ++ 44 ∷ comma_list m ms

-- A name is not empty and has no comma.
abbrev pub IsName : List ℕ → Type 0
IsName n = (n ≢ []) × All (λ c. (c == 44) ≡ false) n

abbrev pub listed : List ℕ → List (List ℕ) → Bool
listed name [] = false
listed name (n ∷ ns) = same_bytes n name || listed name ns

pieces-name :
    (n rest : List ℕ)
    → All (λ c. (c == 44) ≡ false) n
    → pieces 44 (n ++ 44 ∷ rest) ≡ n ∷ pieces 44 rest
pieces-name [] rest h = refl
pieces-name (c ∷ n) rest (e, h) = rw e (ap (push c) (pieces-name n rest h))

pieces-last : (n : List ℕ) → All (λ c. (c == 44) ≡ false) n → pieces 44 n ≡ n ∷ []
pieces-last [] h = refl
pieces-last (c ∷ n) (e, h) = rw e (ap (push c) (pieces-last n h))

pieces-comma_list :
    (n : List ℕ) (ns : List (List ℕ)) → All IsName (n ∷ ns) → pieces 44 (comma_list n ns) ≡ n ∷ ns
pieces-comma_list n [] ((_, h), _) = pieces-last n h
pieces-comma_list n (m ∷ ms) ((_, h), rest) =
    pieces-name n (comma_list m ms) h ∙ ap (λ ps. n ∷ ps) (pieces-comma_list m ms rest)

tokens-names : (n : List ℕ) (ns : List (List ℕ)) → All IsName (n ∷ ns) → tokens (n ∷ ns) ≡ n ∷ ns
tokens-names n [] h = refl
tokens-names n ([] ∷ ms) (h, (m, rest)) = absurd (m.0 refl)
tokens-names n ((c ∷ m) ∷ ms) (h, rest) = ap (λ ps. n ∷ ps) (tokens-names (c ∷ m) ms rest)

string_split-comma_list :
    (n : List ℕ) (ns : List (List ℕ))
    → All IsName (n ∷ ns)
    → string_split 44 (comma_list n ns) ≡ n ∷ ns
unfolding string_split
string_split-comma_list n ns h = ap tokens (pieces-comma_list n ns h) ∙ tokens-names n ns h

-- The marks of `d`, and of what the test says of a name.
abbrev with_marks : (List ℕ → Bool) → Devices → Devices
with_marks test d = record {
  phone = test (ascii "phone") || d.phone;
  pad = test (ascii "pad") || d.pad;
  tv = test (ascii "tv") || d.tv;
  box = test (ascii "box") || d.box;
}

mark-same :
    (name it : List ℕ) (d : Devices)
    → same_bytes it name ≡ true
    → mark name d ≡ with_marks (same_bytes name) d
    → mark it d ≡ with_marks (same_bytes it) d
mark-same name it d e h =
    subst (λ n. mark n d ≡ with_marks (same_bytes n) d) {x = name} {y = it}
      (sym (same_bytes-eq it name e)) h

mark_lem : (it : List ℕ) (d : Devices) → mark it d ≡ with_marks (same_bytes it) d
mark_lem it d = elim (Bool-cases (same_bytes it (ascii "phone"))) [
  | inl e ↦ mark-same (ascii "phone") it d e refl
  | inr no_phone ↦ elim (Bool-cases (same_bytes it (ascii "pad"))) [
    | inl e ↦ mark-same (ascii "pad") it d e refl
    | inr no_pad ↦ elim (Bool-cases (same_bytes it (ascii "tv"))) [
      | inl e ↦ mark-same (ascii "tv") it d e refl
      | inr no_tv ↦ elim (Bool-cases (same_bytes it (ascii "box"))) [
        | inl e ↦ mark-same (ascii "box") it d e refl
        | inr no_box ↦ rw (no_phone, no_pad, no_tv, no_box) refl
      ]
    ]
  ]
]

or_swap : (a b c : Bool) → (b || (a || c)) ≡ ((a || b) || c)
or_swap true true c = refl
or_swap true false c = refl
or_swap false true c = refl
or_swap false false c = refl

or_false : (a : Bool) → (a || false) ≡ a
or_false true = refl
or_false false = refl

-- Two records with equal marks.
Devices-ext :
    (f g : List ℕ → Bool)
    → ((name : List ℕ) → f name ≡ g name)
    → ◌≡◌ {A = Devices}
        (record {
          phone = f (ascii "phone");
          pad = f (ascii "pad");
          tv = f (ascii "tv");
          box = f (ascii "box");
        })
        (record {
          phone = g (ascii "phone");
          pad = g (ascii "pad");
          tv = g (ascii "tv");
          box = g (ascii "box");
        })
Devices-ext f g e =
    ap
      (λ (h : List ℕ → Bool). record {
        phone = h (ascii "phone");
        pad = h (ascii "pad");
        tv = h (ascii "tv");
        box = h (ascii "box");
      })
      (fun_ext e)

mark_all_lem :
    (ns : List (List ℕ)) (d : Devices) → mark_all ns d ≡ with_marks (λ name. listed name ns) d
mark_all_lem [] d = refl
mark_all_lem (n ∷ ns) d =
    ap (mark_all ns) (mark_lem n d) ∙ mark_all_lem ns (with_marks (same_bytes n) d) ∙ (λ i. record {
      phone = or_swap (same_bytes n (ascii "phone")) (listed (ascii "phone") ns) d.phone i;
      pad = or_swap (same_bytes n (ascii "pad")) (listed (ascii "pad") ns) d.pad i;
      tv = or_swap (same_bytes n (ascii "tv")) (listed (ascii "tv") ns) d.tv i;
      box = or_swap (same_bytes n (ascii "box")) (listed (ascii "box") ns) d.box i;
    })

-- For a text of names with commas between them, a button is marked exactly if its device is one of
-- the names: if each name has a character and none has a comma.
pub show_dev_slot-comma_list :
    (n : List ℕ) (ns : List (List ℕ))
    → All IsName (n ∷ ns)
    → show_dev_slot (comma_list n ns) ≡ record {
      phone = listed (ascii "phone") (n ∷ ns);
      pad = listed (ascii "pad") (n ∷ ns);
      tv = listed (ascii "tv") (n ∷ ns);
      box = listed (ascii "box") (n ∷ ns);
    }
unfolding show_dev_slot
show_dev_slot-comma_list n ns h =
    ap (λ ps. mark_all ps (record { phone = false; pad = false; tv = false; box = false }))
      (string_split-comma_list n ns h)
    ∙ mark_all_lem (n ∷ ns) (record { phone = false; pad = false; tv = false; box = false })
    ∙ Devices-ext (λ name. listed name (n ∷ ns) || false) (λ name. listed name (n ∷ ns))
        (λ name. or_false (listed name (n ∷ ns)))
