-- ===== src/Post/Form.antt =====
-- Reading a posted form back, as a server does: names up to '=', values up to '&'.
use vncc.Base.{
  ℕ, ◌≤◌, length, ◌==◌, ◌≡◌, sym, ap, ◌∙◌, Bool, true, false, if◌then◌else◌, if_false, List, [],
  ◌∷◌, ◌++◌, append-nil, append_assoc, All, arith,
}
use vncc.Post.Content.{Form, join}

-- The name and the value read so far; `in_value` once the '=' has been read.
unfoldable pub scan : Bool → List ℕ → List ℕ → List ℕ → Form
scan in_value name value [] = (name, value) ∷ []
scan in_value name value (c ∷ text) =
    let next = scan false [] [] text in
    let longer_value = scan true name (value ++ c ∷ []) text in
    let value_starts = scan true name [] text in
    let longer_name = scan false (name ++ c ∷ []) value text in
    if c == 38
    then (name, value) ∷ next
    else if in_value
    then longer_value
    else if c == 61
    then value_starts
    else longer_name

unfoldable pub read_form : List ℕ → Form
read_form text = scan false [] [] text

-- Neither '&' nor '='.
abbrev pub IsPlain : ℕ → Type 0
IsPlain c = ((c == 38) ≡ false) × ((c == 61) ≡ false)

abbrev pub PlainField : List ℕ × List ℕ → Type 0
PlainField f = All IsPlain f.0 × All IsPlain f.1

scan-name :
    (name value word text : List ℕ)
    → All IsPlain word
    → scan false name value (word ++ text) ≡ scan false (name ++ word) value text
unfolding scan
scan-name name value [] text h = ap (λ n. scan false n value text) (sym (append-nil name))
scan-name name value (c ∷ word) text h =
    if_false (c == 38) _ _ h.0.0
    ∙ if_false (c == 61) _ _ h.0.1
    ∙ scan-name (name ++ c ∷ []) value word text h.1
    ∙ ap (λ n. scan false n value text) (append_assoc name (c ∷ []) word)

scan-value :
    (name value word text : List ℕ)
    → All IsPlain word
    → scan true name value (word ++ text) ≡ scan true name (value ++ word) text
unfolding scan
scan-value name value [] text h = ap (λ v. scan true name v text) (sym (append-nil value))
scan-value name value (c ∷ word) text h =
    if_false (c == 38) _ _ h.0.0
    ∙ scan-value name (value ++ c ∷ []) word text h.1
    ∙ ap (λ v. scan true name v text) (append_assoc value (c ∷ []) word)

-- One field, with the text behind it.
scan-field :
    (name value text : List ℕ)
    → All IsPlain name
    → All IsPlain value
    → scan false [] [] (name ++ 61 ∷ (value ++ text)) ≡ scan true name value text
unfolding scan
scan-field name value text h k =
    scan-name [] [] name (61 ∷ (value ++ text)) h ∙ scan-value name [] value text k

-- A form whose names and values hold neither '&' nor '=' is read back as it was, field by field.
read_form-join :
    (f : List ℕ × List ℕ) (rest : Form)
    → PlainField f
    → All PlainField rest
    → read_form (join (f ∷ rest)) ≡ f ∷ rest
unfolding read_form scan
read_form-join (name, value) [] h all =
    ap (λ v. scan false [] [] (name ++ 61 ∷ v)) (sym (append-nil value))
    ∙ scan-field name value [] h.0 h.1
read_form-join (name, value) (g ∷ rest) h all =
    scan-field name value (38 ∷ join (g ∷ rest)) h.0 h.1
    ∙ ap (λ r. (name, value) ∷ r) (read_form-join g rest all.0 all.1)

-- So is any form that has a field.
pub read_whole : (fs : Form) → 1 ≤ length fs → All PlainField fs → read_form (join fs) ≡ fs
read_whole [] h all = absurd (omega arith)
read_whole (f ∷ rest) h all = read_form-join f rest all.0 all.1
