-- ===== src/Base64/Tail.antt =====
-- The length that `Base64Decode` answers, and the round trip.
use vncc.Base.{
  ◌⊎◌, ltb, ltb→lt, ◌≤◌, ◌^◌, none, some, IsByte, ℕ, zero, suc, ◌+◌, ◌*◌, ◌/◌, ◌%◌, ◌<◌, ◌≡◌, ◌≢◌,
  ◌∙◌, sym, ap, refl, List, [], ◌∷◌, ◌==◌, ==_iff, Bool-cases, inl, inr, false, length, get_or, All,
  arith,
}
use vncc.Base64.{
  digit, pad, end_count, encoded_length, decoded_length, base64_encode, base64_decode,
}
use vncc.Base64.Digits.{digit-pad}
use vncc.Base64.Encode.{
  digits, whole_length, encoded_length-fits, base64_encode-eq-digits, length-digits,
}
use vncc.Base64.Decode.{decode_loop-digits}

end-pad :
    (j : ℕ) (src : List ℕ) → get_or src j 0 ≡ pad → end_count (suc j) src ≡ suc (end_count j src)
unfolding end_count
end-pad j src e = ground (arith, e)

end-other : (j : ℕ) (src : List ℕ) → get_or src j 0 ≢ pad → end_count (suc j) src ≡ 0
unfolding end_count
end-other j src e = ground (arith, e)

-- Four characters in front do not change the count, if it ends before them.
module _ (a b c d : ℕ) (ys : List ℕ) where
  end-front :
      (j : ℕ)
      → end_count j ys < j
      → end_count (suc (suc (suc (suc j)))) (a ∷ b ∷ c ∷ d ∷ ys) ≡ end_count j ys
  end-front zero h = absurd (omega arith)
  end-front (suc j) h = elim (Bool-cases (get_or ys j 0 == pad)) [
    | inl e ↦
        end-pad (suc (suc (suc (suc j)))) (a ∷ b ∷ c ∷ d ∷ ys) ((==_iff _ _).0 e)
        ∙ ap suc (end-front j (omega (arith, end-pad j ys ((==_iff _ _).0 e))))
        ∙ sym (end-pad j ys ((==_iff _ _).0 e))
    | inr e ↦
        end-other (suc (suc (suc (suc j)))) (a ∷ b ∷ c ∷ d ∷ ys) (differ e)
        ∙ sym (end-other j ys (differ e))
  ]
    where
      differ : (get_or ys j 0 == pad) ≡ false → get_or ys j 0 ≢ pad
      differ e q = ground arith

-- The padding of some bytes: the bytes that the last group lacks.
abbrev padding : List ℕ → ℕ
padding [] = 0
padding (a ∷ []) = 2
padding (a ∷ b ∷ []) = 1
padding (a ∷ b ∷ c ∷ src) = padding src

padding-small : (src : List ℕ) → padding src < 3
padding-small [] = omega arith
padding-small (a ∷ []) = omega arith
padding-small (a ∷ b ∷ []) = omega arith
padding-small (a ∷ b ∷ c ∷ src) = padding-small src

padding-eq : (src : List ℕ) → whole_length src / 4 * 3 ≡ length src + padding src
padding-eq [] = refl
padding-eq (a ∷ []) = refl
padding-eq (a ∷ b ∷ []) = refl
padding-eq (a ∷ b ∷ c ∷ src) = omega (arith, padding-eq src)

end_count-digits :
    (src : List ℕ) → All IsByte src → end_count (length (digits src)) (digits src) ≡ padding src
end_count-digits [] all = unfold end_count in refl
end_count-digits (a ∷ []) all =
    end-pad 3 _ refl
    ∙ ap suc (end-pad 2 _ refl ∙ ap suc (end-other 1 _ (digit-pad _ (omega arith))))
end_count-digits (a ∷ b ∷ []) all =
    end-pad 3 _ refl ∙ ap suc (end-other 2 _ (digit-pad _ (omega arith)))
end_count-digits (a ∷ b ∷ c ∷ []) all = end-other 3 _ (digit-pad _ (omega arith))
end_count-digits (a ∷ b ∷ c ∷ x ∷ src) all =
    end-front (digit (a / 4)) (digit (a % 4 * 16 + b / 16)) (digit (b % 16 * 4 + c / 64))
      (digit (c % 64)) (digits (x ∷ src)) (length (digits (x ∷ src)))
      (omega (
        arith,
        end_count-digits (x ∷ src) all.1.1.1,
        padding-small (x ∷ src),
        length-digits (x ∷ src),
      ))
    ∙ end_count-digits (x ∷ src) all.1.1.1

-- The length answered for what was encoded is that of the bytes.
decoded_length-digits : (src : List ℕ) → All IsByte src → decoded_length (digits src) ≡ length src
decoded_length-digits src all =
    omega (arith, end_count-digits src all, length-digits src, padding-eq src)

-- If four characters for three bytes, rounded up, are less than 2^31, the encoding of some bytes succeeds,
-- and decoding it gives the bytes back, with the length that each routine answers for its result, and
-- whatever the variable that the decoder does not initialise holds. For more bytes the length does not fit
-- an `int` and the encoding fails.
pub base64_decode-base64_encode :
    (v : ℕ) (src : List ℕ)
    → All IsByte src
    → (((length src + 2) / 3 * 4 < 2 ^ 31)
        × ((text : List ℕ) × (base64_encode src ≡ some text)
            × (base64_decode v text ≡ src)
            × (encoded_length src ≡ some (length text))
            × (decoded_length text ≡ length src)))
      ⊎ ((2 ^ 31 ≤ (length src + 2) / 3 * 4) × (base64_encode src ≡ none))
unfolding base64_decode base64_encode encoded_length
base64_decode-base64_encode v src all = elim (Bool-cases (ltb (whole_length src) (2 ^ 31))) [
  | inl e ↦ inl (
    ltb→lt _ _ e,
    (
      digits src,
      base64_encode-eq-digits src all (ltb→lt _ _ e),
      decode_loop-digits src (decoded_length (digits src)) v 0 all
          (omega (arith, decoded_length-digits src all)),
      encoded_length-fits src (ltb→lt _ _ e) ∙ ap some (sym (length-digits src)),
      decoded_length-digits src all,
    ),
  )
  | inr e ↦ inr (ground (arith, e), rw e refl)
]
