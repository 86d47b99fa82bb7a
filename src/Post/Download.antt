-- ===== src/Post/Download.antt =====
-- What becomes of a download.
use mathlib.Core.List.{Memᴰ}
use vncc.Base.{
  ℕ, ◌<◌, ◌==◌, ◌≡◌, refl, ap, subst, false, inl, inr, if_false, Bool-cases, List, [], ◌∷◌, none,
  length, arith,
}
use vncc.Post.Http.{
  Transfer, Download, https_post_content, downloadwirtefunc, headerwirtefunc, write_to, receive,
}
use vncc.Post.Answer.{fresh_download, briage_download_file}

writes_none : (piece : List ℕ) (d : Download) → d.fp ≡ none → downloadwirtefunc piece d ≡ (0, d)
unfolding downloadwirtefunc
writes_none piece d f = ap (λ o. write_to o piece d) f

-- With no file open nothing is taken of a piece, so that the first piece that is not empty stops the
-- transfer.
no_file :
    (d : Download) (p : List (List ℕ)) (piece : List ℕ)
    → d.fp ≡ none
    → 0 < length piece
    → Memᴰ piece p
    → (receive downloadwirtefunc p d).0 ≡ false
no_file d [] piece f h m = elim m [ ]
no_file d (first ∷ rest) piece f h (Memᴰ.head p) =
    rw
      (
        writes_none first d f,
        if_false (0 == length first) _ _ (ground (arith, subst (λ x. 0 < length x) p h)),
      )
      refl
no_file d (first ∷ rest) piece f h (Memᴰ.tail m) = elim (Bool-cases (0 == length first)) [
  | inl empty ↦ rw (writes_none first d f, empty) (no_file d rest piece f h m)
  | inr some_bytes ↦ rw (writes_none first d f, some_bytes) refl
]

header-fp : (status : ℕ) (d : Download) → (headerwirtefunc status d).fp ≡ d.fp
unfolding headerwirtefunc
header-fp status d = ground arith

-- A download to a named file with a byte in its body never succeeds, whatever the server answers, as
-- nothing opens the file.
pub briage_download_file-fails :
    (t : Transfer) (path : List ℕ) (piece : List ℕ)
    → 0 < length path
    → 0 < length piece
    → Memᴰ piece t.pieces
    → (briage_download_file t path).ret ≡ false
unfolding briage_download_file https_post_content
briage_download_file-fails t (c ∷ path) piece named bytes m = elim (Bool-cases t.url_ok) [
  | inl u ↦ elim (Bool-cases t.handle_ok) [
    | inl h ↦
        rw
          (
            u,
            h,
            no_file (headerwirtefunc t.status fresh_download) t.pieces piece
                (header-fp t.status fresh_download) bytes m,
          )
          refl
    | inr h ↦ rw (u, h) refl
  ]
  | inr u ↦ rw u refl
]
briage_download_file-fails t [] piece named bytes m = absurd (omega arith)
